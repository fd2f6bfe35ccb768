-- ===== src/Services/Examples.antt =====
-- A small table, and the ports of a proxy, of realm/features/services/feature.go.
use foilen_box.Prelude.{
  ℕ, ◌%◌, ◌≤◌, ◌<◌, ◌≡◌, ◌⊎◌, refl, true, false, none, some, [], ◌∷◌, Text, codes, lookup, text_eq,
  subst, delete, ◌==◌, if◌then◌else◌, Bool-cases, inl, inr, text_eq_iff,
}
use foilen_box.Tunnel.{new_session}
use foilen_box.Services.{
  Service, Header, Entry, Feature, Io, handle_tunnel_stream, shut, end_sessions_of, range_size,
  listen_deterministic,
}
use foilen_box.Services.Table.{Sound, IsValid}
use foilen_box.Services.Handling.{handle_tunnel_stream-IsValid}
use foilen_box.Services.Ports.{port_at, listen_deterministic_lem}

abbrev entry_of : Text → Text → Entry
entry_of key peer_id = record { key = key; peer_id = peer_id; session = new_session }

abbrev two_peers : Feature
two_peers = record {
  heap = entry_of (codes "a|1") (codes "a") ∷ entry_of (codes "b|1") (codes "b") ∷ [];
  sessions = (codes "a|1", 0) ∷ (codes "b|1", 1) ∷ [];
}

two_peers-IsValid : IsValid two_peers
unfolding lookup new_session
two_peers-IsValid = record {
  sound = λ key n h. elim (Bool-cases (text_eq (codes "a|1") key)) [
    | inl e ↦
        let at : some 0 ≡ some n = rw e at h in
        subst (Sound two_peers.heap key) (let q : 0 ≡ n = cc in q) (record {
          entry = entry_of (codes "a|1") (codes "a");
          stands = refl;
          keyed = (text_eq_iff (codes "a|1") key).0 e;
          open_ = refl;
        })
    | inr e ↦
        let rest : (if text_eq (codes "b|1") key then some 1 else none) ≡ some n = rw e at h in
        elim (Bool-cases (text_eq (codes "b|1") key)) [
          | inl k ↦
              let at : some 1 ≡ some n = rw k at rest in
              subst (Sound two_peers.heap key) (let q : 1 ≡ n = cc in q) (record {
                entry = entry_of (codes "b|1") (codes "b");
                stands = refl;
                keyed = (text_eq_iff (codes "b|1") key).0 k;
                open_ = refl;
              })
          | inr k ↦ absurd (let none_there : none ≡ some n = rw k at rest in cc)
        ]
  ];
}

abbrev ssh : Service
ssh = record {
  name = codes "ssh";
  description = [];
  hostname = codes "localhost";
  type = codes "ssh";
  port = 22;
}

abbrev all_well : Io
all_well = record { terminated = true; dialled = true; acked = true }

abbrev asks : Header
asks = record { service_name = codes "ssh"; session_id = codes "2"; resume = false; recv = 0 }

handle_tunnel_stream-IsValid_example :
    IsValid (handle_tunnel_stream all_well true (ssh ∷ []) 1 (codes "a") asks two_peers).0
    × IsValid (shut 0 two_peers)
    × IsValid (end_sessions_of (codes "a") two_peers)
handle_tunnel_stream-IsValid_example =
    handle_tunnel_stream-IsValid all_well true (ssh ∷ []) 1 (codes "a") asks 0 two_peers
      two_peers-IsValid

still_there : lookup (codes "b|1") (end_sessions_of (codes "a") two_peers).sessions ≡ some 1
unfolding end_sessions_of lookup text_eq new_session delete
still_there = refl

listen_deterministic_lem_example :
    let start = 5 % range_size in
    let result = listen_deterministic (λ t. 5) (λ p. p == 49160) (codes "a") (codes "ssh") in
    ((j : ℕ) × (result ≡ some (port_at start j))
      × (49152 ≤ port_at start j)
      × (port_at start j ≤ 65535)
      × ((port_at start j == 49160) ≡ true)
      × ((k : ℕ) → k < j → (port_at start k == 49160) ≡ false))
    ⊎ ((result ≡ none) × ((port : ℕ) → 49152 ≤ port → port ≤ 65535 → (port == 49160) ≡ false))
listen_deterministic_lem_example =
    listen_deterministic_lem (λ t. 5) (λ p. p == 49160) (codes "a") (codes "ssh")
