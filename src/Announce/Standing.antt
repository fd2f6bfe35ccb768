-- ===== src/Announce/Standing.antt =====
-- What an announcement cannot change, in realm/features/announce/feature.go.
use foilen_box.Prelude.{
  ℕ, ◌≤◌, ◌≡◌, refl, sym, ◌∙◌, subst, inl, inr, false, Option, none, some, List, [], ◌∷◌, ◌++◌,
  arith, Text, codes, text_eq, text_eq_iff, Map, lookup, lookup-insert, Entries, Entries-insert,
  if◌then◌else◌, Bool-cases, Option-cases,
}
use foilen_box.Model.{Group, PeerInfo}
use foilen_box.Model.Replica.{MapEntry}
use foilen_box.Peers.{Peers, get, upsert}
use foilen_box.Announce.{
  PeerAnnounceInfo, announced_peer, collect, relay_addresses, announced, take_in, consume_peer_info,
  updated_of, store_name, peers_key_prefix,
}

-- What a peer was is kept: its groups and whether it is connected, and it is not seen earlier. A new
-- peer has no group and is not connected.
abbrev pub Kept : Option PeerInfo → Option PeerInfo → Type 0
Kept none none = Unit {0}
Kept none (some q) = (q.group_names ≡ []) × (q.connected ≡ false)
Kept (some p) none = ⊥
Kept (some p) (some q) =
    (q.group_names ≡ p.group_names) × (q.connected ≡ p.connected) × (p.last_seen ≤ q.last_seen)

Kept-refl : (o : Option PeerInfo) → Kept o o
Kept-refl none = tt
Kept-refl (some p) = (refl, refl, omega arith)

Kept-trans : (a b c : Option PeerInfo) → Kept a b → Kept b c → Kept a c
Kept-trans none none none h k = tt
Kept-trans none none (some c) h k = k
Kept-trans none (some b) none h k = absurd k
Kept-trans none (some b) (some c) h k = (k.0 ∙ h.0, k.1 ∙ h.1)
Kept-trans (some a) none c h k = absurd h
Kept-trans (some a) (some b) none h k = absurd k
Kept-trans (some a) (some b) (some c) h k = (k.0 ∙ h.0, k.1 ∙ h.1, omega (arith, h.2, k.2))

-- An upsert writes the peer with other addresses.
get-upsert :
    (x : PeerInfo) (m : Peers) (id : Text)
    → (by : List Text) × ((sources : Map (List Text)) × (get id (upsert x (codes "announce") m) ≡ (
          if text_eq x.id id
          then some (record x { addresses = by; addresses_by_source = sources })
          else get id m)))
unfolding upsert get
get-upsert x m id = (_, (_, lookup-insert x.id id _ m))

module _ (decode : Text → Option PeerAnnounceInfo) (unix_milli : ℕ → ℕ)
    (relay_addr : Text → Text → Option Text) (self_id : Text) where
  Kept-announced :
      (peer_id : Text) (info : PeerAnnounceInfo) (seen : ℕ) (addrs by : List Text)
      (sources : Map (List Text)) (o : Option PeerInfo)
      → Kept o (
          some (record (announced decode unix_milli relay_addr self_id peer_id info seen addrs o) {
            addresses = by;
            addresses_by_source = sources;
          }))
  Kept-announced peer_id info seen addrs by sources none = (refl, refl)
  Kept-announced peer_id info seen addrs by sources (some p) = (refl, refl, ground arith)

  Kept-upsert :
      (peer_id id : Text) (info : PeerAnnounceInfo) (seen : ℕ) (addrs : List Text) (m : Peers)
      → Kept (get id m) (
          get id (
            upsert
              (announced decode unix_milli relay_addr self_id peer_id info seen addrs
                (get peer_id m))
              (codes "announce")
              m))
  Kept-upsert peer_id id info seen addrs m =
      let x =
        announced decode unix_milli relay_addr self_id peer_id info seen addrs (get peer_id m) in
      let (by, (sources, is)) = get-upsert x m id in
      elim (Bool-cases (text_eq peer_id id)) [
        | inl e ↦
            let same : peer_id ≡ id = (text_eq_iff peer_id id).0 e in
            let put : get id (upsert x (codes "announce") m)
                ≡ some (record x { addresses = by; addresses_by_source = sources }) =
              is ∙ rw e refl in
            subst (Kept (get id m)) (sym put) (
              subst
                (λ i.
                  Kept (get i m)
                    (some (record x { addresses = by; addresses_by_source = sources })))
                same (Kept-announced peer_id info seen addrs by sources (get peer_id m)))
        | inr e ↦
            let put : get id (upsert x (codes "announce") m) ≡ get id m = is ∙ rw e refl in
            subst (Kept (get id m)) (sym put) (Kept-refl (get id m))
      ]

  Kept-take_in :
      (entries : Map MapEntry) (relays : List Text) (infos : Map PeerAnnounceInfo) (id : Text)
      (m : Peers)
      → Kept
          (get id m)
          (get id (take_in decode unix_milli relay_addr self_id entries relays infos m))
  unfolding take_in
  Kept-take_in entries relays [] id m = Kept-refl (get id m)
  Kept-take_in entries relays ((peer_id, info) ∷ infos) id m =
      Kept-trans (get id m) (get id (upsert _ (codes "announce") m)) _
        (Kept-upsert peer_id id info _ _ m) (Kept-take_in entries relays infos id _)

  -- No announcement is for this peer itself.
  abbrev Others : Map PeerAnnounceInfo → Type 0
  Others = Entries (λ k info. text_eq k self_id ≡ false)

  announced_peer_other :
      (key peer_id : Text)
      → announced_peer self_id key ≡ some peer_id
      → text_eq peer_id self_id ≡ false
  unfolding announced_peer
  announced_peer_other key peer_id h = ground arith

  collect-Others :
      (entries : Map MapEntry) → Others (collect decode unix_milli relay_addr self_id entries).infos
  unfolding collect
  collect-Others [] = tt
  collect-Others ((key, entry) ∷ entries) = elim (Option-cases (announced_peer self_id key)) [
    | inl e ↦ rw (e, collect) (collect-Others entries)
    | inr (peer_id, e) ↦ elim (Option-cases (decode entry.value)) [
      | inl f ↦ rw (e, collect, f) (collect-Others entries)
      | inr (info, f) ↦
          rw (e, collect, f)
            (Entries-insert (λ k i. text_eq k self_id ≡ false) peer_id info _
              (announced_peer_other key peer_id e) (collect-Others entries))
    ]
  ]

  self-take_in :
      (entries : Map MapEntry) (relays : List Text) (infos : Map PeerAnnounceInfo) (m : Peers)
      → Others infos
      → get self_id (take_in decode unix_milli relay_addr self_id entries relays infos m)
        ≡ get self_id m
  unfolding take_in
  self-take_in entries relays [] m h = refl
  self-take_in entries relays ((peer_id, info) ∷ infos) m h =
      let seen = unix_milli (
        updated_of decode unix_milli relay_addr self_id
          (lookup (peers_key_prefix ++ peer_id) entries)) in
      let x =
        announced decode unix_milli relay_addr self_id peer_id info seen
          (relay_addresses decode unix_milli relay_addr self_id peer_id relays) (get peer_id m) in
      let (by, (sources, is)) = get-upsert x m self_id in
      self-take_in entries relays infos (upsert x (codes "announce") m) h.1 ∙ (is ∙ rw (h.0) refl)

  -- Whatever the maps of the groups announce: a peer that was known is in the groups it was in, is
  -- connected if and only if it was and is not seen earlier than before, a peer that was not known is
  -- in no group and not connected, and what is known of this peer itself stays as it was.
  pub consume_peer_info_lem :
      (shown : Text → Text → Map MapEntry) (groups : List Group) (id : Text) (m : Peers)
      → let after = consume_peer_info decode unix_milli relay_addr self_id shown groups m in
        Kept (get id m) (get id after) × (get self_id after ≡ get self_id m)
  unfolding consume_peer_info
  consume_peer_info_lem shown [] id m = (Kept-refl (get id m), refl)
  consume_peer_info_lem shown (group ∷ groups) id m =
      let entries = shown group.key_pair.id store_name in
      let c = collect decode unix_milli relay_addr self_id entries in
      let m' = take_in decode unix_milli relay_addr self_id entries c.relays c.infos m in
      let (kept, mine) = consume_peer_info_lem shown groups id m' in
      (
        Kept-trans (get id m) (get id m') _ (Kept-take_in entries c.relays c.infos id m) kept,
        mine ∙ self-take_in entries c.relays c.infos m (collect-Others entries),
      )
