-- ===== src/Services/Ports.antt =====
-- The keys of the proxies and their local ports, in realm/features/services/feature.go.
use foilen_box.Prelude.{
  ℕ, zero, suc, ◌+◌, ◌-◌, ◌%◌, ◌≤◌, ◌<◌, ◌≡◌, refl, sym, ◌∙◌, ap, ◌⊎◌, inl, inr, Bool, true, false,
  Option, none, some, [], ◌∷◌, ◌++◌, arith, Text, codes, All, ◌==◌, Bool-cases,
}
use native.Mathlib.Nat.{zero-add}
use foilen_box.Services.{
  proxy_key, split_proxy_key, local_port_range_start, range_size, listen_from, listen_deterministic,
}

-- A peer id without a bar and a service name come back from the key that was made of them.
pub split_proxy_key-proxy_key :
    (peer_id service_name : Text)
    → All (λ c. (c == b'|') ≡ false) peer_id
    → split_proxy_key (proxy_key peer_id service_name) ≡ (peer_id, service_name)
unfolding split_proxy_key proxy_key
split_proxy_key-proxy_key [] service_name h = refl
split_proxy_key-proxy_key (c ∷ peer_id) service_name h =
    let rest = split_proxy_key-proxy_key peer_id service_name h.1 in
    rw h.0 (ap (λ r. (c ∷ r.0, r.1)) rest)

-- The port of the `k`-th turn.
abbrev pub port_at : ℕ → ℕ → ℕ
port_at start k = local_port_range_start + (start + k) % range_size

-- How a search of `left` turns from the `i`-th on can end.
abbrev pub Search : (ℕ → Bool) → ℕ → ℕ → ℕ → Option ℕ → Type 0
Search free start i left result =
    ((j : ℕ) × (j < left)
      × (result ≡ some (port_at start (i + j)))
      × (free (port_at start (i + j)) ≡ true)
      × ((k : ℕ) → k < j → free (port_at start (i + k)) ≡ false))
    ⊎ ((result ≡ none) × ((k : ℕ) → k < left → free (port_at start (i + k)) ≡ false))

taken :
    (free : ℕ → Bool) (start i n : ℕ)
    → free (port_at start i) ≡ false
    → ((k : ℕ) → k < n → free (port_at start (suc i + k)) ≡ false)
    → (k : ℕ) → k < suc n
    → free (port_at start (i + k)) ≡ false
taken free start i n e f zero h =
    ap (λ m. free (port_at start m)) (let q : i + 0 ≡ i = omega arith in q) ∙ e
taken free start i n e f (suc k) h =
    ap (λ m. free (port_at start m)) (let q : i + suc k ≡ suc i + k = omega arith in q)
    ∙ f k (omega arith)

listen_from-Search :
    (free : ℕ → Bool) (start i left : ℕ) → Search free start i left (listen_from free start i left)
unfolding listen_from
listen_from-Search free start i zero = inr (refl, λ k h. absurd (omega arith))
listen_from-Search free start i (suc left) = elim (Bool-cases (free (port_at start i))) [
  | inl e ↦
      let here : i + 0 ≡ i = omega arith in
      inl (
        0,
        omega arith,
        rw e (ap (λ m. some (port_at start m)) (sym here)),
        ap (λ m. free (port_at start m)) here ∙ e,
        λ k h. absurd (omega arith),
      )
  | inr e ↦ elim (listen_from-Search free start (suc i) left) [
    | inl (j, lt, r, f, before) ↦
        let there : suc i + j ≡ i + suc j = omega arith in
        inl (
          suc j,
          omega arith,
          rw e (r ∙ ap (λ m. some (port_at start m)) there),
          ap (λ m. free (port_at start m)) (sym there) ∙ f,
          taken free start i j e before,
        )
    | inr (r, none_free) ↦ inr (rw e r, taken free start i left e none_free)
  ]
]

-- Every port of the range has its turn.
turn_of :
    (start port : ℕ)
    → start < range_size
    → 49152 ≤ port
    → port ≤ 65535
    → (k : ℕ) × (k < range_size) × (port_at start k ≡ port)
turn_of start port s lo hi =
    ((port - 49152 + range_size - start) % range_size, omega arith, omega arith)

-- A search of the whole range, in terms of its ports.
port_of_turn :
    (free : ℕ → Bool) (start : ℕ) (result : Option ℕ)
    → start < range_size
    → Search free start 0 range_size result
    → ((j : ℕ) × (result ≡ some (port_at start j))
        × (49152 ≤ port_at start j)
        × (port_at start j ≤ 65535)
        × (free (port_at start j) ≡ true)
        × ((k : ℕ) → k < j → free (port_at start k) ≡ false))
      ⊎ ((result ≡ none) × ((port : ℕ) → 49152 ≤ port → port ≤ 65535 → free port ≡ false))
port_of_turn free start result s (inl (j, lt, r, f, before)) =
    let same : (k : ℕ) → port_at start (0 + k) ≡ port_at start k =
      λ k. ap (port_at start) (zero-add k) in
    inl (
      j,
      r ∙ ap some (same j),
      omega arith,
      omega arith,
      ap free (sym (same j)) ∙ f,
      λ k h. ap free (sym (same k)) ∙ before k h,
    )
port_of_turn free start result s (inr (r, none_free)) = inr (
  r,
  λ port lo hi.
      let (k, lt, e) = turn_of start port s lo hi in
      ap free (sym (ap (port_at start) (zero-add k) ∙ e)) ∙ none_free k lt,
)

-- The port that is found is free, in the dynamic range, and the first such one in an order that
-- depends on the peer and the service alone; none is found only when the whole range is taken.
pub listen_deterministic_lem :
    (fnv32a : Text → ℕ) (free : ℕ → Bool) (peer_id service_name : Text)
    → let start = fnv32a (peer_id ++ (codes "|" ++ service_name)) % range_size in
      let result = listen_deterministic fnv32a free peer_id service_name in
      ((j : ℕ) × (result ≡ some (port_at start j))
        × (49152 ≤ port_at start j)
        × (port_at start j ≤ 65535)
        × (free (port_at start j) ≡ true)
        × ((k : ℕ) → k < j → free (port_at start k) ≡ false))
      ⊎ ((result ≡ none) × ((port : ℕ) → 49152 ≤ port → port ≤ 65535 → free port ≡ false))
unfolding listen_deterministic
listen_deterministic_lem fnv32a free peer_id service_name =
    let start = fnv32a (peer_id ++ (codes "|" ++ service_name)) % range_size in
    port_of_turn free start (listen_from free start 0 range_size) (omega arith)
      (listen_from-Search free start 0 range_size)
