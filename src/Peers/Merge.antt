-- ===== src/Peers/Merge.antt =====
-- `mergeAddresses` of realm/peers/store.go: every address of every source, once.
use foilen_box.Prelude.{
  ◌≡◌, refl, sym, ap, subst, ◌∙◌, ◌↔◌, inl, inr, Bool, true, false, ◌||◌, List, [], ◌∷◌, ◌++◌,
  arith, Text, Map, lookup, text_eq, text_eq_iff, contains_text, contains_text-append,
  contains_text-sort, sort_texts, Bool-cases,
}
use foilen_box.Peers.{
  Merged, append_address, append_addresses, append_sources, other_sources, merge_addresses, get_or,
  address_source_priority,
}

-- The set and the list agree.
abbrev Tracks : Merged → Type 0
Tracks s = (a : Text) → contains_text s.seen a ≡ contains_text s.merged a

append_address-Tracks : (addr : Text) (s : Merged) → Tracks s → Tracks (append_address addr s)
unfolding append_address contains_text
append_address-Tracks addr s h a = ground (arith, h a, contains_text-append s.merged (addr ∷ []) a)

append_addresses-Tracks :
    (addrs : List Text) (s : Merged) → Tracks s → Tracks (append_addresses addrs s)
unfolding append_addresses
append_addresses-Tracks [] s h = h
append_addresses-Tracks (addr ∷ rest) s h =
    append_addresses-Tracks rest (append_address addr s) (append_address-Tracks addr s h)

append_address-contains :
    (addr : Text) (s : Merged) (a : Text)
    → Tracks s
    → contains_text (append_address addr s).merged a ≡ (contains_text s.merged a || text_eq addr a)
unfolding append_address contains_text
append_address-contains addr s a h =
    ground (arith, h addr, text_eq_iff addr a, contains_text-append s.merged (addr ∷ []) a)

append_addresses-contains :
    (addrs : List Text) (s : Merged) (a : Text)
    → Tracks s
    → contains_text (append_addresses addrs s).merged a
      ≡ (contains_text s.merged a || contains_text addrs a)
unfolding append_addresses contains_text
append_addresses-contains [] s a h = ground arith
append_addresses-contains (addr ∷ rest) s a h =
    let t = append_address addr s in
    ground (
      arith,
      append_addresses-contains rest t a (append_address-Tracks addr s h),
      append_address-contains addr s a h,
    )

-- Whether one of the named sources lists an address.
abbrev listed : Map (List Text) → Text → List Text → Bool
listed m a [] = false
listed m a (source ∷ rest) = contains_text (get_or [] (lookup source m)) a || listed m a rest

append_sources-Tracks :
    (sources : List Text) (m : Map (List Text)) (s : Merged)
    → Tracks s
    → Tracks (append_sources sources m s)
unfolding append_sources
append_sources-Tracks [] m s h = h
append_sources-Tracks (source ∷ rest) m s h =
    append_sources-Tracks rest m _ (append_addresses-Tracks (get_or [] (lookup source m)) s h)

append_sources-contains :
    (sources : List Text) (m : Map (List Text)) (s : Merged) (a : Text)
    → Tracks s
    → contains_text (append_sources sources m s).merged a
      ≡ (contains_text s.merged a || listed m a sources)
unfolding append_sources
append_sources-contains [] m s a h = ground arith
append_sources-contains (source ∷ rest) m s a h =
    let addrs = get_or [] (lookup source m) in
    let t = append_addresses addrs s in
    ground (
      arith,
      append_sources-contains rest m t a (append_addresses-Tracks addrs s h),
      append_addresses-contains addrs s a h,
    )

-- Every listed source is found again by its name.
listed_of_contains :
    (m : Map (List Text)) (a source : Text) (sources : List Text)
    → contains_text sources source ≡ true
    → contains_text (get_or [] (lookup source m)) a ≡ true
    → listed m a sources ≡ true
unfolding contains_text
listed_of_contains m a source [] h k = cc
listed_of_contains m a source (x ∷ xs) h k =
    ground (arith, text_eq_iff x source, listed_of_contains m a source xs)

listed_source :
    (m : Map (List Text)) (a : Text) (sources : List Text)
    → listed m a sources ≡ true
    → (source : Text) × (contains_text (get_or [] (lookup source m)) a ≡ true)
listed_source m a [] h = cc
listed_source m a (x ∷ xs) h = elim (Bool-cases (contains_text (get_or [] (lookup x m)) a)) [
  | inl e ↦ (x, e)
  | inr e ↦ listed_source m a xs (ground arith)
]

contains-nil : (s : Text) → contains_text [] s ≡ false
unfolding contains_text
contains-nil s = refl

contains-cons :
    (x : Text) (xs : List Text) (s : Text)
    → contains_text (x ∷ xs) s ≡ (text_eq x s || contains_text xs s)
unfolding contains_text
contains-cons x xs s = refl

-- A source of the map with addresses is one of the others, unless it is one of the first three.
other_sources_complete :
    (m : Map (List Text)) (source a : Text)
    → contains_text address_source_priority source ≡ false
    → contains_text (get_or [] (lookup source m)) a ≡ true
    → contains_text (other_sources m) source ≡ true
unfolding other_sources lookup
other_sources_complete [] source a first h = absurd (cc (contains-nil a))
other_sources_complete ((k, addrs) ∷ m) source a first h =
    elim (Bool-cases (contains_text address_source_priority k)) [
      | inl e ↦ elim (Bool-cases (text_eq k source)) [
        | inl q ↦ absurd (
            cc (
              subst (λ t. contains_text address_source_priority t ≡ true)
                ((text_eq_iff k source).0 q) e))
        | inr q ↦ rw e (other_sources_complete m source a first (rw q at h))
      ]
      | inr e ↦ elim (Bool-cases (text_eq k source)) [
        | inl q ↦ rw (e, contains-cons k (other_sources m) source, q)
        | inr q ↦
            rw (e, contains-cons k (other_sources m) source, q)
              (other_sources_complete m source a first (rw q at h))
      ]
    ]

merge_addresses-contains :
    (m : Map (List Text)) (a : Text)
    → contains_text (merge_addresses m) a
      ≡ (listed m a address_source_priority || listed m a (sort_texts (other_sources m)))
unfolding merge_addresses
merge_addresses-contains m a =
    append_sources-contains (sort_texts (other_sources m)) m first a
      (append_sources-Tracks address_source_priority m none_yet (λ b. refl))
    ∙ ap (λ b. b || listed m a (sort_texts (other_sources m)))
        (append_sources-contains address_source_priority m none_yet a (λ b. refl)
          ∙ ap (λ b. b || listed m a address_source_priority) (contains-nil a))
  where
    none_yet : Merged
    none_yet = record { seen = []; merged = [] }

    first : Merged
    first = append_sources address_source_priority m none_yet

-- The merged list of a peer has exactly the addresses that some source gave.
pub merge_addresses_iff :
    (m : Map (List Text)) (a : Text)
    → (contains_text (merge_addresses m) a ≡ true)
      ↔ ((source : Text) × (contains_text (get_or [] (lookup source m)) a ≡ true))
merge_addresses_iff m a = (found, collected)
  where
    others : List Text
    others = sort_texts (other_sources m)

    found :
        contains_text (merge_addresses m) a ≡ true
        → (source : Text) × (contains_text (get_or [] (lookup source m)) a ≡ true)
    found h = elim (Bool-cases (listed m a address_source_priority)) [
      | inl e ↦ listed_source m a address_source_priority e
      | inr e ↦ listed_source m a others (rw (merge_addresses-contains m a, e) at h)
    ]

    collected :
        ((source : Text) × (contains_text (get_or [] (lookup source m)) a ≡ true))
        → contains_text (merge_addresses m) a ≡ true
    collected (source, h) = elim (Bool-cases (contains_text address_source_priority source)) [
      | inl e ↦
          rw (
            merge_addresses-contains m a,
            listed_of_contains m a source address_source_priority e h,
          )
      | inr e ↦ ground (
        arith,
        merge_addresses-contains m a,
        listed_of_contains m a source others
            (contains_text-sort (other_sources m) source ∙ other_sources_complete m source a e h) h,
      )
    ]

-- No string stands twice.
abbrev pub Distinct : List Text → Type 0
Distinct [] = Unit {0}
Distinct (x ∷ xs) = (contains_text xs x ≡ false) × Distinct xs

pub Distinct-snoc :
    (xs : List Text) (a : Text) → Distinct xs → contains_text xs a ≡ false → Distinct (xs ++ a ∷ [])
unfolding contains_text
Distinct-snoc [] a d h = (refl, tt)
Distinct-snoc (x ∷ xs) a d h = (
  ground (arith, contains_text-append xs (a ∷ []) x, text_eq_iff x a, text_eq_iff a x),
  Distinct-snoc xs a d.1 (ground arith),
)

append_address-Distinct :
    (addr : Text) (s : Merged)
    → Tracks s
    → Distinct s.merged
    → Distinct (append_address addr s).merged
unfolding append_address
append_address-Distinct addr s h d = elim (Bool-cases (contains_text s.seen addr)) [
  | inl e ↦ rw e d
  | inr e ↦ rw e (Distinct-snoc s.merged addr d (sym (h addr) ∙ e))
]

append_addresses-Distinct :
    (addrs : List Text) (s : Merged)
    → Tracks s
    → Distinct s.merged
    → Distinct (append_addresses addrs s).merged
unfolding append_addresses
append_addresses-Distinct [] s h d = d
append_addresses-Distinct (addr ∷ rest) s h d =
    append_addresses-Distinct rest (append_address addr s) (append_address-Tracks addr s h)
      (append_address-Distinct addr s h d)

append_sources-Distinct :
    (sources : List Text) (m : Map (List Text)) (s : Merged)
    → Tracks s
    → Distinct s.merged
    → Distinct (append_sources sources m s).merged
unfolding append_sources
append_sources-Distinct [] m s h d = d
append_sources-Distinct (source ∷ rest) m s h d =
    let addrs = get_or [] (lookup source m) in
    append_sources-Distinct rest m _ (append_addresses-Tracks addrs s h)
      (append_addresses-Distinct addrs s h d)

-- The merged list of a peer names no address twice.
pub merge_addresses-Distinct : (m : Map (List Text)) → Distinct (merge_addresses m)
unfolding merge_addresses
merge_addresses-Distinct m =
    append_sources-Distinct (sort_texts (other_sources m)) m first
      (append_sources-Tracks address_source_priority m none_yet (λ b. refl))
      (append_sources-Distinct address_source_priority m none_yet (λ b. refl) tt)
  where
    none_yet : Merged
    none_yet = record { seen = []; merged = [] }

    first : Merged
    first = append_sources address_source_priority m none_yet
