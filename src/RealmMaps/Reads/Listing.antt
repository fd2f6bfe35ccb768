-- ===== src/RealmMaps/Reads/Listing.antt =====
-- What `GetMap` of realm/features/maps/store.go shows of the database.
use foilen_box.Prelude.{
  ◌≡◌, refl, sym, ◌∙◌, ap, inl, inr, Bool, true, false, Option, none, some, [], ◌∷◌, ◌++◌, arith,
  Text, codes, Map, lookup, lookup-insert, Unique, insert-Unique, Entries, text_eq, text_eq_iff,
  text_eq_refl, trim_prefix, has_prefix, append-trim_prefix, has_prefix-append, text_eq-append,
  if◌then◌else◌, Bool-cases,
}
use foilen_box.Model.Replica.{MapEntry}
use foilen_box.RealmMaps.{Store, map_id}
use foilen_box.RealmMaps.Database.{
  Datastore, Value, meta_value, index_value, state_value, event_value, cursor_value, Got, found,
  not_found, get_failed, below, got_in,
}
use foilen_box.RealmMaps.Reads.{collect_states, keep_live, state_entries, get_map}

-- The entry of a map in what the database holds at its key.
abbrev pub state_in : Got → Option MapEntry
state_in (found (state_value e)) = some e
state_in (found v) = none
state_in not_found = none
state_in get_failed = none

abbrev pub live_in : Option MapEntry → Option MapEntry
live_in none = none
live_in (some e) = if e.deleted then none else some e

Entries-of_lookup :
    (P : Text → Type 0) (m : Map Value)
    → Unique m
    → ((k : Text) (v : Value) → lookup k m ≡ some v → P k)
    → Entries (λ k v. P k) m
unfolding lookup
Entries-of_lookup P [] u h = tt
Entries-of_lookup P ((j, w) ∷ m) u h = (
  h j w (rw (text_eq_refl j)),
  Entries-of_lookup P m u.1 (λ k v e. h k v (elim (Bool-cases (text_eq j k)) [
    | inl q ↦
        let same : j ≡ k = (text_eq_iff j k).0 q in
        let gone : lookup k m ≡ none = ap (λ i. lookup i m) (sym same) ∙ u.0 in
        absurd (let f : none ≡ some v = sym gone ∙ e in cc)
    | inr q ↦ rw q e
  ])),
)

module _ (prefix key : Text) where
  abbrev pub at_key : Text
  at_key = (prefix ++ codes "/") ++ key

  skip_state :
      (j : Text) (v : Value) (entries : Map Value) (found_below : Option MapEntry)
      → lookup j entries ≡ none
      → state_in (found v) ≡ none
      → found_below ≡ state_in (got_in entries at_key)
      → found_below ≡ state_in (got_in ((j, v) ∷ entries) at_key)
  unfolding lookup
  skip_state j v entries o fresh other rest = elim (Bool-cases (text_eq j at_key)) [
    | inl e ↦
        let same : j ≡ at_key = (text_eq_iff j at_key).0 e in
        let gone : lookup at_key entries ≡ none = ap (λ i. lookup i entries) (sym same) ∙ fresh in
        rw (e, got_in) (rest ∙ (rw (gone, got_in) (sym other)))
    | inr e ↦ rw (e, got_in) rest
  ]

  lookup-collect_states :
      (entries : Map Value)
      → Unique entries
      → Entries (λ k v. has_prefix (prefix ++ codes "/") k ≡ true) entries
      → lookup key (collect_states prefix entries) ≡ state_in (got_in entries at_key)
  unfolding collect_states lookup
  lookup-collect_states [] u h = refl
  lookup-collect_states ((j, state_value e) ∷ entries) u h =
      let p = prefix ++ codes "/" in
      let same : text_eq (trim_prefix p j) key ≡ text_eq j at_key =
        sym (text_eq-append p (trim_prefix p j) key)
        ∙ ap (λ t. text_eq t at_key) (append-trim_prefix p j h.0) in
      lookup-insert (trim_prefix p j) key e (collect_states prefix entries)
      ∙ rw same (elim (Bool-cases (text_eq j at_key)) [
        | inl q ↦ rw (q, got_in) refl
        | inr q ↦ rw (q, got_in) (lookup-collect_states entries u.1 h.1)
      ])
  lookup-collect_states ((j, meta_value i) ∷ entries) u h =
      skip_state j (meta_value i) entries _ u.0 refl (lookup-collect_states entries u.1 h.1)
  lookup-collect_states ((j, index_value) ∷ entries) u h =
      skip_state j index_value entries _ u.0 refl (lookup-collect_states entries u.1 h.1)
  lookup-collect_states ((j, event_value i) ∷ entries) u h =
      skip_state j (event_value i) entries _ u.0 refl (lookup-collect_states entries u.1 h.1)
  lookup-collect_states ((j, cursor_value i) ∷ entries) u h =
      skip_state j (cursor_value i) entries _ u.0 refl (lookup-collect_states entries u.1 h.1)

collect_states-Unique :
    (prefix : Text) (entries : Map Value) → Unique (collect_states prefix entries)
unfolding collect_states
collect_states-Unique prefix [] = tt
collect_states-Unique prefix ((j, state_value e) ∷ entries) =
    insert-Unique _ e (collect_states prefix entries) (collect_states-Unique prefix entries)
collect_states-Unique prefix ((j, meta_value i) ∷ entries) = collect_states-Unique prefix entries
collect_states-Unique prefix ((j, index_value) ∷ entries) = collect_states-Unique prefix entries
collect_states-Unique prefix ((j, event_value i) ∷ entries) = collect_states-Unique prefix entries
collect_states-Unique prefix ((j, cursor_value i) ∷ entries) = collect_states-Unique prefix entries

lookup-keep_live :
    (k : Text) (m : Map MapEntry) → Unique m → lookup k (keep_live m) ≡ live_in (lookup k m)
unfolding keep_live lookup
lookup-keep_live k [] u = refl
lookup-keep_live k ((j, e) ∷ m) u = elim (Bool-cases (text_eq j k)) [
  | inl q ↦
      let same : j ≡ k = (text_eq_iff j k).0 q in
      let gone : lookup k m ≡ none = ap (λ i. lookup i m) (sym same) ∙ u.0 in
      ground (arith, q, gone, lookup-keep_live k m u.1)
  | inr q ↦ ground (arith, q, lookup-keep_live k m u.1)
]

module _ (d : Datastore) where
  open d use {Db, get, query, got_in-query, query-Unique}

  abbrev pub states_prefix : Text → Text → Text
  states_prefix group_id store_name = codes "/" ++ (map_id group_id store_name ++ codes "/state")

  all_below :
      (prefix : Text) (db : Db) (entries : Map Value)
      → query prefix db ≡ some entries
      → Entries (λ k v. has_prefix (prefix ++ codes "/") k ≡ true) entries
  all_below prefix db entries q =
      Entries-of_lookup (λ k. below prefix k ≡ true) entries (query-Unique prefix db entries q)
        (λ k v e.
          inside (below prefix k) (lookup k entries) v (get k db) e
            (got_in-query prefix k db entries q))
    where
      inside :
          (b : Bool) (o : Option Value) (v : Value) (g : Got)
          → o ≡ some v
          → elim o [ none ↦ not_found | some w ↦ found w ] ≡ (if b then g else not_found)
          → b ≡ true
      inside true o v g e h = refl
      inside false none v g e h = absurd (let f : none ≡ some v = e in cc)
      inside false (some w) v g e h = absurd (let f : found w ≡ not_found = h in cc)

  -- When the database answers the query, a key of the map that `GetMap` returns has the entry that
  -- the database holds at the key below the state prefix of the map, unless that one is deleted,
  -- and no other entry.
  pub get_map_lem :
      (group_id store_name key : Text) (s : Store d) (entries : Map Value)
      → query (states_prefix group_id store_name) s.db ≡ some entries
      → lookup key (get_map d group_id store_name s)
        ≡ live_in (state_in (get (at_key (states_prefix group_id store_name) key) s.db))
  unfolding get_map state_entries has_prefix
  get_map_lem group_id store_name key s entries q =
      let prefix = states_prefix group_id store_name in
      let is_below : below prefix (at_key prefix key) ≡ true =
        has_prefix-append (prefix ++ codes "/") key in
      let read : got_in entries (at_key prefix key) ≡ get (at_key prefix key) s.db =
        rw is_below at (got_in-query prefix (at_key prefix key) s.db entries q) in
      rw (q, get_map, state_entries)
        (lookup-keep_live key (collect_states prefix entries) (collect_states-Unique prefix entries)
          ∙ ap live_in (
              lookup-collect_states prefix key entries (query-Unique prefix s.db entries q)
                (all_below prefix s.db entries q)
              ∙ ap state_in read))
