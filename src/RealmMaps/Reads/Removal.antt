-- ===== src/RealmMaps/Reads/Removal.antt =====
-- What `DeleteMap` of realm/features/maps/store.go leaves in the database.
use foilen_box.Prelude.{
  ◌≡◌, refl, sym, ◌∙◌, ap, inl, inr, Bool, true, false, Option, none, some, [], ◌∷◌, ◌++◌, arith,
  Text, codes, Map, lookup, delete, lookup-delete, Entries, text_eq, text_eq_refl, contains_text,
  if◌then◌else◌, Option-cases,
}
use foilen_box.RealmMaps.{Store, map_id}
use foilen_box.RealmMaps.Database.{Datastore, Value, Got, found, not_found, below}
use foilen_box.RealmMaps.Reads.{keys_of, remove_entries, remove_namespace, delete_map}

abbrev has : Option Value → Bool
has none = false
has (some v) = true

module _ (d : Datastore) where
  open d use {
    Db, get, remove, commit_removal, query, new_key, get-remove, get-commit_removal, got_in-query,
    new_key_of_query,
  }

  abbrev index_key : Text → Text
  index_key id = new_key (codes "/mapindex/" ++ id)

  contains_text-keys_of :
      (k : Text) (entries : Map Value)
      → Entries (λ j v. new_key j ≡ j) entries
      → contains_text (keys_of d entries) k ≡ has (lookup k entries)
  unfolding keys_of contains_text lookup
  contains_text-keys_of k [] h = refl
  contains_text-keys_of k ((j, v) ∷ entries) h =
      rw h.0 (ground (arith, contains_text-keys_of k entries h.1))

  -- The namespace of a map is empty and the rest is as it was.
  abbrev Emptied : Text → Db → Db → Type 0
  Emptied id before after =
      (k : Text) → get k after ≡ (if below (codes "/" ++ id) k then not_found else get k before)

  abbrev Cleared : Text → Store d → Store d × Bool → Type 0
  Cleared id s (t, true) = (t.map_meta ≡ s.map_meta) × Emptied id s.db t.db
  Cleared id s (t, false) = t ≡ s

  emptied_at :
      (inside : Bool) (o : Option Value) (was now : Got)
      → elim o [ none ↦ not_found | some v ↦ found v ] ≡ (if inside then was else not_found)
      → now ≡ (if has o then not_found else was)
      → now ≡ (if inside then not_found else was)
  emptied_at true none was now p q = q ∙ sym p
  emptied_at true (some v) was now p q = q
  emptied_at false none was now p q = q
  emptied_at false (some v) was now p q = absurd (let f : found v ≡ not_found = p in cc)

  remove_entries-Cleared :
      (id : Text) (entries : Map Value) (s : Store d)
      → query (codes "/" ++ id) s.db ≡ some entries
      → Cleared id s (remove_entries d entries s)
  unfolding remove_entries lookup
  remove_entries-Cleared id [] s q = (
    refl,
    λ k.
        emptied_at (below (codes "/" ++ id) k) none _ _ (got_in-query (codes "/" ++ id) k s.db [] q)
          refl,
  )
  remove_entries-Cleared id ((j, v) ∷ rest) s q =
      let entries : Map Value = (j, v) ∷ rest in
      elim (Option-cases (commit_removal (keys_of d entries) s.db)) [
        | inl e ↦ rw (e, remove_entries) refl
        | inr (db, e) ↦
            rw (e, remove_entries)
              (
                refl,
                λ k.
                    emptied_at (below (codes "/" ++ id) k) (lookup k entries) _ _
                      (got_in-query (codes "/" ++ id) k s.db entries q)
                      (get-commit_removal (keys_of d entries) k s.db db e
                        ∙ ap (λ b. if b then not_found else get k s.db)
                            (contains_text-keys_of k entries
                              (new_key_of_query (codes "/" ++ id) s.db entries q))),
              )
      ]

  remove_namespace-Cleared : (id : Text) (s : Store d) → Cleared id s (remove_namespace d id s)
  unfolding remove_namespace
  remove_namespace-Cleared id s = elim (Option-cases (query (codes "/" ++ id) s.db)) [
    | inl e ↦ rw (e, remove_namespace) refl
    | inr (entries, e) ↦ rw (e, remove_namespace) (remove_entries-Cleared id entries s e)
  ]

  -- What the removal of a map leaves, whether it succeeded or not.
  abbrev pub Deleted : Text → Store d → Store d × Bool → Type 0
  Deleted id s (t, true) =
      (t.map_meta ≡ delete id s.map_meta)
      × (lookup id t.map_meta ≡ none)
      × ((k : Text)
          → get k t.db ≡ (
              if below (codes "/" ++ id) k
              then not_found
              else if text_eq (index_key id) k
              then not_found
              else get k s.db))
  Deleted id s (t, false) =
      (t.map_meta ≡ delete id s.map_meta)
      × (lookup id t.map_meta ≡ none)
      × ((k : Text) → text_eq (index_key id) k ≡ false → get k t.db ≡ get k s.db)

  after_removal :
      (id : Text) (s : Store d) (db : Db) (r : Store d × Bool)
      → remove (index_key id) s.db ≡ some db
      → Cleared id (record s { map_meta = delete id s.map_meta; db = db }) r
      → Deleted id s r
  after_removal id s db (t, true) e h = (
    h.0,
    rw h.0 (rw (text_eq_refl id) at (lookup-delete id id s.map_meta)),
    λ k.
        h.1 k
        ∙ ap (λ g. if below (codes "/" ++ id) k then not_found else g)
            (get-remove (index_key id) k s.db db e),
  )
  after_removal id s db (t, false) e h = (
    ap (λ u. u.map_meta) h,
    rw h (rw (text_eq_refl id) at (lookup-delete id id s.map_meta)),
    λ k ne.
        ap (λ u. get k u.db) h
        ∙ (get-remove (index_key id) k s.db db e
            ∙ ap (λ b. if b then not_found else get k s.db) ne),
  )

  -- A removal that succeeds forgets the map, empties its namespace of the database, takes its entry
  -- out of the index and leaves every other key as it was. One that fails has forgotten the map in
  -- memory and has changed no key of the database but the one of the index.
  pub delete_map_lem :
      (group_id store_name : Text) (s : Store d)
      → Deleted (map_id group_id store_name) s (delete_map d group_id store_name s)
  unfolding delete_map
  delete_map_lem group_id store_name s =
      let id = map_id group_id store_name in
      elim (Option-cases (remove (index_key id) s.db)) [
        | inl e ↦
            rw (e, delete_map)
              (refl, rw (text_eq_refl id) at (lookup-delete id id s.map_meta), λ k ne. refl)
        | inr (db, e) ↦
            rw (e, delete_map)
              (after_removal id s db _ e (
                remove_namespace-Cleared id
                  (record s { map_meta = delete id s.map_meta; db = db })))
      ]
