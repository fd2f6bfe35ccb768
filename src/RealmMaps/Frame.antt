-- ===== src/RealmMaps/Frame.antt =====
-- What `ApplyEvent` of realm/features/maps/store.go leaves alone.
use foilen_box.Prelude.{
  ◌≡◌, refl, ◌∙◌, ap, inl, inr, false, Option, none, some, List, [], ◌∷◌, ◌++◌, ltb, text_eq,
  if◌then◌else◌, Text, codes, Bool-cases, Option-cases, lookup,
}
use foilen_box.Model.Replica.{MapEntry}
use foilen_box.RealmMaps.Database.{
  Datastore, Value, found, state_value, event_value, meta_value, index_value, MapInfo,
}
use foilen_box.RealmMaps.{
  Store, Existing, had, new_entry, read_error, read_existing, Ensured, ensured, ensure_failed,
  write_index, ensure_map_meta, record_info, Applied, apply_failed, ignored, applied, state_key,
  event_key, event_of, write_entry, apply_to, apply_event, map_id,
}

module _ (d : Datastore) where
  open d use {Db, get, put, commit, new_key, get-put, get-commit}

  -- A database key that is none of those of an entry and its map.
  pub record Elsewhere (x id key : Text) : Type 0 where
    pub no_state : text_eq (state_key d id key) x ≡ false
    pub no_event : text_eq (event_key d id key) x ≡ false
    pub no_meta : text_eq (new_key (codes "/" ++ (id ++ codes "/mapmeta"))) x ≡ false
    pub no_index : text_eq (new_key (codes "/mapindex/" ++ id)) x ≡ false

  abbrev pub store_of : Applied d → Store d
  store_of (apply_failed t) = t
  store_of (ignored t) = t
  store_of (applied t changed change) = t

  module _ (x id key : Text) (away : Elsewhere x id key) where
    abbrev Kept : Db → Store d → Type 0
    Kept db t = get x t.db ≡ get x db

    abbrev KeptBy : Db → Ensured d → Type 0
    KeptBy db (ensured t) = Kept db t
    KeptBy db (ensure_failed t) = Kept db t

    get-put_other :
        (k : Text) (v : Value) (db db' : Db)
        → text_eq k x ≡ false
        → put k v db ≡ some db'
        → get x db' ≡ get x db
    get-put_other k v db db' ne e =
        get-put k x v db db' e ∙ ap (λ b. if b then found v else get x db) ne

    write_index-Kept : (info : MapInfo) (s : Store d) → KeptBy s.db (write_index d id info s)
    unfolding write_index
    write_index-Kept info s =
        elim (Option-cases (put (new_key (codes "/mapindex/" ++ id)) index_value s.db)) [
          | inl e ↦ rw (e, write_index) refl
          | inr (db, e) ↦ rw (e, write_index) (get-put_other _ _ s.db db away.no_index e)
        ]

    KeptBy-trans : (db db' : Db) (r : Ensured d) → get x db' ≡ get x db → KeptBy db' r → KeptBy db r
    KeptBy-trans db db' (ensured t) e h = h ∙ e
    KeptBy-trans db db' (ensure_failed t) e h = h ∙ e

    ensure_map_meta-Kept : (g st : Text) (s : Store d) → KeptBy s.db (ensure_map_meta d id g st s)
    unfolding ensure_map_meta
    ensure_map_meta-Kept g st s = elim (Option-cases (lookup id s.map_meta)) [
      | inr (info, e) ↦ rw (e, ensure_map_meta) refl
      | inl e ↦
          elim (Option-cases (
            put (new_key (codes "/" ++ (id ++ codes "/mapmeta"))) (meta_value (record_info g st))
              s.db)) [
                | inl f ↦ rw (e, f, ensure_map_meta) refl
                | inr (db, f) ↦
                    rw (e, f, ensure_map_meta)
                      (KeptBy-trans s.db db _ (get-put_other _ _ s.db db away.no_meta f)
                        (write_index-Kept _ (record s { db = db })))
              ]
    ]

    module _ (g st : Text) (entry : MapEntry) where
      write_entry-Kept :
          (old : Option MapEntry) (s : Store d)
          → Kept s.db (store_of (write_entry d id g st key old entry s))
      unfolding write_entry
      write_entry-Kept old s = elim (Option-cases (commit writes s.db)) [
        | inl e ↦ rw (e, write_entry) refl
        | inr (db, e) ↦
            rw (e, write_entry)
              (get-commit writes x s.db db e ∙ rw (away.no_state, away.no_event) refl)
      ]
        where
          writes : List (Text × Value)
          writes =
              (state_key d id key, state_value entry)
              ∷ (event_key d id key, event_value (event_of g st key entry))
              ∷ []

      apply_to-Kept :
          (was : Existing) (s : Store d) → Kept s.db (store_of (apply_to d was id g st key entry s))
      unfolding apply_to
      apply_to-Kept read_error s = refl
      apply_to-Kept new_entry s = write_entry-Kept none s
      apply_to-Kept (had old) s = elim (Bool-cases (ltb entry.updated_at old.updated_at)) [
        | inl older ↦ rw older refl
        | inr newer ↦ rw newer (write_entry-Kept (some old) s)
      ]

      after_ensure_Kept :
          (db : Db) (r : Ensured d)
          → KeptBy db r
          → Kept db (
              store_of (elim r [
                | ensure_failed t ↦ apply_failed t
                | ensured t ↦
                    apply_to d (read_existing (get (state_key d id key) t.db)) id g st key entry t
              ]))
      after_ensure_Kept db (ensure_failed t) h = h
      after_ensure_Kept db (ensured t) h =
          apply_to-Kept (read_existing (get (state_key d id key) t.db)) t ∙ h

  -- A database key that is neither one of the entry nor one of its map keeps what it holds.
  pub get-apply_event :
      (g st key x : Text) (entry : MapEntry) (s : Store d)
      → Elsewhere x (map_id g st) key
      → get x (store_of (apply_event d g st key entry s)).db ≡ get x s.db
  unfolding apply_event
  get-apply_event g st key x entry s away =
      let id = map_id g st in
      after_ensure_Kept x id key away g st entry s.db (ensure_map_meta d id g st s)
        (ensure_map_meta-Kept x id key away g st s)
