-- ===== src/RealmMaps/Apply.antt =====
-- `ApplyEvent` of realm/features/maps/store.go writes the newest entry, or nothing.
use foilen_box.Prelude.{
  ◌≡◌, ◌<◌, refl, sym, ◌∙◌, ap, subst, inl, inr, false, Option, none, some, List, [], ◌∷◌, ◌++◌,
  arith, ltb, text_eq, text_eq_refl, if◌then◌else◌, Text, codes, Bool-cases, Option-cases, lookup,
}
use foilen_box.Model.Replica.{MapEntry, MapEvent}
use foilen_box.RealmMaps.Database.{
  Datastore, after_batch, Value, found, state_value, event_value, meta_value, index_value, MapInfo,
}
use foilen_box.RealmMaps.{
  Store, Existing, had, new_entry, read_error, read_existing, Ensured, ensured, ensure_failed,
  write_index, ensure_map_meta, record_info, Applied, apply_failed, ignored, applied, state_key,
  event_key, event_of, write_entry, apply_to, apply_event, map_id, content_changed, change_for,
}
use foilen_box.RealmMaps.Newest.{newest}

abbrev pub as_existing : Option MapEntry → Existing
as_existing none = new_entry
as_existing (some e) = had e

module _ (d : Datastore) where
  open d use {Db, get, put, commit, new_key, get-put, get-commit}

  -- The entry of a key, as `ApplyEvent` reads it.
  unfoldable pub stored : Text → Text → Db → Existing
  stored id key db = read_existing (get (state_key d id key) db)

  -- The database tells the keys of an entry from each other and from those of its map.
  pub record Apart (id key : Text) : Type 0 where
    pub event_state : text_eq (event_key d id key) (state_key d id key) ≡ false
    pub state_event : text_eq (state_key d id key) (event_key d id key) ≡ false
    pub meta_state :
        text_eq (new_key (codes "/" ++ (id ++ codes "/mapmeta"))) (state_key d id key) ≡ false
    pub index_state : text_eq (new_key (codes "/mapindex/" ++ id)) (state_key d id key) ≡ false

  module _ (id key : Text) (apart : Apart id key) where
    stored-put :
        (k : Text) (v : Value) (db db' : Db)
        → text_eq k (state_key d id key) ≡ false
        → put k v db ≡ some db'
        → stored id key db' ≡ stored id key db
    unfolding stored
    stored-put k v db db' ne e = ap read_existing (
        get-put k (state_key d id key) v db db' e
        ∙ ap (λ b. if b then found v else get (state_key d id key) db) ne)

    -- What creating the map leaves alone.
    abbrev Same : Db → Ensured d → Type 0
    Same db (ensured t) = stored id key t.db ≡ stored id key db
    Same db (ensure_failed t) = stored id key t.db ≡ stored id key db

    Same-trans :
        (db db' : Db) (r : Ensured d)
        → stored id key db' ≡ stored id key db
        → Same db' r
        → Same db r
    Same-trans db db' (ensured t) e h = h ∙ e
    Same-trans db db' (ensure_failed t) e h = h ∙ e

    write_index-Same : (info : MapInfo) (s : Store d) → Same s.db (write_index d id info s)
    unfolding write_index
    write_index-Same info s =
        elim (Option-cases (put (new_key (codes "/mapindex/" ++ id)) index_value s.db)) [
          | inl e ↦ rw (e, write_index) refl
          | inr (db, e) ↦ rw (e, write_index) (stored-put _ _ s.db db apart.index_state e)
        ]

    ensure_map_meta-Same :
        (group_id store_name : Text) (s : Store d)
        → Same s.db (ensure_map_meta d id group_id store_name s)
    unfolding ensure_map_meta
    ensure_map_meta-Same group_id store_name s = elim (Option-cases (lookup id s.map_meta)) [
      | inr (info, e) ↦ rw (e, ensure_map_meta) refl
      | inl e ↦
          elim (Option-cases (
            put (new_key (codes "/" ++ (id ++ codes "/mapmeta")))
              (meta_value (record_info group_id store_name)) s.db)) [
                | inl f ↦ rw (e, f, ensure_map_meta) refl
                | inr (db, f) ↦
                    rw (e, f, ensure_map_meta)
                      (Same-trans s.db db _ (stored-put _ _ s.db db apart.meta_state f)
                        (write_index-Same _ (record s { db = db })))
              ]
    ]

    module _ (group_id store_name : Text) (entry : MapEntry) where
      -- What a call promises, given the entry that it found.
      abbrev pub Promise : Existing → Applied d → Type 0
      Promise was (apply_failed t) = stored id key t.db ≡ was
      Promise was (ignored t) =
          (old : MapEntry) × (was ≡ had old)
          × (stored id key t.db ≡ had (newest (some old) entry))
          × (entry.updated_at < old.updated_at)
      Promise was (applied t changed change) =
          (old : Option MapEntry) × (was ≡ as_existing old)
          × (stored id key t.db ≡ had (newest old entry))
          × (get (event_key d id key) t.db
              ≡ found (event_value (event_of group_id store_name key entry)))
          × (changed ≡ content_changed old entry)
          × (change ≡ change_for group_id store_name key old entry)
          × (newest old entry ≡ entry)

      write_entry-Promise :
          (old : Option MapEntry) (s : Store d)
          → newest old entry ≡ entry
          → stored id key s.db ≡ as_existing old
          → Promise (as_existing old) (write_entry d id group_id store_name key old entry s)
      unfolding write_entry read_existing stored
      write_entry-Promise old s wins was = elim (Option-cases (commit writes s.db)) [
        | inl e ↦ rw (e, write_entry) was
        | inr (db, e) ↦
            rw (e, write_entry)
              (
                old,
                refl,
                ap read_existing (get-commit writes (state_key d id key) s.db db e ∙ at_state)
                    ∙ ap had (sym wins),
                get-commit writes (event_key d id key) s.db db e ∙ at_event,
                refl,
                refl,
                wins,
              )
      ]
        where
          event : MapEvent
          event = event_of group_id store_name key entry

          writes : List (Text × Value)
          writes =
              (state_key d id key, state_value entry) ∷ (event_key d id key, event_value event) ∷ []

          at_state :
              after_batch writes (state_key d id key) (get (state_key d id key) s.db)
              ≡ found (state_value entry)
          at_state = rw (apart.event_state, text_eq_refl (state_key d id key))

          at_event :
              after_batch writes (event_key d id key) (get (event_key d id key) s.db)
              ≡ found (event_value event)
          at_event = rw (text_eq_refl (event_key d id key))

      apply_to-Promise :
          (was : Existing) (s : Store d)
          → stored id key s.db ≡ was
          → Promise was (apply_to d was id group_id store_name key entry s)
      unfolding apply_to
      apply_to-Promise read_error s e = e
      apply_to-Promise new_entry s e = write_entry-Promise none s refl e
      apply_to-Promise (had old) s e = elim (Bool-cases (ltb entry.updated_at old.updated_at)) [
        | inl older ↦ rw older (old, refl, rw older e, ground (arith, older))
        | inr newer ↦ rw newer (write_entry-Promise (some old) s (ground arith) e)
      ]

      after_ensure :
          (db : Db) (r : Ensured d)
          → Same db r
          → Promise (stored id key db) (elim r [
            | ensure_failed t ↦ apply_failed t
            | ensured t ↦ apply_to d (stored id key t.db) id group_id store_name key entry t
          ])
      after_ensure db (ensure_failed t) h = h
      after_ensure db (ensured t) h =
          subst
            (λ was.
              Promise was (apply_to d (stored id key t.db) id group_id store_name key entry t))
            h (apply_to-Promise (stored id key t.db) t refl)

  pub apply_event-Promise :
      (group_id store_name key : Text) (entry : MapEntry) (s : Store d)
      → (apart : Apart (map_id group_id store_name) key)
      → Promise
          (map_id group_id store_name)
          key
          apart
          group_id
          store_name
          entry
          (stored (map_id group_id store_name) key s.db)
          (apply_event d group_id store_name key entry s)
  unfolding apply_event stored
  apply_event-Promise group_id store_name key entry s apart =
      let id = map_id group_id store_name in
      after_ensure id key apart group_id store_name entry s.db
        (ensure_map_meta d id group_id store_name s)
        (ensure_map_meta-Same id key apart group_id store_name s)
