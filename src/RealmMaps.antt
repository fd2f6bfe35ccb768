-- ===== src/RealmMaps.antt =====
-- realm/features/maps/store.go: the replicated maps of a peer, over the key-value database of
-- github.com/ipfs/go-datastore, which is a parameter. JSON encoding is taken to be faithful, so
-- the database holds values of one type. Each operation is one step, as its
-- lock makes it, but for the calls of the listeners, which `ApplyEvent` makes once the lock is
-- released; the change that they are called with is part of its result.
pub mod Database
pub mod Newest
pub mod Apply
pub mod Cursors
pub mod Listeners
pub mod Memory
pub mod Reads
pub mod Convergence
pub mod Watching
pub mod Frame
mod Examples
use foilen_box.Prelude.{
  ℕ, suc, Bool, true, false, not, ◌&&◌, ◌||◌, Option, none, some, List, [], ◌∷◌, ◌++◌, Text, codes,
  Map, lookup, insert, delete, map, text_eq, ltb, leb, ◌==◌, if◌then◌else◌,
}
use foilen_box.Model.Replica.{
  MapEntry, MapEvent, ChangeType, entry_added, entry_updated, entry_deleted, ChangeEvent,
}
use Database.{
  MapInfo, Value, meta_value, index_value, state_value, event_value, cursor_value, Got, found,
  not_found, get_failed, Datastore,
}

abbrev bool_ne : Bool → Bool → Bool
bool_ne true b = not b
bool_ne false b = b

is_safe_char : ℕ → Bool
is_safe_char c =
    (leb b'A' c && leb c b'Z')
    || (leb b'a' c && leb c b'z')
    || (leb b'0' c && leb c b'9')
    || text_eq (c ∷ []) (codes ".")
    || text_eq (c ∷ []) (codes "_")
    || text_eq (c ∷ []) (codes "-")

unfoldable pub map_id : Text → Text → Text
unfolding is_safe_char
map_id group_id store_name =
    group_id ++ (codes "__" ++ map (λ c. if is_safe_char c then c else b'_') store_name)

abbrev record_info : Text → Text → MapInfo
record_info group_id store_name = record { group_id = group_id; store_name = store_name }

-- The entry as the event that other peers are sent.
abbrev pub event_of : Text → Text → Text → MapEntry → MapEvent
event_of group_id store_name key e = record {
  group_id = group_id;
  store_name = store_name;
  key = key;
  value = e.value;
  deleted = e.deleted;
  updated_at = e.updated_at;
  origin_peer_id = e.origin_peer_id;
  nonce = e.nonce;
  identity_signature = e.identity_signature;
}

-- The `switch` that builds the change for the listeners, where `existing` is what the map had.
unfoldable pub content_changed : Option MapEntry → MapEntry → Bool
content_changed none entry = true
content_changed (some existing) entry =
    not (text_eq existing.value entry.value) || bool_ne existing.deleted entry.deleted

abbrev was_live : Option MapEntry → Bool
was_live none = false
was_live (some e) = not e.deleted

change_of_kind : Bool → Bool → Text → Text → Text → Option MapEntry → MapEntry → Option ChangeEvent
change_of_kind true false group_id store_name key existing entry = some (record {
  group_id = group_id;
  store_name = store_name;
  type = entry_deleted;
  key = key;
  old = existing;
  new = none;
})
change_of_kind false true group_id store_name key existing entry = some (record {
  group_id = group_id;
  store_name = store_name;
  type = entry_added;
  key = key;
  old = none;
  new = some entry;
})
change_of_kind true true group_id store_name key existing entry = some (record {
  group_id = group_id;
  store_name = store_name;
  type = entry_updated;
  key = key;
  old = existing;
  new = some entry;
})
change_of_kind false false group_id store_name key existing entry = none

unfoldable pub change_for : Text → Text → Text → Option MapEntry → MapEntry → Option ChangeEvent
unfolding change_of_kind content_changed
change_for group_id store_name key existing entry =
    if content_changed existing entry
    then change_of_kind (was_live existing) (not entry.deleted) group_id store_name key existing
        entry
    else none

-- What the read of the stored entry gives `ApplyEvent`: an entry, none, or an error.
pub data Existing : Type 0 where
  had : MapEntry → Existing
  new_entry read_error : Existing

pub read_existing : Got → Existing
read_existing (found (state_value e)) = had e
read_existing (found v) = read_error
read_existing not_found = new_entry
read_existing get_failed = read_error

-- A subscriber, by its id.
pub record Listener : Type 0 where
  pub id : ℕ

abbrev pub record_listener : ℕ → Listener
record_listener id = record { id = id }

remove_listener : ℕ → List Listener → List Listener
remove_listener id [] = []
remove_listener id (l ∷ ls) = if l.id == id then ls else l ∷ remove_listener id ls

abbrev pub get_or {ℓ} : {A : Type ℓ} → A → Option A → A
get_or d none = d
get_or d (some a) = a

abbrev pub cursor_of : Text → Text → Text → Map (Map (Map ℕ)) → ℕ
cursor_of group_id store_name peer_id cursors =
    get_or 0 (lookup peer_id (get_or [] (lookup store_name (get_or [] (lookup group_id cursors)))))

module _ (d : Datastore) where
  open d use {Db, get, put, commit, new_key}

  pub record Store : Type 0 where
    pub db : Db
    pub map_meta : Map MapInfo
    pub peer_cursors : Map (Map (Map ℕ))
    pub listeners : List Listener
    pub next_listener_id : ℕ

  unfoldable pub path : Text → Text → Text → Text
  path id kind key = new_key (codes "/" ++ (id ++ (kind ++ key)))

  abbrev pub state_key : Text → Text → Text
  state_key id key = path id (codes "/state/") key

  abbrev pub event_key : Text → Text → Text
  event_key id key = path id (codes "/event/") key

  -- The two writes of a new map; the index may fail to be written after the description.
  pub data Ensured : Type 0 where
    ensured : Store → Ensured
    ensure_failed : Store → Ensured

  write_index : Text → MapInfo → Store → Ensured
  write_index id info s = elim (put (new_key (codes "/mapindex/" ++ id)) index_value s.db) [
    | none ↦ ensure_failed s
    | some db ↦ ensured (record s { db = db; map_meta = insert id info s.map_meta })
  ]

  pub ensure_map_meta : Text → Text → Text → Store → Ensured
  unfolding write_index
  ensure_map_meta id group_id store_name s = elim (lookup id s.map_meta) [
    | some info ↦ ensured s
    | none ↦
        let info = record_info group_id store_name in
        elim (put (new_key (codes "/" ++ (id ++ codes "/mapmeta"))) (meta_value info) s.db) [
          | none ↦ ensure_failed s
          | some db ↦ write_index id info (record s { db = db })
        ]
  ]

  pub create_map : Text → Text → Store → Ensured
  unfolding ensure_map_meta
  create_map group_id store_name = ensure_map_meta (map_id group_id store_name) group_id store_name

  pub data Applied : Type 0 where
    apply_failed : Store → Applied
    ignored : Store → Applied
    applied : Store → Bool → Option ChangeEvent → Applied

  write_entry : Text → Text → Text → Text → Option MapEntry → MapEntry → Store → Applied
  write_entry id group_id store_name key existing entry s =
      elim (commit
        ((state_key id key, state_value entry)
          ∷ (event_key id key, event_value (event_of group_id store_name key entry))
          ∷ [])
        s.db) [
          | none ↦ apply_failed s
          | some db ↦
              applied (record s { db = db }) (content_changed existing entry)
                (change_for group_id store_name key existing entry)
        ]

  apply_to : Existing → Text → Text → Text → Text → MapEntry → Store → Applied
  unfolding write_entry
  apply_to read_error id group_id store_name key entry s = apply_failed s
  apply_to new_entry id group_id store_name key entry s =
      write_entry id group_id store_name key none entry s
  apply_to (had e) id group_id store_name key entry s =
      if ltb entry.updated_at e.updated_at
      then ignored s
      else write_entry id group_id store_name key (some e) entry s

  -- `ApplyEvent`: the change, if any, goes to every listener.
  unfoldable pub apply_event : Text → Text → Text → MapEntry → Store → Applied
  unfolding apply_to read_existing
  apply_event group_id store_name key entry s =
      let id = map_id group_id store_name in
      elim (ensure_map_meta id group_id store_name s) [
        | ensure_failed t ↦ apply_failed t
        | ensured t ↦
            apply_to (read_existing (get (state_key id key) t.db)) id group_id store_name key entry
              t
      ]

  pub subscribe : Store → Store × ℕ
  subscribe s =
      let id = s.next_listener_id in
      (
        record s { listeners = s.listeners ++ record_listener id ∷ []; next_listener_id = suc id },
        id,
      )

  pub unsubscribe : ℕ → Store → Store
  unfolding remove_listener
  unsubscribe id s = record s { listeners = remove_listener id s.listeners }

  pub last_from_peer : Text → Text → Text → Store → ℕ
  last_from_peer group_id store_name peer_id s =
      cursor_of group_id store_name peer_id s.peer_cursors

  -- The cursor moves in memory first; the result says whether it was written to the database too.
  save_cursors : Text → Map (Map ℕ) → Store → Store × Bool
  save_cursors group_id by_store s =
      elim (put (new_key (codes "/peercursor/" ++ group_id)) (cursor_value by_store) s.db) [
        | none ↦ (s, false)
        | some db ↦ (record s { db = db }, true)
      ]

  pub record_from_peer : Text → Text → Text → ℕ → Store → Store × Bool
  unfolding save_cursors
  record_from_peer group_id store_name peer_id ts s =
      let by_store = get_or [] (lookup group_id s.peer_cursors) in
      let cursors = get_or [] (lookup store_name by_store) in
      if leb ts (get_or 0 (lookup peer_id cursors))
      then (
        record s {
          peer_cursors = insert group_id (insert store_name cursors by_store) s.peer_cursors;
        },
        true,
      )
      else let by_store' = insert store_name (insert peer_id ts cursors) by_store in
        save_cursors group_id by_store'
          (record s { peer_cursors = insert group_id by_store' s.peer_cursors })
