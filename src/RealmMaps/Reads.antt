-- ===== src/RealmMaps/Reads.antt =====
-- The operations of realm/features/maps/store.go that look at whole namespaces of the database.
pub mod Listing
pub mod Events
pub mod Removal
mod Examples
use foilen_box.Prelude.{
  ℕ, ◌+◌, Bool, true, false, not, ◌&&◌, ◌||◌, Option, none, some, List, [], ◌∷◌, ◌++◌, Text, codes,
  Map, lookup, insert, delete, text_eq, text_le, trim_prefix, sort_on, ltb, if◌then◌else◌,
}
use foilen_box.Model.{Group}
use foilen_box.Model.Replica.{MapEntry, MapEvent}
use foilen_box.RealmMaps.{Store, map_id, get_or}
use foilen_box.RealmMaps.Database.{
  Datastore, MapInfo, Value, meta_value, index_value, state_value, event_value, cursor_value, Got,
  found, not_found, get_failed,
}

-- `result[k] = v` for the entries that decode, with the prefix taken off their keys.
collect_states : Text → Map Value → Map MapEntry
collect_states prefix [] = []
collect_states prefix ((k, state_value e) ∷ entries) =
    insert (trim_prefix (prefix ++ codes "/") k) e (collect_states prefix entries)
collect_states prefix ((k, v) ∷ entries) = collect_states prefix entries

keep_live : Map MapEntry → Map MapEntry
keep_live [] = []
keep_live ((k, e) ∷ m) = let rest = keep_live m in if e.deleted then rest else (k, e) ∷ rest

pub keep_newer : ℕ → Map Value → List MapEvent
keep_newer since [] = []
keep_newer since ((k, event_value ev) ∷ entries) =
    let rest = keep_newer since entries in if ltb since ev.updated_at then ev ∷ rest else rest
keep_newer since ((k, v) ∷ entries) = keep_newer since entries

pub record Summary : Type 0 where
  pub group_id : Text
  pub group_name : Text
  pub store_name : Text
  pub entry_count : ℕ
  pub updated_at : ℕ

group_names : List Group → Map Text
group_names [] = []
group_names (g ∷ groups) = insert g.key_pair.id g.name (group_names groups)

-- The count of the entries that are not deleted, and the newest of their times.
tally : Map MapEntry → ℕ × ℕ
tally [] = (0, 0)
tally ((k, e) ∷ m) =
    let (count, newest) = tally m in
    if e.deleted
    then (count, newest)
    else (count + 1, if ltb newest e.updated_at then e.updated_at else newest)

summary_le : Summary → Summary → Bool
summary_le a b =
    if text_eq a.group_name b.group_name
    then text_le a.store_name b.store_name
    else text_le a.group_name b.group_name

insert_summary : Summary → List Summary → List Summary
unfolding summary_le
insert_summary x [] = x ∷ []
insert_summary x (y ∷ ys) =
    let rest = insert_summary x ys in if summary_le x y then x ∷ y ∷ ys else y ∷ rest

module _ (d : Datastore) where
  open d use {Db, get, remove, commit_removal, query, new_key}

  pub state_entries : Text → Store d → Map MapEntry
  unfolding collect_states
  state_entries id s =
      let prefix = codes "/" ++ (id ++ codes "/state") in
      elim (query prefix s.db) [ none ↦ [] | some entries ↦ collect_states prefix entries ]

  -- The entries of `GetMap`.
  unfoldable pub get_map : Text → Text → Store d → Map MapEntry
  unfolding state_entries keep_live
  get_map group_id store_name s = keep_live (state_entries (map_id group_id store_name) s)

  summary_of : Text → MapInfo → Text → Store d → Summary
  unfolding state_entries tally
  summary_of id info group_name s =
      let (count, newest) = tally (state_entries id s) in
      record {
        group_id = info.group_id;
        group_name = group_name;
        store_name = info.store_name;
        entry_count = count;
        updated_at = newest;
      }

  summaries_of : Map Text → Map MapInfo → Store d → List Summary
  unfolding summary_of insert_summary
  summaries_of names [] s = []
  summaries_of names ((id, info) ∷ meta) s =
      let rest = summaries_of names meta s in
      elim (lookup info.group_id names) [
        | none ↦ rest
        | some group_name ↦ insert_summary (summary_of id info group_name s) rest
      ]

  pub list_summaries : List Group → Store d → List Summary
  unfolding summaries_of group_names
  list_summaries groups s = summaries_of (group_names groups) s.map_meta s

  unfoldable pub events_since : Text → Text → ℕ → Store d → List MapEvent
  unfolding keep_newer
  events_since group_id store_name since s =
      elim (query (codes "/" ++ (map_id group_id store_name ++ codes "/event")) s.db) [
        | none ↦ []
        | some entries ↦ sort_on (λ e. e.updated_at) (keep_newer since entries)
      ]

  keys_of : Map Value → List Text
  keys_of [] = []
  keys_of ((k, v) ∷ entries) = new_key k ∷ keys_of entries

  remove_entries : Map Value → Store d → Store d × Bool
  unfolding keys_of
  remove_entries [] s = (s, true)
  remove_entries ((k, v) ∷ entries) s = elim (commit_removal (keys_of ((k, v) ∷ entries)) s.db) [
    | none ↦ (s, false)
    | some db ↦ (record s { db = db }, true)
  ]

  remove_namespace : Text → Store d → Store d × Bool
  unfolding remove_entries
  remove_namespace id s = elim (query (codes "/" ++ id) s.db) [
    | none ↦ (s, false)
    | some entries ↦ remove_entries entries s
  ]

  -- The result says whether it succeeded; the map is forgotten in memory either way.
  pub delete_map : Text → Text → Store d → Store d × Bool
  unfolding remove_namespace
  delete_map group_id store_name s =
      let id = map_id group_id store_name in
      let forgotten = record s { map_meta = delete id s.map_meta } in
      elim (remove (new_key (codes "/mapindex/" ++ id)) s.db) [
        | none ↦ (forgotten, false)
        | some db ↦ remove_namespace id (record forgotten { db = db })
      ]

  info_at : Text → Db → Option MapInfo
  info_at id db = elim (get (new_key (codes "/" ++ (id ++ codes "/mapmeta"))) db) [
    | found (meta_value info) ↦ some info
    | found v ↦ none
    | not_found ↦ none
    | get_failed ↦ none
  ]

  load_meta : Map Value → Db → Map MapInfo
  unfolding info_at
  load_meta [] db = []
  load_meta ((k, v) ∷ entries) db =
      let id = trim_prefix (codes "/mapindex/") k in
      let rest = load_meta entries db in
      elim (info_at id db) [ none ↦ rest | some info ↦ insert id info rest ]

  load_cursors : Map Value → Map (Map (Map ℕ))
  load_cursors [] = []
  load_cursors ((k, cursor_value cursors) ∷ entries) =
      insert (trim_prefix (codes "/peercursor/") k) cursors (load_cursors entries)
  load_cursors ((k, v) ∷ entries) = load_cursors entries

  -- `NewStore` once the database is open; `none` where it fails.
  pub new_store : Db → Option (Store d)
  unfolding load_meta load_cursors
  new_store db = elim (query (codes "/mapindex") db) [
    | none ↦ none
    | some index ↦ elim (query (codes "/peercursor") db) [
      | none ↦ none
      | some cursors ↦ some (record {
        db = db;
        map_meta = load_meta index db;
        peer_cursors = load_cursors cursors;
        listeners = [];
        next_listener_id = 0;
      })
    ]
  ]
