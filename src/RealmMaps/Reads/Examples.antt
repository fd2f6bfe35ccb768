-- ===== src/RealmMaps/Reads/Examples.antt =====
-- A database with a few maps, for the reads and the removal of realm/features/maps/store.go.
use foilen_box.Prelude.{
  ℕ, ◌≡◌, ◌↔◌, ◌<◌, refl, true, false, Text, codes, lookup, [], ◌∷◌, Rising, Listed,
}
use foilen_box.Model.Replica.{MapEntry, MapEvent}
use foilen_box.RealmMaps.{Store, map_id, event_of}
use foilen_box.RealmMaps.Database.{
  below, found, got_in, index_value, meta_value, state_value, event_value, MapInfo,
}
use foilen_box.RealmMaps.Memory.{memory, entries_below}
use foilen_box.RealmMaps.Reads.{get_map, events_since, delete_map}
use foilen_box.RealmMaps.Reads.Removal.{Deleted, delete_map_lem}
use foilen_box.RealmMaps.Reads.Events.{event_prefix, events_since_lem}
use foilen_box.RealmMaps.Reads.Listing.{states_prefix, at_key, state_in, live_in, get_map_lem}

abbrev entry_at : ℕ → Text → MapEntry
entry_at t value = record {
  value = value;
  deleted = false;
  updated_at = t;
  origin_peer_id = codes "anna";
  nonce = [];
  identity_signature = [];
}

abbrev event_at : ℕ → Text → MapEvent
event_at t key = event_of (codes "h") (codes "notes") key (entry_at t (codes "v"))

abbrev notes : MapInfo
notes = record { group_id = codes "h"; store_name = codes "notes" }

abbrev filled : Store memory
filled = record {
  db =
      (codes "/h__notes/mapmeta", meta_value notes)
      ∷ (codes "/mapindex/h__notes", index_value)
      ∷ (codes "/h__notes/state/k", state_value (entry_at 3 (codes "v")))
      ∷ (codes "/h__notes/event/k", event_value (event_at 3 (codes "k")))
      ∷ (codes "/h__notes/event/a", event_value (event_at 2 (codes "a")))
      ∷ (codes "/h__other/state/k", state_value (entry_at 3 (codes "w")))
      ∷ [];
  map_meta = (codes "h__notes", notes) ∷ [];
  peer_cursors = [];
  listeners = [];
  next_listener_id = 0;
}

delete_map_example :
    Deleted memory
      (map_id (codes "h") (codes "notes"))
      filled
      (delete_map memory (codes "h") (codes "notes") filled)
delete_map_example = delete_map_lem memory (codes "h") (codes "notes") filled

events_since_example :
    (Listed (event_at 3 (codes "k")) (events_since memory (codes "h") (codes "notes") 2 filled) ↔ (
      (2 < 3)
      × ((k : Text) × (below (event_prefix memory (codes "h") (codes "notes")) k ≡ true)
          × (got_in filled.db k ≡ found (event_value (event_at 3 (codes "k")))))))
    × Rising (λ e. e.updated_at) (events_since memory (codes "h") (codes "notes") 2 filled)
events_since_example =
    events_since_lem memory (codes "h") (codes "notes") 2 filled
      (entries_below (below (event_prefix memory (codes "h") (codes "notes"))) filled.db)
      (event_at 3 (codes "k")) refl

get_map_example :
    lookup (codes "k") (get_map memory (codes "h") (codes "notes") filled)
    ≡ live_in (
        state_in (
          got_in filled.db (at_key (states_prefix memory (codes "h") (codes "notes")) (codes "k"))))
get_map_example =
    get_map_lem memory (codes "h") (codes "notes") (codes "k") filled
      (entries_below (below (states_prefix memory (codes "h") (codes "notes"))) filled.db) refl
