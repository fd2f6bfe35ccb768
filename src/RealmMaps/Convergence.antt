-- ===== src/RealmMaps/Convergence.antt =====
-- Peers that hear the same writes of one key through `ApplyEvent` of realm/features/maps/store.go end
-- with the same entry.
use foilen_box.Prelude.{◌≡◌, ◌↔◌, ◌≤◌, Option, none, some, List, [], ◌∷◌, Text, Listed}
use foilen_box.Model.Replica.{MapEntry}
use foilen_box.RealmMaps.{
  Store, Existing, Applied, apply_failed, ignored, applied, apply_event, map_id,
}
use foilen_box.RealmMaps.Database.{Datastore}
use foilen_box.RealmMaps.Newest.{newest}
use foilen_box.RealmMaps.Apply.{stored}

-- The register of one key under a list of writes.
newest_of : Option MapEntry → List MapEntry → Option MapEntry
newest_of old [] = old
newest_of old (e ∷ es) = newest_of (some (newest old e)) es

-- The entry is among the writes and no write is newer.
abbrev Last : MapEntry → List MapEntry → Type 0
Last m es = Listed m es × ((e : MapEntry) → Listed e es → e.updated_at ≤ m.updated_at)

-- The same writes, in whatever order and however often.
abbrev pub SameWrites : List MapEntry → List MapEntry → Type 0
SameWrites xs ys = (e : MapEntry) → Listed e xs ↔ Listed e ys

-- Writes at the same time are the same write.
abbrev pub Distinguished : List MapEntry → Type 0
Distinguished xs =
    (a b : MapEntry) → Listed a xs → Listed b xs → a.updated_at ≡ b.updated_at → a ≡ b

module _ (d : Datastore) (group_id store_name key : Text) where
  abbrev after_apply : Applied d → Option (Store d)
  after_apply (apply_failed t) = none
  after_apply (ignored t) = some t
  after_apply (applied t changed change) = some t

  -- A run of `ApplyEvent`; `none` where one fails.
  unfoldable pub deliver : List MapEntry → Store d → Option (Store d)
  deliver [] s = some s
  deliver (e ∷ es) s = elim (after_apply (apply_event d group_id store_name key e s)) [
    | none ↦ none
    | some t ↦ deliver es t
  ]

  abbrev pub stored_entry : Store d → Existing
  stored_entry s = stored d (map_id group_id store_name) key s.db
