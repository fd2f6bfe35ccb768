-- ===== src/RealmMaps/Newest.antt =====
-- What the replicated maps promise for one key: the newest write wins, and the changes that the
-- listeners hear keep a copy of the live values up to date.
use foilen_box.Prelude.{
  ◌≤◌, ◌≡◌, ◌≢◌, Option, none, some, arith, ltb, text_eq_iff, if◌then◌else◌, Text, text_eq, inl,
  inr, refl, Bool-cases,
}
use foilen_box.Model.Replica.{
  MapEntry, ChangeEvent, ChangeType, entry_added, entry_updated, entry_deleted,
}
use foilen_box.RealmMaps.{change_for, change_of_kind, content_changed}

-- The register of one key under a write.
abbrev pub newest : Option MapEntry → MapEntry → MapEntry
newest none new = new
newest (some old) new = if ltb new.updated_at old.updated_at then old else new

-- Two writes at different times give the same entry in either order.
pub newest_comm :
    (old : Option MapEntry) (a b : MapEntry)
    → a.updated_at ≢ b.updated_at
    → newest (some (newest old a)) b ≡ newest (some (newest old b)) a
newest_comm none a b h = ground arith
newest_comm (some e) a b h = ground arith

-- At the same time the later arrival wins, so two peers that hear the writes in different orders
-- keep different entries.
pub newest_tie :
    (old : Option MapEntry) (a b : MapEntry)
    → a.updated_at ≡ b.updated_at
    → ((e : MapEntry) → old ≡ some e → e.updated_at ≤ a.updated_at)
    → (newest (some (newest old a)) b ≡ b) × (newest (some (newest old b)) a ≡ a)
newest_tie none a b h o = (ground arith, ground arith)
newest_tie (some e) a b h o = (ground (arith, o e), ground (arith, o e))

-- The value that a reader of the map sees.
abbrev pub live : Option MapEntry → Option Text
live none = none
live (some e) = if e.deleted then none else some e.value

abbrev replay_to : ChangeType → Option MapEntry → Option Text
replay_to entry_deleted new = none
replay_to entry_added new = live new
replay_to entry_updated new = live new

-- A listener that keeps a copy of the values.
abbrev pub replay : Option ChangeEvent → Option Text → Option Text
replay none seen = seen
replay (some c) seen = replay_to c.type c.new

-- What a listener is to hear, from the values that a reader of the map sees before and after: nothing
-- where they are the same, the entry before unless one appears, the entry after unless one goes.
abbrev pub report :
    Text → Text → Text → Option MapEntry → MapEntry → Option Text → Option Text → Option ChangeEvent
report group_id store_name key existing entry none none = none
report group_id store_name key existing entry none (some v) = some (record {
  group_id = group_id;
  store_name = store_name;
  type = entry_added;
  key = key;
  old = none;
  new = some entry;
})
report group_id store_name key existing entry (some w) none = some (record {
  group_id = group_id;
  store_name = store_name;
  type = entry_deleted;
  key = key;
  old = existing;
  new = none;
})
report group_id store_name key existing entry (some w) (some v) =
    if text_eq w v
    then none
    else some (record {
      group_id = group_id;
      store_name = store_name;
      type = entry_updated;
      key = key;
      old = existing;
      new = some entry;
    })

-- The change for the listeners depends only on the values that a reader sees of the key before and
-- after: none when both are the same; an addition with no old entry when a value appears, also over
-- a deleted entry; an update with the old and the new entry when the value is another one; a
-- deletion with the old entry and no new one when it goes.
pub change_for-report :
    (group_id store_name key : Text) (existing : Option MapEntry) (entry : MapEntry)
    → change_for group_id store_name key existing entry
      ≡ report group_id store_name key existing entry (live existing) (live (some entry))
unfolding change_for content_changed change_of_kind
change_for-report group_id store_name key none entry = elim (Bool-cases entry.deleted) [
  | inl e ↦ rw e refl
  | inr e ↦ rw e refl
]
change_for-report group_id store_name key (some old) entry = elim (Bool-cases old.deleted) [
  | inl o ↦ elim (Bool-cases entry.deleted) [
    | inl e ↦ rw (o, e) (ground arith)
    | inr e ↦ rw (o, e) (ground arith)
  ]
  | inr o ↦ elim (Bool-cases entry.deleted) [
    | inl e ↦ rw (o, e) (ground arith)
    | inr e ↦ rw (o, e) (ground arith)
  ]
]

-- One change brings the copy from the value before to the value after.
pub replay-change_for :
    (group_id store_name key : Text) (existing : Option MapEntry) (entry : MapEntry)
    → replay (change_for group_id store_name key existing entry) (live existing) ≡ live (some entry)
unfolding change_for
replay-change_for group_id store_name key none entry = ground arith
replay-change_for group_id store_name key (some e) entry =
    ground (arith, text_eq_iff e.value entry.value)
