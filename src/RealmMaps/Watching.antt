-- ===== src/RealmMaps/Watching.antt =====
-- What a listener of realm/features/maps/store.go knows of a key after a run of writes. The code calls
-- the listeners after it has released the lock, so concurrent writes may be heard out of order; the
-- run is one in which each change is heard before the next write.
use foilen_box.Prelude.{arith, ◌≡◌, refl, ◌∙◌, sym, ap, Option, none, some, List, [], ◌∷◌, Text}
use foilen_box.Model.Replica.{MapEntry, ChangeEvent}
use foilen_box.RealmMaps.{
  Store, Existing, had, new_entry, read_error, Applied, apply_failed, ignored, applied, apply_event,
  change_for, map_id,
}
use foilen_box.RealmMaps.Database.{Datastore}
use foilen_box.RealmMaps.Frame.{store_of}
use foilen_box.RealmMaps.Newest.{newest, live, replay, replay-change_for}
use foilen_box.RealmMaps.Apply.{Apart, Promise, as_existing, apply_event-Promise}
use foilen_box.RealmMaps.Convergence.{stored_entry}

-- The value that a reader sees of what is stored.
abbrev pub shown : Existing → Option Text
shown (had e) = live (some e)
shown new_entry = none
shown read_error = none

module _ (d : Datastore) (group_id store_name key : Text) where
  abbrev change_of : Applied d → Option ChangeEvent
  change_of (apply_failed t) = none
  change_of (ignored t) = none
  change_of (applied t changed change) = change

  -- The store and the copy of a listener after writes to the key, of which some may fail.
  unfoldable pub watch : List MapEntry → Store d → Option Text → Store d × Option Text
  watch [] s seen = (s, seen)
  watch (e ∷ es) s seen =
      let r = apply_event d group_id store_name key e s in
      watch es (store_of d r) (replay (change_of r) seen)

  module _ (apart : Apart d (map_id group_id store_name) key) where
    shown-as_existing : (old : Option MapEntry) → shown (as_existing old) ≡ live old
    shown-as_existing none = refl
    shown-as_existing (some e) = refl

    copy_after :
        (e : MapEntry) (was : Existing) (r : Applied d)
        → Promise d (map_id group_id store_name) key apart group_id store_name e was r
        → replay (change_of r) (shown was)
          ≡ shown (stored_entry d group_id store_name key (store_of d r))
    copy_after e was (apply_failed t) p = ap shown (sym p)
    copy_after e was (ignored t) (old, had_it, now, older) =
        let kept : newest (some old) e ≡ old = ground (arith, older) in
        sym (ap shown now ∙ (ap (λ m. live (some m)) kept ∙ sym (ap shown had_it)))
    copy_after e was (applied t changed change) (old, was_it, now, sent, flag, heard, wins) =
        ap (λ c. replay c (shown was)) heard
        ∙ (ap (replay (change_for group_id store_name key old e))
              (ap shown was_it ∙ shown-as_existing old)
            ∙ (replay-change_for group_id store_name key old e
                ∙ sym (ap shown now ∙ ap (λ m. live (some m)) wins)))

  -- A listener that starts with the value that the map shows for a key, and hears the change of
  -- each write to the key before the next write, has after any writes the value that the map then
  -- shows, whatever their times, also when the database fails some of them. This takes that the
  -- database tells the keys of the entry from each other and from those of its map.
  pub watch_lem :
      (apart : Apart d (map_id group_id store_name) key)
      → (es : List MapEntry) (s : Store d) (seen : Option Text)
      → seen ≡ shown (stored_entry d group_id store_name key s)
      → (watch es s seen).1 ≡ shown (stored_entry d group_id store_name key (watch es s seen).0)
  unfolding watch
  watch_lem apart [] s seen h = h
  watch_lem apart (e ∷ es) s seen h =
      let r = apply_event d group_id store_name key e s in
      watch_lem apart es (store_of d r) (replay (change_of r) seen) (
        ap (replay (change_of r)) h
        ∙ copy_after apart e (stored_entry d group_id store_name key s) r
            (apply_event-Promise d group_id store_name key e s apart))
