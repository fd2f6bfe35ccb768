-- ===== src/RealmMaps/Examples.antt =====
-- A database in memory, and the replicated maps of realm/features/maps/store.go over it.
use foilen_box.Prelude.{
  ℕ, ◌≡◌, refl, List, lookup, false, none, some, [], ◌∷◌, Text, codes, text_eq,
}
use foilen_box.Model.Replica.{MapEntry}
use foilen_box.RealmMaps.{Store, path, get_or, map_id, change_for, read_existing}
use foilen_box.RealmMaps.Memory.{memory, empty_store}
use foilen_box.RealmMaps.Newest.{report, change_for-report}
use foilen_box.RealmMaps.Apply.{Apart, stored}
use foilen_box.RealmMaps.Watching.{shown, watch, watch_lem}
use foilen_box.RealmMaps.Convergence.{stored_entry, deliver}

abbrev entry_at : ℕ → Text → MapEntry
entry_at t value = record {
  value = value;
  deleted = false;
  updated_at = t;
  origin_peer_id = codes "anna";
  nonce = [];
  identity_signature = [];
}

change_for-report_example :
    change_for
      (codes "g")
      (codes "s")
      (codes "k")
      (some (entry_at 1 (codes "x")))
      (entry_at 2 (codes "y"))
    ≡ report
        (codes "g")
        (codes "s")
        (codes "k")
        (some (entry_at 1 (codes "x")))
        (entry_at 2 (codes "y"))
        (some (codes "x"))
        (some (codes "y"))
change_for-report_example =
    change_for-report (codes "g") (codes "s") (codes "k") (some (entry_at 1 (codes "x")))
      (entry_at 2 (codes "y"))

keys_apart : Apart memory (map_id (codes "g") (codes "s")) (codes "k")
unfolding map_id text_eq path
keys_apart = record {
  event_state = refl;
  state_event = refl;
  meta_state = refl;
  index_state = refl;
}

abbrev two_writes : List MapEntry
two_writes = entry_at 1 (codes "x") ∷ entry_at 2 (codes "y") ∷ []

-- The other order, and one of them twice.
abbrev three_writes : List MapEntry
three_writes = entry_at 2 (codes "y") ∷ entry_at 1 (codes "x") ∷ entry_at 2 (codes "y") ∷ []

abbrev after_writes : List MapEntry → Store memory
after_writes ws =
    get_or empty_store (deliver memory (codes "g") (codes "s") (codes "k") ws empty_store)

watch_example :
    (watch memory (codes "g") (codes "s") (codes "k") three_writes empty_store none).1
    ≡ shown (
        stored_entry memory
          (codes "g")
          (codes "s")
          (codes "k")
          (watch memory (codes "g") (codes "s") (codes "k") three_writes empty_store none).0)
unfolding stored read_existing lookup
watch_example =
    watch_lem memory (codes "g") (codes "s") (codes "k") keys_apart three_writes empty_store none
      refl
