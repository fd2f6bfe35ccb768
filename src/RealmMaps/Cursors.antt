-- ===== src/RealmMaps/Cursors.antt =====
-- How far a peer's events have been taken in, in realm/features/maps/store.go.
use foilen_box.Prelude.{
  ℕ, ◌≡◌, inl, inr, ◌&&◌, [], arith, leb, text_eq, text_eq_iff, if◌then◌else◌, Text, Map, lookup,
  insert, lookup-insert, Bool-cases,
}
use foilen_box.RealmMaps.Database.{Datastore}
use foilen_box.RealmMaps.{Store, get_or, cursor_of, last_from_peer, record_from_peer, save_cursors}

-- A missing inner map reads as the empty one, so writing it back changes no cursor.
cursor_of-insert :
    (g st p g' st' : Text) (inner : Map ℕ) (cursors : Map (Map (Map ℕ)))
    → cursor_of g st p (insert g' (insert st' inner (get_or [] (lookup g' cursors))) cursors) ≡ (
        if text_eq g' g && text_eq st' st
        then get_or 0 (lookup p inner)
        else cursor_of g st p cursors)
cursor_of-insert g st p g' st' inner cursors = ground (
  arith,
  lookup-insert g' g (insert st' inner (get_or [] (lookup g' cursors))) cursors,
  lookup-insert st' st inner (get_or [] (lookup g' cursors)),
  text_eq_iff g' g,
  text_eq_iff st' st,
)

module _ (d : Datastore) where
  cursors-save :
      (g : Text) (by_store : Map (Map ℕ)) (s : Store d)
      → (save_cursors d g by_store s).0.peer_cursors ≡ s.peer_cursors
  unfolding save_cursors
  cursors-save g by_store s = ground arith

  -- A recorded timestamp moves the cursor of that peer, store and group up to it, never down, and
  -- moves no other cursor, whether or not the write to the database succeeds.
  pub last_from_peer-record :
      (g st p g' st' p' : Text) (ts : ℕ) (s : Store d)
      → last_from_peer d g st p (record_from_peer d g' st' p' ts s).0 ≡ (
          if text_eq g' g && text_eq st' st && text_eq p' p && leb (last_from_peer d g st p s) ts
          then ts
          else last_from_peer d g st p s)
  unfolding last_from_peer record_from_peer
  last_from_peer-record g st p g' st' p' ts s =
      elim (Bool-cases (leb ts (get_or 0 (lookup p' inner)))) [
        | inl e ↦
            rw (e, cursor_of-insert g st p g' st' inner s.peer_cursors)
              (ground (arith, text_eq_iff g' g, text_eq_iff st' st, text_eq_iff p' p))
        | inr e ↦
            rw
              (
                e,
                cursors-save g' (insert st' (insert p' ts inner) by_store) moved,
                cursor_of-insert g st p g' st' (insert p' ts inner) s.peer_cursors,
                lookup-insert p' p ts inner,
              )
              (ground (arith, text_eq_iff g' g, text_eq_iff st' st, text_eq_iff p' p))
      ]
    where
      by_store : Map (Map ℕ)
      by_store = get_or [] (lookup g' s.peer_cursors)

      inner : Map ℕ
      inner = get_or [] (lookup st' by_store)

      moved : Store d
      moved = record s {
        peer_cursors = insert g' (insert st' (insert p' ts inner) by_store) s.peer_cursors;
      }
