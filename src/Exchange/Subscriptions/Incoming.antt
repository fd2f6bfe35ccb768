-- ===== src/Exchange/Subscriptions/Incoming.antt =====
-- The subscribers of realm/features/maps/feature.go, seen as a set of groups, stores and peers.
use foilen_box.Prelude.{
  ◌≡◌, refl, ◌∙◌, ap, inl, inr, Bool, false, not, ◌&&◌, ◌||◌, Option, none, some, List, [], arith,
  Text, text_eq, text_eq_iff, contains_text, Map, map_option, lookup, insert, lookup-insert,
  lookup-map_values, map_values, set_add, set_remove, contains_text-set_add,
  contains_text-set_remove, Option-cases, if◌then◌else◌,
}
use foilen_box.RealmMaps.{get_or}
use foilen_box.Exchange.Subscriptions.{
  Subs, add_incoming_sub, remove_incoming_sub, incoming_subscribers, on_peer_disconnected,
  forget_in_stores,
}

unfoldable pub is_subscriber : Text → Text → Text → Subs → Bool
is_subscriber group_id store_name peer_id s =
    contains_text (incoming_subscribers group_id store_name s) peer_id

contains-forget_in_stores :
    (gone store_name p : Text) (m : Map (List Text))
    → contains_text (get_or [] (lookup store_name (forget_in_stores gone m))) p
      ≡ (contains_text (get_or [] (lookup store_name m)) p && not (text_eq gone p))
unfolding contains_text
contains-forget_in_stores gone store_name p m = elim (Option-cases (lookup store_name m)) [
  | inl e ↦ rw (lookup-map_values (λ name peers. set_remove gone peers) store_name m, e) refl
  | inr (peers, e) ↦
      rw (lookup-map_values (λ name peers. set_remove gone peers) store_name m, e)
        (contains_text-set_remove gone p peers)
]

-- The subscribers of a store after one of its group's stores has new ones.
abbrev peers_at : Text → Text → Map (Map (List Text)) → List Text
peers_at g st m = get_or [] (lookup st (get_or [] (lookup g m)))

peers_at-insert :
    (g' st' g st : Text) (v : List Text) (m : Map (Map (List Text)))
    → peers_at g st (insert g' (insert st' v (get_or [] (lookup g' m))) m)
      ≡ (if text_eq g' g && text_eq st' st then v else peers_at g st m)
peers_at-insert g' st' g st v m = ground (
  arith,
  text_eq_iff g' g,
  lookup-insert g' g (insert st' v (get_or [] (lookup g' m))) m,
  lookup-insert st' st v (get_or [] (lookup g m)),
)

module _ (g st p : Text) (s : Subs) where
  is_subscriber-add :
      (g' st' p' : Text)
      → is_subscriber g st p (add_incoming_sub g' st' p' s)
        ≡ (is_subscriber g st p s || (text_eq g' g && text_eq st' st && text_eq p' p))
  unfolding is_subscriber add_incoming_sub incoming_subscribers
  is_subscriber-add g' st' p' =
      ap (λ ps. contains_text ps p)
        (peers_at-insert g' st' g st (set_add p' (peers_at g' st' s.incoming)) s.incoming)
      ∙ ground (
        arith,
        text_eq_iff g' g,
        text_eq_iff st' st,
        contains_text-set_add p' p (peers_at g' st' s.incoming),
      )

  -- A peer that is no subscriber is not missed.
  nothing_to_remove :
      (g' st' p' : Text)
      → is_subscriber g' st' p' s ≡ false
      → is_subscriber g st p s
        ≡ (is_subscriber g st p s && not (text_eq g' g && text_eq st' st && text_eq p' p))
  nothing_to_remove g' st' p' h =
      ground (arith, h, text_eq_iff g' g, text_eq_iff st' st, text_eq_iff p' p)

  is_subscriber-remove :
      (g' st' p' : Text)
      → is_subscriber g st p (remove_incoming_sub g' st' p' s)
        ≡ (is_subscriber g st p s && not (text_eq g' g && text_eq st' st && text_eq p' p))
  unfolding is_subscriber remove_incoming_sub incoming_subscribers contains_text lookup
  is_subscriber-remove g' st' p' = elim (Option-cases (lookup g' s.incoming)) [
    | inl e ↦
        rw (e, remove_incoming_sub)
          (nothing_to_remove g' st' p' (rw (e, is_subscriber, incoming_subscribers) refl))
    | inr (by_store, e) ↦ elim (Option-cases (lookup st' by_store)) [
      | inl f ↦
          rw (e, remove_incoming_sub, f)
            (nothing_to_remove g' st' p' (rw (e, is_subscriber, incoming_subscribers, f) refl))
      | inr (peers, f) ↦
          let same : insert st' (set_remove p' peers) by_store
              ≡ insert st' (set_remove p' peers) (get_or [] (lookup g' s.incoming)) =
            rw e refl in
          rw (e, remove_incoming_sub, f)
            (ap (λ m. contains_text (peers_at g st (insert g' m s.incoming)) p) same
              ∙ ap (λ ps. contains_text ps p)
                  (peers_at-insert g' st' g st (set_remove p' peers) s.incoming)
              ∙ ground (
                arith,
                e,
                f,
                text_eq_iff g' g,
                text_eq_iff st' st,
                contains_text-set_remove p' p peers,
              ))
    ]
  ]

  is_subscriber-disconnected :
      (gone : Text)
      → is_subscriber g st p (on_peer_disconnected gone s)
        ≡ (is_subscriber g st p s && not (text_eq gone p))
  unfolding is_subscriber on_peer_disconnected incoming_subscribers map_values
  is_subscriber-disconnected gone =
      ap (λ o. contains_text (get_or [] (lookup st (get_or [] o))) p)
        (lookup-map_values (λ id by_store. forget_in_stores gone by_store) g s.incoming)
      ∙ ends (lookup g s.incoming)
    where
      ends :
          (o : Option (Map (List Text)))
          → contains_text
              (get_or [] (lookup st (get_or [] (map_option (λ m. forget_in_stores gone m) o))))
              p
            ≡ (contains_text (get_or [] (lookup st (get_or [] o))) p && not (text_eq gone p))
      ends none = contains-forget_in_stores gone st p []
      ends (some m) = contains-forget_in_stores gone st p m

  -- The subscriptions are a set: a peer that subscribes to a store of a group is added to it and no
  -- other triple changes, one that unsubscribes is taken out and no other changes, and one that
  -- disconnects is taken out of every store of every group and no other peer is.
  pub incoming_subscribers_lem :
      (g' st' p' : Text)
      → (is_subscriber g st p (add_incoming_sub g' st' p' s)
          ≡ (is_subscriber g st p s || (text_eq g' g && text_eq st' st && text_eq p' p)))
        × (is_subscriber g st p (remove_incoming_sub g' st' p' s)
            ≡ (is_subscriber g st p s && not (text_eq g' g && text_eq st' st && text_eq p' p)))
        × (is_subscriber g st p (on_peer_disconnected p' s)
            ≡ (is_subscriber g st p s && not (text_eq p' p)))
  incoming_subscribers_lem g' st' p' =
      (is_subscriber-add g' st' p', is_subscriber-remove g' st' p', is_subscriber-disconnected p')
