-- ===== src/Exchange/Responses/Members.antt =====
-- Who gets an answer of `handleSubscribeStream` in realm/features/maps/feature.go, and which events.
use foilen_box.Prelude.{
  ℕ, ◌<◌, ◌≡◌, refl, sym, ◌∙◌, ap, subst, inl, inr, Bool, true, false, none, some, List, [], ◌∷◌,
  Text, arith, ◌&&◌, ◌||◌, text_eq, Bool-cases, Option-cases, Listed, Listed-append,
}
use foilen_box.Model.{Group, find_group_by_id}
use foilen_box.Model.Replica.{MapEvent}
use foilen_box.Peers.{Peers}
use foilen_box.Peers
use foilen_box.Access.KeyPairs.{Crypto}
use foilen_box.RealmMaps.{Store}
use foilen_box.RealmMaps.Database.{Datastore, below, found, event_value}
use foilen_box.RealmMaps.Reads.{events_since}
use foilen_box.RealmMaps.Reads.Events.{event_prefix, events_since-held}
use foilen_box.Exchange.{Envelope, sign_event, verify_event}
use foilen_box.Exchange.Signatures.{sign_event-verify}
use foilen_box.Exchange.Subscriptions.{Subs, add_incoming_sub}
use foilen_box.Exchange.Subscriptions.Incoming.{is_subscriber, incoming_subscribers_lem}
use foilen_box.Exchange.Responses.{sign_all, serve_stores, member_of, handle_subscribe}

module _ (d : Datastore) (decimal : ℕ → Text) (crypto : Crypto) where
  open d use {get}

  -- An envelope that the holder of the group's key has made of an event on the list.
  abbrev Made : Group → Envelope → List MapEvent → Type 0
  Made group env evs = (verify_event decimal crypto group env ≡ true) × Listed env.event evs

  sign_all-Made :
      (group : Group) (env : Envelope) (evs : List MapEvent)
      → Listed env (sign_all d decimal crypto group evs)
      → Made group env evs
  unfolding sign_all
  sign_all-Made group env [] l = absurd l
  sign_all-Made group env (ev ∷ evs) l = elim (Option-cases (sign_event decimal crypto group ev)) [
    | inl e ↦
        let (ok, among) = sign_all-Made group env evs (rw (e, sign_all) at l) in (ok, inr among)
    | inr (made, e) ↦
        let l' : Listed env (made ∷ sign_all d decimal crypto group evs) = rw (e, sign_all) at l in
        elim l' [
          | inl q ↦
              let (whole, ok) = sign_event-verify decimal crypto group ev made e in
              (
                subst (λ m. verify_event decimal crypto group m ≡ true) q ok,
                inl (sym whole ∙ ap (λ m. m.event) q),
              )
          | inr r ↦ let (ok, among) = sign_all-Made group env evs r in (ok, inr among)
        ]
  ]

  -- An envelope of the response: it verifies with the key of the group, and for some store that was
  -- asked for, the database holds its event below the event prefix of that store, and the event is
  -- strictly newer than the time that came with the store.
  abbrev pub Served : Group → Text → List (Text × ℕ) → Store d → Envelope → Type 0
  Served group group_id cursors store env =
      (verify_event decimal crypto group env ≡ true)
      × ((cursor : Text × ℕ) × Listed cursor cursors
          × (cursor.1 < env.event.updated_at)
          × ((k : Text) × (below (event_prefix d group_id cursor.0) k ≡ true)
              × (get k store.db ≡ found (event_value env.event))))

  serve_stores-Served :
      (group : Group) (group_id peer_id : Text) (cursors : List (Text × ℕ)) (s : Subs)
      (store : Store d) (env : Envelope)
      → Listed env (serve_stores d decimal crypto group group_id cursors peer_id s store).1
      → Served group group_id cursors store env
  unfolding serve_stores
  serve_stores-Served group group_id peer_id [] s store env l = absurd l
  serve_stores-Served group group_id peer_id ((name, since) ∷ cursors) s store env l =
      let evs = events_since d group_id name since store in
      let t = add_incoming_sub group_id name peer_id s in
      elim (Listed-append env (sign_all d decimal crypto group evs)
        (serve_stores d decimal crypto group group_id cursors peer_id t store).1 l) [
          | inl first ↦
              let (ok, among) = sign_all-Made group env evs first in
              let (late, held) = events_since-held d group_id name since store env.event among in
              (ok, ((name, since), inl refl, late, held))
          | inr later ↦
              let (ok, (cursor, asked, late, held)) =
                serve_stores-Served group group_id peer_id cursors t store env later in
              (ok, (cursor, inr asked, late, held))
        ]

  handle_subscribe-Served :
      (groups : List Group) (peers : Peers) (remote group_id : Text) (cursors : List (Text × ℕ))
      (s : Subs) (store : Store d) (env : Envelope)
      → Listed env
          (handle_subscribe d decimal crypto groups peers remote group_id cursors s store).1
      → (group : Group) × (find_group_by_id groups group_id ≡ some group)
        × (member_of group (Peers.get remote peers) ≡ true)
        × Served group group_id cursors store env
  unfolding handle_subscribe
  handle_subscribe-Served groups peers remote group_id cursors s store env l =
      elim (Option-cases (find_group_by_id groups group_id)) [
        | inl e ↦ absurd (let l' : Listed env [] = rw (e, handle_subscribe) at l in l')
        | inr (group, e) ↦ elim (Bool-cases (member_of group (Peers.get remote peers))) [
          | inr m ↦ absurd (let l' : Listed env [] = rw (e, handle_subscribe, m) at l in l')
          | inl m ↦ (
            group,
            e,
            m,
            serve_stores-Served group group_id remote cursors s store env
                (rw (e, handle_subscribe, m) at l),
          )
        ]
      ]

  abbrev pub asks_for : List (Text × ℕ) → Text → Bool
  asks_for [] st = false
  asks_for ((name, since) ∷ cursors) st = text_eq name st || asks_for cursors st

  is_subscriber-serve_stores :
      (group : Group) (group_id remote : Text) (cursors : List (Text × ℕ)) (g st p : Text)
      (s : Subs) (store : Store d)
      → is_subscriber g st p (serve_stores d decimal crypto group group_id cursors remote s store).0
        ≡ (is_subscriber g st p s
            || (text_eq group_id g && asks_for cursors st && text_eq remote p))
  unfolding serve_stores
  is_subscriber-serve_stores group group_id remote [] g st p s store = ground arith
  is_subscriber-serve_stores group group_id remote ((name, since) ∷ cursors) g st p s store =
      let t = add_incoming_sub group_id name remote s in
      is_subscriber-serve_stores group group_id remote cursors g st p t store
      ∙ ground (arith, (incoming_subscribers_lem g st p s group_id name remote).0)

  -- Whether the request is granted.
  abbrev pub granted : List Group → Peers → Text → Text → Bool
  granted groups peers remote group_id = elim (find_group_by_id groups group_id) [
    | none ↦ false
    | some group ↦ member_of group (Peers.get remote peers)
  ]

  -- A peer becomes a subscriber of the stores that it asks for when the group is configured here and
  -- the peer is known here as a member of it; nobody else becomes one, and nobody stops to be one.
  pub is_subscriber-handle_subscribe :
      (groups : List Group) (peers : Peers) (remote group_id : Text) (cursors : List (Text × ℕ))
      (g st p : Text) (s : Subs) (store : Store d)
      → is_subscriber g st p
          (handle_subscribe d decimal crypto groups peers remote group_id cursors s store).0
        ≡ (is_subscriber g st p s
            || (granted groups peers remote group_id
                && text_eq group_id g
                && asks_for cursors st
                && text_eq remote p))
  unfolding handle_subscribe
  is_subscriber-handle_subscribe groups peers remote group_id cursors g st p s store =
      elim (Option-cases (find_group_by_id groups group_id)) [
        | inl e ↦ rw (e, handle_subscribe, granted) (ground arith)
        | inr (group, e) ↦ elim (Bool-cases (member_of group (Peers.get remote peers))) [
          | inl m ↦
              rw (e, handle_subscribe, granted, m)
                (is_subscriber-serve_stores group group_id remote cursors g st p s store)
          | inr m ↦ rw (e, handle_subscribe, granted, m) (ground arith)
        ]
      ]

  -- An event goes only to a peer that is known here as a member of a group that is configured here and
  -- that it asked for. The event is signed so that it verifies with the key of the group; for some
  -- store that the peer asked for, the database holds it below the event prefix of that store in that
  -- group, and it is strictly newer than the time that the peer gave for the store.
  pub handle_subscribe_lem :
      (groups : List Group) (peers : Peers) (remote group_id : Text) (cursors : List (Text × ℕ))
      (s : Subs) (store : Store d) (env : Envelope)
      → Listed env
          (handle_subscribe d decimal crypto groups peers remote group_id cursors s store).1
      → (granted groups peers remote group_id ≡ true)
        × ((group : Group) × (find_group_by_id groups group_id ≡ some group)
            × Served group group_id cursors store env)
  handle_subscribe_lem groups peers remote group_id cursors s store env l =
      let (group, e, m, served) =
        handle_subscribe-Served groups peers remote group_id cursors s store env l in
      (rw (e, granted) m, (group, e, served))
