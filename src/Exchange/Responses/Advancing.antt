-- ===== src/Exchange/Responses/Advancing.antt =====
-- What `subscribeToPeer` of realm/features/maps/feature.go does with the events that a peer answers.
use foilen_box.Prelude.{
  ℕ, ◌≡◌, sym, ◌∙◌, ap, subst, inl, inr, ◌≤◌, false, some, List, [], ◌∷◌, Text, arith, ltb, text_eq,
  text_eq_iff, text_eq_refl, Map, lookup, insert, lookup-insert, Bool-cases, Listed, if◌then◌else◌,
}
use foilen_box.Model.{Group, find_group_by_id}
use foilen_box.Model.Replica.{MapEvent}
use foilen_box.Access.KeyPairs.{Crypto}
use foilen_box.RealmMaps.{Store, get_or, last_from_peer, record_from_peer}
use foilen_box.RealmMaps.Database.{Datastore}
use foilen_box.RealmMaps.Cursors.{last_from_peer-record}
use foilen_box.Exchange.{Envelope, sign_event, verify_event, taken_in, handle_push}
use foilen_box.Exchange.Signatures.{sign_event-verify}
use foilen_box.Exchange.Reception.{apply_verified-true, handle_push_rejects}
use foilen_box.Exchange.Responses.{max_times, record_all, take_events, receive_response}

abbrev peak : Text → Map ℕ → ℕ
peak name m = get_or 0 (lookup name m)

-- One turn of the loop over the events.
abbrev noted : Envelope → Map ℕ → Map ℕ
noted env m =
    if ltb (peak env.event.store_name m) env.event.updated_at
    then insert env.event.store_name env.event.updated_at m
    else m

peak-noted :
    (name : Text) (env : Envelope) (m : Map ℕ)
    → (peak name m ≤ peak name (noted env m))
      × (env.event.updated_at ≤ peak env.event.store_name (noted env m))
peak-noted name env m =
    let ts = env.event.updated_at in
    let st = env.event.store_name in
    elim (Bool-cases (ltb (peak st m) ts)) [
      | inl e ↦ rw e (
        ground (arith, e, lookup-insert st name ts m, text_eq_iff st name),
        ground (arith, lookup-insert st st ts m, text_eq_iff st st),
      )
      | inr e ↦ rw e (omega arith, ground (arith, e))
    ]

peak-max_times :
    (name : Text) (envs : List Envelope) (m : Map ℕ) → peak name m ≤ peak name (max_times envs m)
unfolding max_times
peak-max_times name [] m = omega arith
peak-max_times name (env ∷ envs) m =
    omega (arith, (peak-noted name env m).0, peak-max_times name envs (noted env m))

Listed-peak :
    (env : Envelope) (envs : List Envelope) (m : Map ℕ)
    → Listed env envs
    → env.event.updated_at ≤ peak env.event.store_name (max_times envs m)
unfolding max_times
Listed-peak env [] m l = absurd l
Listed-peak env (x ∷ xs) m (inl q) =
    subst (λ y. y.event.updated_at ≤ peak y.event.store_name (max_times xs (noted x m))) q
      (omega (
        arith,
        (peak-noted x.event.store_name x m).1,
        peak-max_times x.event.store_name xs (noted x m),
      ))
Listed-peak env (x ∷ xs) m (inr r) = Listed-peak env xs (noted x m) r

module _ (d : Datastore) where
  last_from_peer-grows :
      (g st p : Text) (name : Text) (ts : ℕ) (s : Store d)
      → last_from_peer d g st p s ≤ last_from_peer d g st p (record_from_peer d g name p ts s).0
  last_from_peer-grows g st p name ts s =
      ground (arith, last_from_peer-record d g st p g name p ts s)

  record_from_peer-reaches :
      (g st p : Text) (ts : ℕ) (s : Store d)
      → ts ≤ last_from_peer d g st p (record_from_peer d g st p ts s).0
  record_from_peer-reaches g st p ts s = ground (
    arith,
    last_from_peer-record d g st p g st p ts s,
    text_eq_refl g,
    text_eq_refl st,
    text_eq_refl p,
  )

  module _ (decimal : ℕ → Text) (crypto : Crypto) where
    record_all-grows :
        (g st p : Text) (m : Map ℕ) (s : Store d)
        → last_from_peer d g st p s ≤ last_from_peer d g st p (record_all d decimal crypto g p m s)
    unfolding record_all
    record_all-grows g st p [] s = omega arith
    record_all-grows g st p ((name, ts) ∷ m) s = omega (
      arith,
      last_from_peer-grows g st p name ts s,
      record_all-grows g st p m (record_from_peer d g name p ts s).0,
    )

    record_all-reaches :
        (g st p : Text) (m : Map ℕ) (s : Store d)
        → peak st m ≤ last_from_peer d g st p (record_all d decimal crypto g p m s)
    unfolding record_all lookup
    record_all-reaches g st p [] s = omega arith
    record_all-reaches g st p ((name, ts) ∷ m) s =
        let t = (record_from_peer d g name p ts s).0 in
        elim (Bool-cases (text_eq name st)) [
          | inl e ↦
              let same : name ≡ st = (text_eq_iff name st).0 e in
              let reached : ts ≤ last_from_peer d g st p t =
                subst (λ n. ts ≤ last_from_peer d g n p t) same
                  (record_from_peer-reaches g name p ts s) in
              rw e (omega (arith, reached, record_all-grows g st p m t))
          | inr e ↦ rw e (record_all-reaches g st p m t)
        ]

    -- The cursor of a peer, for the group that was asked for, passes every event of the response,
    -- also one whose signature does not verify, that could not be written or that belongs to another
    -- group, so none of them is asked for again.
    pub receive_response_advances :
        (group : Group) (peer_id : Text) (envs : List Envelope) (s : Store d) (env : Envelope)
        → Listed env envs
        → env.event.updated_at
          ≤ last_from_peer d group.key_pair.id env.event.store_name peer_id
              (receive_response d decimal crypto group peer_id envs s).0
    unfolding receive_response
    receive_response_advances group peer_id envs s env l =
        let t = (take_events d decimal crypto group envs s).0 in
        let m = max_times envs [] in
        omega (
          arith,
          Listed-peak env envs [] l,
          record_all-reaches group.key_pair.id env.event.store_name peer_id m t,
        )

    -- An event that the key of one group has signed is taken in from a response for that group
    -- whatever group the event names, while the same envelope that is pushed is refused when its
    -- signature does not verify with the key of the group that it names.
    pub take_events_foreign :
        (group other : Group) (groups : List Group) (ev : MapEvent) (env : Envelope) (s : Store d)
        → sign_event decimal crypto group ev ≡ some env
        → find_group_by_id groups env.event.group_id ≡ some other
        → verify_event decimal crypto other env ≡ false
        → ((take_events d decimal crypto group (env ∷ []) s).0 ≡ (taken_in decimal crypto d ev s).0)
          × (handle_push decimal crypto d groups env s ≡ (s, false))
    unfolding take_events
    take_events_foreign group other groups ev env s signs knows refused =
        let (whole, ok) = sign_event-verify decimal crypto group ev env signs in
        (
          ap (λ r. r.0) (apply_verified-true decimal crypto d group env s ok)
              ∙ ap (λ e. (taken_in decimal crypto d e s).0) whole,
          handle_push_rejects decimal crypto d groups env s (λ g e.
              let same : some other ≡ some g = sym knows ∙ e in
              let is : other ≡ g = cc in
              subst (λ x. verify_event decimal crypto x env ≡ false) is refused),
        )
