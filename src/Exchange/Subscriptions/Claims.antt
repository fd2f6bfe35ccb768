-- ===== src/Exchange/Subscriptions/Claims.antt =====
-- `claimStoresToSubscribe` of realm/features/maps/feature.go asks a peer for a store once.
use foilen_box.Prelude.{
  ◌≡◌, refl, ◌∙◌, ap, inl, inr, Bool, true, false, not, ◌&&◌, ◌||◌, List, [], ◌∷◌, arith, Text,
  text_eq, text_eq_iff, text_eq_refl, contains_text, Map, lookup, insert, lookup-insert, set_add,
  contains_text-set_add, if◌then◌else◌, Bool-cases,
}
use foilen_box.RealmMaps.{get_or}
use foilen_box.Exchange.Subscriptions.{
  Subs, GroupSubs, group_subs_for, put_group, claim_stores, claim_stores_to_subscribe,
}

abbrev pub asked_in : Text → Text → Map (List Text) → Bool
asked_in name p subscribed = contains_text (get_or [] (lookup name subscribed)) p

-- Whether a peer has been asked for a store of a group.
unfoldable pub is_asked : Text → Text → Text → Subs → Bool
is_asked group_id name p s = asked_in name p (group_subs_for group_id s).subscribed

asked_in-insert :
    (name' name q p : Text) (m : Map (List Text))
    → asked_in name q (insert name' (set_add p (get_or [] (lookup name' m))) m)
      ≡ (asked_in name q m || (text_eq name' name && text_eq p q))
asked_in-insert name' name q p m =
    ap (λ o. contains_text (get_or [] o) q)
      (lookup-insert name' name (set_add p (get_or [] (lookup name' m))) m)
    ∙ ground (arith, text_eq_iff name' name, contains_text-set_add p q (get_or [] (lookup name' m)))

asked_in-claim_stores :
    (p q name : Text) (names : List Text) (m : Map (List Text))
    → asked_in name q (claim_stores p names m).0
      ≡ (asked_in name q m || (contains_text names name && text_eq p q))
unfolding claim_stores contains_text
asked_in-claim_stores p q name [] m = ground arith
asked_in-claim_stores p q name (n ∷ names) m =
    let m' = insert n (set_add p (get_or [] (lookup n m))) m in
    ground (arith, asked_in-claim_stores p q name names m', asked_in-insert n name q p m)

pub contains-claim_stores :
    (p name : Text) (names : List Text) (m : Map (List Text))
    → contains_text (claim_stores p names m).1 name
      ≡ (contains_text names name && not (asked_in name p m))
unfolding claim_stores contains_text
contains-claim_stores p name [] m = refl
contains-claim_stores p name (n ∷ names) m =
    let m' = insert n (set_add p (get_or [] (lookup n m))) m in
    elim (Bool-cases (asked_in n p m)) [
      | inl e ↦ rw e (
          ground (
            arith,
            e,
            contains-claim_stores p name names m',
            asked_in-insert n name p p m,
            text_eq_iff n name,
            text_eq_refl p,
          ))
      | inr e ↦ rw e (
          ground (
            arith,
            e,
            contains-claim_stores p name names m',
            asked_in-insert n name p p m,
            text_eq_iff n name,
            text_eq_refl p,
          ))
    ]

pub subs_at-put_group :
    (g' g : Text) (gs : GroupSubs) (s : Subs)
    → group_subs_for g (put_group g' gs s) ≡ (if text_eq g' g then gs else group_subs_for g s)
subs_at-put_group g' g gs s = ground (arith, lookup-insert g' g gs s.groups)

pub is_asked-claim :
    (g' g p q name : Text) (names : List Text) (s : Subs)
    → is_asked g name q (claim_stores_to_subscribe g' p names s).0
      ≡ (is_asked g name q s || (text_eq g' g && contains_text names name && text_eq p q))
unfolding is_asked claim_stores_to_subscribe
is_asked-claim g' g p q name names s =
    let gs = group_subs_for g' s in
    let after = (claim_stores p names gs.subscribed).0 in
    ap (λ x. asked_in name q x.subscribed)
      (subs_at-put_group g' g (record gs { subscribed = after }) s)
    ∙ elim (Bool-cases (text_eq g' g)) [
      | inl e ↦
          let same : g' ≡ g = (text_eq_iff g' g).0 e in
          rw e (
            asked_in-claim_stores p q name names gs.subscribed
            ∙ ap
                (λ i.
                  asked_in name q (group_subs_for i s).subscribed
                  || (contains_text names name && text_eq p q))
                same)
      | inr e ↦ rw e (ground arith)
    ]

-- A claim for a peer gives those of the names that it has not been asked for, and afterwards it has
-- been asked for all of them, and for nothing else that it had not been asked for; no other peer and
-- no other group changes. So the same claim made again gives nothing.
pub claim_stores_to_subscribe_lem :
    (g p name : Text) (names : List Text) (s : Subs)
    → let (t, to_ask) = claim_stores_to_subscribe g p names s in
      (contains_text to_ask name ≡ (contains_text names name && not (is_asked g name p s)))
      × ((g' q : Text)
          → is_asked g' name q t
            ≡ (is_asked g' name q s || (text_eq g g' && contains_text names name && text_eq p q)))
      × (contains_text (claim_stores_to_subscribe g p names t).1 name ≡ false)
unfolding is_asked claim_stores_to_subscribe
claim_stores_to_subscribe_lem g p name names s =
    let t = (claim_stores_to_subscribe g p names s).0 in
    let now = is_asked-claim g g p p name names s in
    (
      contains-claim_stores p name names (group_subs_for g s).subscribed,
      λ g' q. is_asked-claim g g' p q name names s,
      contains-claim_stores p name names (group_subs_for g t).subscribed
          ∙ nothing_left (contains_text names name) (is_asked g name p s) _
              (now ∙ rw (text_eq_refl g, text_eq_refl p) refl),
    )
  where
    nothing_left : (c was now : Bool) → now ≡ (was || (true && c && true)) → (c && not now) ≡ false
    nothing_left c was now h = ground (arith, h)
