-- ===== src/Exchange/Reception.antt =====
-- What `handlePushStream` of realm/features/maps/feature.go takes in.
use foilen_box.Prelude.{
  ℕ, ◌≡◌, refl, ◌∙◌, ap, subst, inl, inr, true, false, some, List, [], Text, Option-cases,
}
use foilen_box.Model.{Group, find_group_by_id}
use foilen_box.Model.Replica.{MapEvent}
use foilen_box.RealmMaps.{Store}
use foilen_box.RealmMaps.Database.{Datastore}
use foilen_box.Access.KeyPairs.{Crypto, private_key}
use foilen_box.Exchange.{
  Envelope, verify_bytes, verify_event, sign_event, taken_in, apply_verified, handle_push,
}
use foilen_box.Exchange.Signatures.{sign_event-verify}

module _ (decimal : ℕ → Text) (crypto : Crypto) (d : Datastore) where
  pub apply_verified-true :
      (group : Group) (env : Envelope) (s : Store d)
      → verify_event decimal crypto group env ≡ true
      → apply_verified decimal crypto d group env s ≡ taken_in decimal crypto d env.event s
  unfolding apply_verified
  apply_verified-true group env s h = rw h refl

  -- An event of a group that is not configured here, or whose signature does not verify with that
  -- group's key, changes nothing and is not sent on.
  pub handle_push_rejects :
      (groups : List Group) (env : Envelope) (s : Store d)
      → ((group : Group)
          → find_group_by_id groups env.event.group_id ≡ some group
          → verify_event decimal crypto group env ≡ false)
      → handle_push decimal crypto d groups env s ≡ (s, false)
  unfolding handle_push apply_verified
  handle_push_rejects groups env s h =
      elim (Option-cases (find_group_by_id groups env.event.group_id)) [
        | inl e ↦ rw (e, handle_push)
        | inr (group, e) ↦ rw (e, handle_push, h group e)
      ]

  -- An event that one peer signed for a group reaches the store of another peer that has the group
  -- with the same private key, exactly as if it had been applied there.
  pub handle_push-sign_event :
      (theirs ours : Group) (groups : List Group) (ev : MapEvent) (env : Envelope) (s : Store d)
      → theirs.key_pair.private_key_base64 ≡ ours.key_pair.private_key_base64
      → find_group_by_id groups ev.group_id ≡ some ours
      → sign_event decimal crypto theirs ev ≡ some env
      → handle_push decimal crypto d groups env s ≡ taken_in decimal crypto d ev s
  unfolding handle_push verify_event verify_bytes private_key
  handle_push-sign_event theirs ours groups ev env s same found h =
      let (whole, ok) = sign_event-verify decimal crypto theirs ev env h in
      let known : find_group_by_id groups env.event.group_id ≡ some ours =
        ap (λ e. find_group_by_id groups e.group_id) whole ∙ found in
      let ok_here : verify_event decimal crypto ours env ≡ true =
        subst
          (λ k.
            verify_event decimal crypto
              (record { name = []; key_pair = record { id = []; private_key_base64 = k } }) env
            ≡ true)
          same ok in
      rw (known, handle_push)
        (apply_verified-true ours env s ok_here ∙ ap (λ e. taken_in decimal crypto d e s) whole)
