-- ===== src/Access/Challenge.antt =====
-- The proof of membership of realm/group_challenge.go, from both ends.
use foilen_box.Prelude.{
  ◌≡◌, refl, sym, ◌∙◌, ap, inl, inr, Bool, true, false, ◌&&◌, ◌||◌, lookup, Option, none, some,
  List, [], arith, Text, text_eq, text_eq_iff, text_eq_refl, Bool-cases, Option-cases,
}
use foilen_box.Model.{Group, find_group_by_id}
use foilen_box.Peers.{Peers, add_group_name}
use foilen_box.Peers.Groups.{is_member, known, is_member-add}
use foilen_box.Access.KeyPairs.{Crypto, private_key}
use foilen_box.Access.{
  Request, signed, not_for_us, unknown_group, no_key, no_signature, challenge_hash, sign_answer,
  handle_group_challenge, verify_group_challenge, challenge_request, challenge_group,
}

module _ (crypto : Crypto) where
  open crypto use {
    Private, get_public, sign, verify, encode_base64, decode_base64, verify-sign, decode-encode,
  }

  sign_answer_inv :
      (group : Group) (req : Request) (reply : Text)
      → sign_answer crypto group req ≡ signed reply
      → (priv : Private) × (sig : Text) × (private_key crypto group.key_pair ≡ some priv)
        × (sign priv (challenge_hash crypto req) ≡ some sig)
        × (encode_base64 sig ≡ reply)
  unfolding sign_answer
  sign_answer_inv group req reply h = elim (Option-cases (private_key crypto group.key_pair)) [
    | inl e ↦ absurd (let f : no_key ≡ signed reply = rw (e, sign_answer) at h in cc)
    | inr (priv, e) ↦ elim (Option-cases (sign priv (challenge_hash crypto req))) [
      | inl f ↦ absurd (let g : no_signature ≡ signed reply = rw (e, sign_answer, f) at h in cc)
      | inr (sig, f) ↦ (
        priv,
        sig,
        e,
        f,
        let g : signed (encode_base64 sig) ≡ signed reply = rw (e, sign_answer, f) at h in cc,
      )
    ]
  ]

  sign_answer-verify :
      (theirs ours : Group) (req : Request) (reply : Text)
      → private_key crypto theirs.key_pair ≡ private_key crypto ours.key_pair
      → sign_answer crypto theirs req ≡ signed reply
      → verify_group_challenge crypto ours req reply ≡ true
  unfolding verify_group_challenge
  sign_answer-verify theirs ours req reply same h =
      let (priv, sig, e, f, g) = sign_answer_inv theirs req reply h in
      let decoded : decode_base64 reply ≡ some sig = ap decode_base64 (sym g) ∙ decode-encode sig in
      rw (
        decoded,
        verify_group_challenge,
        sym same ∙ e,
        verify-sign priv (challenge_hash crypto req) sig f,
      )

  -- A request is signed only when it names this peer, and with the key of the group that it names;
  -- every other request gets no answer.
  pub handle_group_challenge_lem :
      (self_id : Text) (groups : List Group) (req : Request) (reply : Text)
      → handle_group_challenge crypto self_id groups req ≡ signed reply
      → (req.responder_id ≡ self_id)
        × (group : Group) × (priv : Private) × (sig : Text) × (find_group_by_id groups req.group_id
            ≡ some group)
        × (private_key crypto group.key_pair ≡ some priv)
        × (sign priv (challenge_hash crypto req) ≡ some sig)
        × (encode_base64 sig ≡ reply)
  unfolding handle_group_challenge
  handle_group_challenge_lem self_id groups req reply h =
      elim (Bool-cases (text_eq req.responder_id self_id)) [
        | inr e ↦ absurd (let f : not_for_us ≡ signed reply = rw e at h in cc)
        | inl e ↦ elim (Option-cases (find_group_by_id groups req.group_id)) [
          | inl f ↦ absurd (let g : unknown_group ≡ signed reply = rw (e, f) at h in cc)
          | inr (group, f) ↦
              let (priv, sig, a, b, c) = sign_answer_inv group req reply (rw (e, f) at h) in
              ((text_eq_iff req.responder_id self_id).0 e, group, priv, sig, f, a, b, c)
        ]
      ]

  -- Two peers that have a group with the same private key under the same id: the answer of the one
  -- convinces the other, which puts it in the group and says so to its features.
  pub challenge_group-handle :
      (self_id remote nonce reply : Text) (ours theirs : Group) (groups : List Group)
      (peers : Peers)
      → find_group_by_id groups ours.key_pair.id ≡ some theirs
      → theirs.key_pair.private_key_base64 ≡ ours.key_pair.private_key_base64
      → handle_group_challenge crypto remote groups (challenge_request self_id remote nonce ours)
        ≡ signed reply
      → challenge_group crypto self_id remote nonce ours (some reply) peers
        ≡ (add_group_name ours.name remote peers, true)
  unfolding handle_group_challenge challenge_group private_key
  challenge_group-handle self_id remote nonce reply ours theirs groups peers found same h =
      let signs : sign_answer crypto theirs (challenge_request self_id remote nonce ours)
          ≡ signed reply =
        rw (text_eq_refl remote, found) at h in
      rw (
        sign_answer-verify theirs ours (challenge_request self_id remote nonce ours) reply
          (ap (λ k. private_key crypto (record { id = []; private_key_base64 = k })) same) signs)

  abbrev pub convinces : Group → Request → Option Text → Bool
  convinces group req none = false
  convinces group req (some reply) = verify_group_challenge crypto group req reply

  -- A challenge changes one membership at most: that of the challenged peer in that group, when it
  -- is known and its answer verifies; the features are told exactly when it does.
  pub is_member-challenge_group :
      (self_id remote nonce j g : Text) (group : Group) (reply : Option Text) (peers : Peers)
      → let after = challenge_group crypto self_id remote nonce group reply peers in
        let proved = convinces group (challenge_request self_id remote nonce group) reply in
        (after.1 ≡ proved)
        × (is_member j g after.0 ≡ (
            is_member j g peers
            || (proved && known (lookup remote peers) && text_eq remote j && text_eq group.name g)))
  unfolding challenge_group
  is_member-challenge_group self_id remote nonce j g group none peers = (refl, ground arith)
  is_member-challenge_group self_id remote nonce j g group (some reply) peers =
      elim (Bool-cases (
        verify_group_challenge crypto group (challenge_request self_id remote nonce group) reply)) [
          | inl e ↦ (rw e refl, rw e (is_member-add group.name remote j g peers))
          | inr e ↦ (rw e refl, rw e (ground arith))
        ]
