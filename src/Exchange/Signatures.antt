-- ===== src/Exchange/Signatures.antt =====
-- What the signature of an event covers, in realm/model/map.go and realm/features/maps/feature.go.
use foilen_box.Prelude.{
  ℕ, ◌≡◌, sym, ◌∙◌, ap, subst, inl, inr, true, none, some, ◌++◌, append_assoc, Text, codes,
  Option-cases,
}
use foilen_box.Model.{Group}
use foilen_box.Model.Replica.{MapEvent}
use foilen_box.Access.KeyPairs.{Crypto, private_key}
use foilen_box.Exchange.{Envelope, signing_bytes, sign_event, verify_event, verify_bytes}

module _ (decimal : ℕ → Text) where
  -- The bar between two fields may as well stand in either: an event whose key ends in a bar and a
  -- text signs the same bytes as the one that has that text and the bar at the start of its value,
  -- so whatever signature verifies for the one verifies for the other.
  pub signing_bytes_shift :
      (crypto : Crypto) (group : Group) (e : MapEvent) (moved sig : Text)
      → let left = record e { key = e.key ++ (codes "|" ++ moved) } in
        let right = record e { value = moved ++ (codes "|" ++ e.value) } in
        (signing_bytes decimal left ≡ signing_bytes decimal right)
        × (verify_event decimal crypto group (record { event = left; signature = sig })
            ≡ verify_event decimal crypto group (record { event = right; signature = sig }))
  unfolding signing_bytes verify_event
  signing_bytes_shift crypto group e moved sig =
      (same, ap (λ t. verify_bytes decimal crypto group t sig) same)
    where
      same :
          signing_bytes decimal (record e { key = e.key ++ (codes "|" ++ moved) })
          ≡ signing_bytes decimal (record e { value = moved ++ (codes "|" ++ e.value) })
      same =
          ap (λ t. e.group_id ++ (codes "|" ++ (e.store_name ++ (codes "|" ++ t))))
            (append_assoc e.key (codes "|" ++ moved) _
              ∙ ap (λ t. e.key ++ (codes "|" ++ t))
                  (sym (append_assoc moved (codes "|" ++ e.value) _)))

  module _ (crypto : Crypto) where
    open crypto use {sign, verify-sign}

    -- An event that is signed travels whole, and verifies.
    pub sign_event-verify :
        (group : Group) (ev : MapEvent) (env : Envelope)
        → sign_event decimal crypto group ev ≡ some env
        → (env.event ≡ ev) × (verify_event decimal crypto group env ≡ true)
    unfolding sign_event verify_event verify_bytes
    sign_event-verify group ev env h = elim (Option-cases (private_key crypto group.key_pair)) [
      | inl a ↦ absurd (let g : none ≡ some env = rw (a, sign_event) at h in cc)
      | inr (priv, a) ↦ elim (Option-cases (sign priv (signing_bytes decimal ev))) [
        | inl b ↦ absurd (let g : none ≡ some env = rw (a, sign_event, b) at h in cc)
        | inr (sig, b) ↦
            let made : some (record { event = ev; signature = sig }) ≡ some env =
              rw (a, sign_event, b) at h in
            let is : record { event = ev; signature = sig } ≡ env = cc in
            (
              sym (ap (λ x. x.event) is),
              subst (λ x. verify_event decimal crypto group x ≡ true) is
                  (rw (
                    a,
                    verify_event,
                    verify_bytes,
                    verify-sign priv (signing_bytes decimal ev) sig b,
                  )),
            )
      ]
    ]
