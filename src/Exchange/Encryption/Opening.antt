-- ===== src/Exchange/Encryption/Opening.antt =====
-- What was encrypted with realm/features/maps/crypto.go comes back.
use foilen_box.Prelude.{
  ℕ, ◌≡◌, refl, sym, ◌∙◌, ap, subst, inl, inr, true, false, none, some, some_inj, [], ◌∷◌, Text,
  length, is_empty, ◌==◌, ==_iff, Option-cases, Bool-cases,
}
use foilen_box.Model.Replica.{MapEvent}
use foilen_box.Access.KeyPairs.{Crypto}
use foilen_box.Exchange.{encrypted_signing_bytes}
use foilen_box.Exchange.Encryption.{
  Boxes, public_to_x25519, private_to_x25519, seal_symmetric_key, open_symmetric_key, encrypt_entry,
  decrypt_entry, sign_encrypted_event, verify_encrypted_event,
}

is_empty-nil : (t : Text) → is_empty t ≡ true → t ≡ []
is_empty-nil [] h = refl
is_empty-nil (c ∷ t) h = absurd (let f : false ≡ true = h in cc)

module _ (crypto : Crypto) (boxes : Boxes crypto) where
  open crypto use {
    Private, get_public, encode_base64, decode_base64, decode-encode, sign, verify-sign,
  }
  open boxes use {
    seal_anonymous, open_anonymous, Paired, open-seal_anonymous, open-seal, decode-encode_payload,
    encode_payload, sha512,
  }

  -- An entry that is encrypted with a nonce of 24 bytes decrypts with the same symmetric key to the
  -- same key and value.
  pub decrypt_entry-encrypt_entry :
      (nonce key value symmetric_key : Text)
      → length nonce ≡ 24
      → let (ciphertext, coded) = encrypt_entry crypto boxes nonce key value symmetric_key in
        decrypt_entry crypto boxes ciphertext coded symmetric_key ≡ some (key, value)
  unfolding encrypt_entry decrypt_entry
  decrypt_entry-encrypt_entry nonce key value symmetric_key len =
      let right : (length nonce == 24) ≡ true = (==_iff (length nonce) 24).1 len in
      rw
        (
          decode-encode (boxes.seal (encode_payload key value) nonce symmetric_key),
          decrypt_entry,
          encrypt_entry,
          decode-encode nonce,
          right,
          open-seal (encode_payload key value) nonce symmetric_key,
        )
        (decode-encode_payload key value)

  -- A symmetric key of 32 bytes that is sealed for the public key of a private key is opened with that
  -- private key, when the two convert to a pair of X25519 keys.
  pub open_symmetric_key-seal_symmetric_key :
      (priv : Private) (key random encoded public secret : Text)
      → length key ≡ 32
      → public_to_x25519 crypto boxes (get_public priv) ≡ some public
      → private_to_x25519 crypto boxes priv ≡ some secret
      → Paired public secret
      → seal_symmetric_key crypto boxes key random (get_public priv) ≡ some encoded
      → open_symmetric_key crypto boxes encoded priv ≡ some key
  unfolding open_symmetric_key seal_symmetric_key
  open_symmetric_key-seal_symmetric_key priv key random encoded public secret len p q paired h =
      elim (Option-cases (seal_anonymous random key public)) [
        | inl e ↦ absurd (let f : none ≡ some encoded = rw (p, seal_symmetric_key, e) at h in cc)
        | inr (sealed, e) ↦
            let f : some (encode_base64 sealed) ≡ some encoded =
              rw (p, seal_symmetric_key, e) at h in
            let is : encode_base64 sealed ≡ encoded = some_inj f in
            let decoded : decode_base64 encoded ≡ some sealed =
              ap decode_base64 (sym is) ∙ decode-encode sealed in
            let right : (length key == 32) ≡ true = (==_iff (length key) 32).1 len in
            rw
              (
                decoded,
                open_symmetric_key,
                q,
                p,
                open-seal_anonymous random key sealed public secret paired e,
                right,
              )
              refl
      ]

  -- Bytes that are not empty have an encoding that is not empty, since the empty text decodes to no
  -- bytes.
  encode_base64-full :
      (raw : Text)
      → decode_base64 [] ≡ some []
      → is_empty raw ≡ false
      → is_empty (encode_base64 raw) ≡ false
  encode_base64-full raw none_coded full = elim (Bool-cases (is_empty (encode_base64 raw))) [
    | inr e ↦ e
    | inl e ↦
        let coded : decode_base64 [] ≡ some raw =
          ap decode_base64 (sym (is_empty-nil (encode_base64 raw) e)) ∙ decode-encode raw in
        let same : [] ≡ raw = some_inj (sym none_coded ∙ coded) in
        absurd (let f : true ≡ false = ap is_empty same ∙ full in cc)
  ]

  module _ (decimal : ℕ → Text) where
    -- The signature that an identity puts on an encrypted event verifies with its public key, when base64
    -- decodes the empty text to no bytes and no signature is empty.
    pub verify-sign_encrypted_event :
        (priv : Private) (ev : MapEvent) (sig : Text)
        → sign_encrypted_event crypto boxes decimal priv ev ≡ some sig
        → decode_base64 [] ≡ some []
        → ((message raw : Text) → sign priv message ≡ some raw → is_empty raw ≡ false)
        → verify_encrypted_event crypto boxes decimal
            (get_public priv)
            (record ev { identity_signature = sig })
          ≡ true
    unfolding verify_encrypted_event encrypted_signing_bytes sign_encrypted_event
    verify-sign_encrypted_event priv ev sig h none_coded full =
        elim (Option-cases (sign priv (encrypted_signing_bytes decimal ev))) [
          | inl e ↦ absurd (let f : none ≡ some sig = rw (e, sign_encrypted_event) at h in cc)
          | inr (raw, e) ↦
              let f : some (encode_base64 raw) ≡ some sig = rw (e, sign_encrypted_event) at h in
              let is : encode_base64 raw ≡ sig = some_inj f in
              subst
                (λ t.
                  verify_encrypted_event crypto boxes decimal (get_public priv)
                    (record ev { identity_signature = t })
                  ≡ true)
                is
                (rw
                  (
                    encode_base64-full raw none_coded
                        (full (encrypted_signing_bytes decimal ev) raw e),
                    decode-encode raw,
                    verify-sign priv (encrypted_signing_bytes decimal ev) raw e,
                  )
                  refl)
        ]
