-- ===== src/Access/KeyPairs.antt =====
-- realm/keypair/keypair.go, over the keys of libp2p and the base64 of the standard library.
use foilen_box.Prelude.{
  ◌≡◌, ap, ◌∙◌, Bool, true, Option, none, some, inl, inr, Text, Option-cases, arith,
}
use foilen_box.Model.{KeyPair}

-- What the libraries promise: a signature made with a private key verifies with its public key,
-- base64 decodes what it encoded, and a key that was marshalled unmarshals to itself.
pub record Crypto : Type 1 where
  pub Private : Type 0
  pub Public : Type 0
  pub md5 : Text → Text
  pub get_public : Private → Public
  pub sign : Private → Text → Option Text
  pub verify : Public → Text → Text → Option Bool
  pub marshal : Private → Option Text
  pub unmarshal : Text → Option Private
  pub id_of_public : Public → Option Text
  pub encode_base64 : Text → Text
  pub decode_base64 : Text → Option Text
  pub verify-sign :
      (k : Private) (message sig : Text)
      → sign k message ≡ some sig
      → verify (get_public k) message sig ≡ some true
  pub decode-encode : (bytes : Text) → decode_base64 (encode_base64 bytes) ≡ some bytes
  pub unmarshal-marshal : (k : Private) (raw : Text) → marshal k ≡ some raw → unmarshal raw ≡ some k

module _ (crypto : Crypto) where
  open crypto use {
    Private, get_public, marshal, unmarshal, id_of_public, encode_base64, decode_base64,
    decode-encode, unmarshal-marshal,
  }

  unfoldable pub private_key : KeyPair → Option Private
  private_key kp = elim (decode_base64 kp.private_key_base64) [
    | none ↦ none
    | some raw ↦ unmarshal raw
  ]

  unfoldable pub from_private_key : Private → Option KeyPair
  from_private_key priv = elim (marshal priv) [
    | none ↦ none
    | some raw ↦ elim (id_of_public (get_public priv)) [
      | none ↦ none
      | some id ↦ some (record { id = id; private_key_base64 = encode_base64 raw })
    ]
  ]

  -- `Import`
  pub import_key : Text → Option KeyPair
  unfolding from_private_key
  import_key private_key_base64 = elim (decode_base64 private_key_base64) [
    | none ↦ none
    | some raw ↦ elim (unmarshal raw) [ none ↦ none | some priv ↦ from_private_key priv ]
  ]

  from_private_key_inv :
      (priv : Private) (kp : KeyPair)
      → from_private_key priv ≡ some kp
      → (raw : Text) × (marshal priv ≡ some raw) × (kp.private_key_base64 ≡ encode_base64 raw)
  unfolding from_private_key
  from_private_key_inv priv kp h = elim (Option-cases (marshal priv)) [
    | inl e ↦ absurd (ground (arith, h, e))
    | inr (raw, e) ↦ elim (Option-cases (id_of_public (get_public priv))) [
      | inl f ↦ absurd (ground (arith, h, e, f))
      | inr (id, f) ↦ (raw, e, ground (arith, h, e, f))
    ]
  ]

  -- A key pair that was made from a private key gives that key back, and importing its text makes
  -- the same pair again.
  pub private_key-from_private_key :
      (priv : Private) (kp : KeyPair)
      → from_private_key priv ≡ some kp
      → (private_key kp ≡ some priv) × (import_key kp.private_key_base64 ≡ some kp)
  unfolding private_key import_key
  private_key-from_private_key priv kp h =
      let (raw, m, e) = from_private_key_inv priv kp h in
      let decoded : decode_base64 kp.private_key_base64 ≡ some raw =
        ap decode_base64 e ∙ decode-encode raw in
      let back : unmarshal raw ≡ some priv = unmarshal-marshal priv raw m in
      (rw (decoded, private_key, back), rw (decoded, import_key, back) h)
