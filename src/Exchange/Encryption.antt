-- ===== src/Exchange/Encryption.antt =====
-- The encryption of an entry to an identity, in realm/features/maps/crypto.go, over the boxes of
-- golang.org/x/crypto/nacl, the hashes and the encodings of the standard library. The random bytes
-- are arguments.
pub mod Opening
use foilen_box.Prelude.{
  ℕ, zero, suc, ◌+◌, ◌-◌, ◌/◌, ◌%◌, ◌^◌, ◌≡◌, Bool, true, false, not, Option, none, some, List, [],
  ◌∷◌, ◌++◌, Text, take, length, is_empty, ltb, ◌==◌, if◌then◌else◌,
}
use foilen_box.Model.Replica.{MapEvent}
use foilen_box.Access.KeyPairs.{Crypto}
use foilen_box.Exchange.{encrypted_signing_bytes}

-- What the libraries promise: a box is opened, with the private key that goes with the public key it
-- was sealed for, to what was sealed; a secret box with the nonce and the key it was sealed with; and
-- a payload decodes to the key and the value that were encoded.
pub record Boxes (crypto : Crypto) : Type 1 where
  pub raw_public : crypto.Public → Option Text
  pub raw_private : crypto.Private → Option Text
  pub montgomery : Text → Option Text
  pub sha512 : Text → Text
  pub sha256 : Text → Text
  pub hex : Text → Text
  pub seal_anonymous : Text → Text → Text → Option Text
  pub open_anonymous : Text → Text → Text → Option Text
  pub seal : Text → Text → Text → Text
  pub open_secret : Text → Text → Text → Option Text
  pub encode_payload : Text → Text → Text
  pub decode_payload : Text → Option (Text × Text)
  pub Paired : Text → Text → Type 0
  pub open-seal_anonymous :
      (random message sealed public private : Text)
      → Paired public private
      → seal_anonymous random message public ≡ some sealed
      → open_anonymous sealed public private ≡ some message
  pub open-seal :
      (message nonce key : Text) → open_secret (seal message nonce key) nonce key ≡ some message
  pub decode-encode_payload :
      (key value : Text) → decode_payload (encode_payload key value) ≡ some (key, value)

-- `h[i] = f(h[i])`
unfoldable pub update_at : ℕ → (ℕ → ℕ) → Text → Text
update_at n f [] = []
update_at zero f (x ∷ xs) = f x ∷ xs
update_at (suc n) f (x ∷ xs) = x ∷ update_at n f xs

-- `b &= 248` on a byte.
abbrev pub clear_low : ℕ → ℕ
clear_low b = b - b % 8

-- `b &= 127` and `b |= 64`.
abbrev pub set_high : ℕ → ℕ
set_high b = if ltb (b % 128) 64 then b % 128 + 64 else b % 128

-- `binary.BigEndian.PutUint32(lenBuf[:], uint32(n))`
abbrev length_bytes : ℕ → Text
length_bytes n = n / 2 ^ 24 % 256 ∷ n / 2 ^ 16 % 256 ∷ n / 2 ^ 8 % 256 ∷ n % 256 ∷ []

module _ (crypto : Crypto) (boxes : Boxes crypto) where
  open crypto use {Private, Public, get_public, sign, verify, encode_base64, decode_base64}
  open boxes use {
    raw_public, raw_private, montgomery, sha512, sha256, hex, seal_anonymous, open_anonymous, seal,
    open_secret, encode_payload, decode_payload,
  }

  unfoldable pub public_to_x25519 : Public → Option Text
  public_to_x25519 pub_key = elim (raw_public pub_key) [
    | none ↦ none
    | some raw ↦ if length raw == 32 then montgomery raw else none
  ]

  unfoldable pub clamped : Text → Text
  unfolding update_at
  clamped h = take 32 (update_at 31 set_high (update_at 0 clear_low h))

  unfoldable pub private_to_x25519 : Private → Option Text
  unfolding clamped
  private_to_x25519 priv = elim (raw_private priv) [
    | none ↦ none
    | some raw ↦ if length raw == 64 then some (clamped (sha512 (take 32 raw))) else none
  ]

  -- The new symmetric key is an argument.
  unfoldable pub seal_symmetric_key : Text → Text → Public → Option Text
  unfolding public_to_x25519
  seal_symmetric_key key random recipient = elim (public_to_x25519 recipient) [
    | none ↦ none
    | some x ↦ elim (seal_anonymous random key x) [
      | none ↦ none
      | some sealed ↦ some (encode_base64 sealed)
    ]
  ]

  abbrev of_length : ℕ → Option Text → Option Text
  of_length n none = none
  of_length n (some t) = if length t == n then some t else none

  unfoldable pub open_symmetric_key : Text → Private → Option Text
  unfolding private_to_x25519 public_to_x25519
  open_symmetric_key encoded priv = elim (decode_base64 encoded) [
    | none ↦ none
    | some sealed ↦ elim (private_to_x25519 priv) [
      | none ↦ none
      | some secret ↦ elim (public_to_x25519 (get_public priv)) [
        | none ↦ none
        | some x ↦ of_length 32 (open_anonymous sealed x secret)
      ]
    ]
  ]

  unfoldable pub hash_key : Text → Text → Text
  hash_key identity_id real_key =
      hex (sha256 (length_bytes (length identity_id) ++ (identity_id ++ real_key)))

  -- The ciphertext and the nonce.
  unfoldable pub encrypt_entry : Text → Text → Text → Text → Text × Text
  encrypt_entry nonce key value symmetric_key =
      (encode_base64 (seal (encode_payload key value) nonce symmetric_key), encode_base64 nonce)

  unfoldable pub decrypt_entry : Text → Text → Text → Option (Text × Text)
  decrypt_entry ciphertext nonce symmetric_key = elim (decode_base64 ciphertext) [
    | none ↦ none
    | some sealed ↦ elim (of_length 24 (decode_base64 nonce)) [
      | none ↦ none
      | some bytes ↦ elim (open_secret sealed bytes symmetric_key) [
        | none ↦ none
        | some opened ↦ decode_payload opened
      ]
    ]
  ]

  module _ (decimal : ℕ → Text) where
    unfoldable pub sign_encrypted_event : Private → MapEvent → Option Text
    sign_encrypted_event priv ev = elim (sign priv (encrypted_signing_bytes decimal ev)) [
      | none ↦ none
      | some sig ↦ some (encode_base64 sig)
    ]

    abbrev is_ok : Option Bool → Bool
    is_ok none = false
    is_ok (some ok) = ok

    unfoldable pub verify_encrypted_event : Public → MapEvent → Bool
    verify_encrypted_event pub_key ev =
        if is_empty ev.identity_signature
        then false
        else elim (decode_base64 ev.identity_signature) [
          | none ↦ false
          | some sig ↦ is_ok (verify pub_key (encrypted_signing_bytes decimal ev) sig)
        ]
