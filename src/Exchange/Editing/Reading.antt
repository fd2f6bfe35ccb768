-- ===== src/Exchange/Editing/Reading.antt =====
-- An encrypted map of realm/features/maps/feature.go shows what was written to it.
use foilen_box.Prelude.{
  ℕ, ◌≡◌, refl, sym, ap, subst, inl, inr, true, false, none, some, some_inj, List, [], ◌∷◌, Text,
  Map, length, is_empty, Bool-cases, Option-cases, Entries, Entries-insert, Listed,
}
use foilen_box.Model.{Identity, find_identity_by_id}
use foilen_box.Model.Replica.{MapEntry}
use foilen_box.RealmMaps.{event_of}
use foilen_box.Access.KeyPairs.{Crypto, private_key}
use foilen_box.Exchange.Encryption.{
  Boxes, hash_key, open_symmetric_key, encrypt_entry, sign_encrypted_event, verify_encrypted_event,
}
use foilen_box.Exchange.Encryption.Opening.{
  decrypt_entry-encrypt_entry, verify-sign_encrypted_event,
}
use foilen_box.Exchange.Editing.{
  MapEncryption, encrypt_mutation, sign_mutation, with_content, decrypt_one, decrypt_all,
}

-- What is shown of an entry that was written with a value.
abbrev pub shown_as : MapEntry → MapEntry
shown_as entry = record {
  value = entry.value;
  deleted = false;
  updated_at = entry.updated_at;
  origin_peer_id = entry.origin_peer_id;
  nonce = [];
  identity_signature = [];
}

module _ (crypto : Crypto) (boxes : Boxes crypto) (decimal : ℕ → Text) where
  open crypto use {Private, Public, get_public, sign, decode_base64}

  -- What was signed and stored for an entry.
  pub sign_mutation_inv :
      (priv : Private) (g st k storage_key : Text) (entry sealed : MapEntry)
      → sign_mutation crypto boxes decimal priv g st storage_key entry ≡ some (k, sealed)
      → (sig : Text) × (sign_encrypted_event crypto boxes decimal priv
            (event_of g st storage_key (record entry { identity_signature = [] }))
          ≡ some sig)
        × (storage_key ≡ k)
        × (record entry { identity_signature = sig } ≡ sealed)
  unfolding sign_mutation
  sign_mutation_inv priv g st k storage_key entry sealed h =
      elim (Option-cases (
        sign_encrypted_event crypto boxes decimal priv
          (event_of g st storage_key (record entry { identity_signature = [] })))) [
            | inl e ↦ absurd (let f : none ≡ some (k, sealed) = rw (e, sign_mutation) at h in cc)
            | inr (sig, e) ↦
                let f : some (storage_key, record entry { identity_signature = sig })
                    ≡ some (k, sealed) =
                  rw (e, sign_mutation) at h in
                let is = some_inj f in (sig, e, ap (λ x. x.0) is, ap (λ x. x.1) is)
          ]

  -- A value whose writing to an encrypted map succeeds is stored under the hash of its key, and a peer
  -- that has the private key of the identity is shown it again under the key itself, with its time
  -- and its origin, when the nonce has 24 bytes, the entry is not a deletion, base64 decodes the empty text to no
  -- bytes, and the signatures of the identity are not empty.
  pub decrypt_one-encrypt_mutation :
      (identities : List Identity) (identity : Identity) (enc : MapEncryption) (priv : Private)
      (symmetric_key nonce g st key k : Text) (entry sealed : MapEntry)
      → find_identity_by_id identities enc.identity_id ≡ some identity
      → private_key crypto identity.key_pair ≡ some priv
      → open_symmetric_key crypto boxes enc.encrypted_symmetric_key priv ≡ some symmetric_key
      → length nonce ≡ 24
      → decode_base64 [] ≡ some []
      → ((message raw : Text) → sign priv message ≡ some raw → is_empty raw ≡ false)
      → entry.deleted ≡ false
      → encrypt_mutation crypto boxes decimal identities enc nonce g st key entry ≡ some (k, sealed)
      → (k ≡ hash_key crypto boxes enc.identity_id key)
        × (decrypt_one crypto boxes decimal (get_public priv) symmetric_key g st k sealed
            ≡ some (key, shown_as entry))
  unfolding encrypt_mutation decrypt_one
  decrypt_one-encrypt_mutation identities identity enc priv symmetric_key nonce g st key k entry
        sealed found opens unlocked len none_coded full live h =
      let coded = encrypt_entry crypto boxes nonce key entry.value symmetric_key in
      let inner = with_content coded.0 coded.1 entry in
      let storage_key = hash_key crypto boxes enc.identity_id key in
      let signed : sign_mutation crypto boxes decimal priv g st storage_key inner
          ≡ some (k, sealed) =
        rw (found, encrypt_mutation, opens, live, unlocked) at h in
      let (sig, e, same, is) = sign_mutation_inv priv g st k storage_key inner sealed signed in
      let verified : verify_encrypted_event crypto boxes decimal (get_public priv)
            (event_of g st storage_key (record inner { identity_signature = sig }))
          ≡ true =
        verify-sign_encrypted_event crypto boxes decimal priv
          (event_of g st storage_key (record inner { identity_signature = [] })) sig e none_coded
          full in
      let shown : decrypt_one crypto boxes decimal (get_public priv) symmetric_key g st storage_key
            (record inner { identity_signature = sig })
          ≡ some (key, shown_as entry) =
        rw
          (
            verified,
            decrypt_one,
            decrypt_entry-encrypt_entry crypto boxes nonce key entry.value symmetric_key len,
          )
          refl in
      (
        sym same,
        subst
            (λ j.
              decrypt_one crypto boxes decimal (get_public priv) symmetric_key g st j sealed
              ≡ some (key, shown_as entry))
            same
            (subst
              (λ x.
                decrypt_one crypto boxes decimal (get_public priv) symmetric_key g st storage_key x
                ≡ some (key, shown_as entry))
              is shown),
      )

  -- Where a shown entry comes from: a stored one with a signature of the identity.
  abbrev pub Genuine : Public → Text → Text → Text → Map MapEntry → Text → MapEntry → Type 0
  Genuine pub_key symmetric_key g st raw key shown =
      (k : Text) × ((e : MapEntry) × Listed (k, e) raw
        × (verify_encrypted_event crypto boxes decimal pub_key (event_of g st k e) ≡ true)
        × (decrypt_one crypto boxes decimal pub_key symmetric_key g st k e ≡ some (key, shown)))

  decrypt_one-verified :
      (pub_key : Public) (symmetric_key g st k key : Text) (e shown : MapEntry)
      → decrypt_one crypto boxes decimal pub_key symmetric_key g st k e ≡ some (key, shown)
      → verify_encrypted_event crypto boxes decimal pub_key (event_of g st k e) ≡ true
  unfolding decrypt_one
  decrypt_one-verified pub_key symmetric_key g st k key e shown h =
      elim (Bool-cases (verify_encrypted_event crypto boxes decimal pub_key (event_of g st k e))) [
        | inl v ↦ v
        | inr v ↦ absurd (let f : none ≡ some (key, shown) = rw (v, decrypt_one) at h in cc)
      ]

  weaker :
      (pub_key : Public) (symmetric_key g st : Text) (x : Text × MapEntry) (raw m : Map MapEntry)
      → Entries (Genuine pub_key symmetric_key g st raw) m
      → Entries (Genuine pub_key symmetric_key g st (x ∷ raw)) m
  weaker pub_key symmetric_key g st x raw [] h = tt
  weaker pub_key symmetric_key g st x raw ((j, w) ∷ m) ((k, (e, among, v, s)), rest) =
      ((k, (e, inr among, v, s)), weaker pub_key symmetric_key g st x raw m rest)

  -- Every entry that an unlocked map shows is the decryption of a stored entry whose signature by the
  -- identity verifies for the group, the store and the key that it is stored under.
  pub decrypt_all-Genuine :
      (pub_key : Public) (symmetric_key g st : Text) (raw : Map MapEntry)
      → Entries
          (Genuine pub_key symmetric_key g st raw)
          (decrypt_all crypto boxes decimal pub_key symmetric_key g st raw)
  unfolding decrypt_all
  decrypt_all-Genuine pub_key symmetric_key g st [] = tt
  decrypt_all-Genuine pub_key symmetric_key g st ((k, e) ∷ raw) =
      let rest =
        weaker pub_key symmetric_key g st (k, e) raw _
          (decrypt_all-Genuine pub_key symmetric_key g st raw) in
      elim (Option-cases (decrypt_one crypto boxes decimal pub_key symmetric_key g st k e)) [
        | inl o ↦ rw (o, decrypt_all) rest
        | inr ((key, shown), o) ↦
            rw (o, decrypt_all)
              (Entries-insert (Genuine pub_key symmetric_key g st ((k, e) ∷ raw)) key shown _
                (
                  k,
                  (e, inl refl, decrypt_one-verified pub_key symmetric_key g st k key e shown o, o),
                )
                rest)
      ]
