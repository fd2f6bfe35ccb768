-- ===== src/Exchange/Editing/Writing.antt =====
-- Where the writes of realm/features/maps/feature.go go.
use foilen_box.Prelude.{
  ℕ, ◌-◌, ◌*◌, ◌==◌, ltb, if◌then◌else◌, ◌∷◌, Map, ◌≡◌, refl, ◌∙◌, ap, subst, inl, inr, true, false,
  Option, none, some, List, [], Text, Bool-cases, Option-cases,
}
use foilen_box.Model.{Group, Identity, find_group_by_id, find_identity_by_id}
use foilen_box.Model.Replica.{MapEntry, MapEvent}
use foilen_box.RealmMaps.{
  Store, Applied, apply_failed, ignored, applied, apply_event, map_id, event_of, state_key,
}
use foilen_box.RealmMaps.Reads.{get_map}
use foilen_box.RealmMaps.Database.{Datastore}
use foilen_box.RealmMaps.Frame.{Elsewhere, store_of, get-apply_event}
use foilen_box.Access.KeyPairs.{Crypto, private_key}
use foilen_box.Exchange.{sign_event}
use foilen_box.Exchange.Encryption.{Boxes, hash_key, open_symmetric_key, encrypt_entry}
use foilen_box.Exchange.Subscriptions.{Subs}
use foilen_box.Exchange.Editing.{
  MapEncryption, MapConfig, encrypt_mutation, with_content, stamped, config_for_store, announce,
  mutated_by, write_to, mutate, store_after, deletion, delete_value, sweep_entries, sweep_config,
}
use foilen_box.Exchange.Editing.Reading.{sign_mutation_inv}

module _ (crypto : Crypto) (boxes : Boxes crypto) (decimal : ℕ → Text) where
  open crypto use {Private}

  -- Whatever is written to an encrypted map goes to the hash of its key.
  key-encrypt_mutation :
      (identities : List Identity) (enc : MapEncryption) (nonce g st key k : Text)
      (entry sealed : MapEntry)
      → encrypt_mutation crypto boxes decimal identities enc nonce g st key entry ≡ some (k, sealed)
      → hash_key crypto boxes enc.identity_id key ≡ k
  unfolding encrypt_mutation
  key-encrypt_mutation identities enc nonce g st key k entry sealed h =
      elim (Option-cases (find_identity_by_id identities enc.identity_id)) [
        | inl a ↦ absurd (let f : none ≡ some (k, sealed) = rw (a, encrypt_mutation) at h in cc)
        | inr (identity, a) ↦ elim (Option-cases (private_key crypto identity.key_pair)) [
          | inl b ↦
              absurd (let f : none ≡ some (k, sealed) = rw (a, encrypt_mutation, b) at h in cc)
          | inr (priv, b) ↦ elim (Bool-cases entry.deleted) [
            | inl c ↦
                (sign_mutation_inv crypto boxes decimal priv g st k _
                  (with_content [] [] (record entry { deleted = true })) sealed
                  (rw (a, encrypt_mutation, b, c) at h)).2
            | inr c ↦
                elim (Option-cases
                  (open_symmetric_key crypto boxes enc.encrypted_symmetric_key priv)) [
                    | inl o ↦ absurd (
                        let f : none ≡ some (k, sealed) = rw (a, encrypt_mutation, b, c, o) at h in
                        cc)
                    | inr (symmetric_key, o) ↦
                        let coded =
                          encrypt_entry crypto boxes nonce key entry.value symmetric_key in
                        (sign_mutation_inv crypto boxes decimal priv g st k _
                          (with_content coded.0 coded.1 entry) sealed
                          (rw (a, encrypt_mutation, b, c, o) at h)).2
                  ]
          ]
        ]
      ]

  module _ (d : Datastore) (decode : Text → Option MapConfig) where
    open d use {get}

    store_after-announce :
        (group : Group) (ev : MapEvent) (subs : Subs) (s t : Store d)
        → store_after crypto boxes decimal d decode s
            (announce crypto boxes decimal d decode group ev subs t)
          ≡ t
    unfolding announce
    store_after-announce group ev subs s t =
        elim (Option-cases (sign_event decimal crypto group ev)) [
          | inl e ↦ rw (e, announce) refl
          | inr (env, e) ↦ rw (e, announce) refl
        ]

    store_after-mutated_by :
        (group : Group) (ev : MapEvent) (subs : Subs) (s : Store d) (r : Applied d)
        → store_after crypto boxes decimal d decode s
            (mutated_by crypto boxes decimal d decode group ev subs r)
          ≡ store_of d r
    unfolding mutated_by
    store_after-mutated_by group ev subs s (apply_failed t) = refl
    store_after-mutated_by group ev subs s (ignored t) = refl
    store_after-mutated_by group ev subs s (applied t true change) =
        store_after-announce group ev subs s t
    store_after-mutated_by group ev subs s (applied t false change) = refl

    -- The deletion of a key of an encrypted map leaves alone whatever the database holds elsewhere
    -- than at the hash of that key.
    delete_value_misses :
        (groups : List Group) (group : Group) (identities : List Identity) (enc : MapEncryption)
        (self_id g st key x : Text) (now : ℕ) (subs : Subs) (s : Store d)
        → find_group_by_id groups g ≡ some group
        → (config_for_store crypto boxes decimal d decode g st s).encryption ≡ some enc
        → Elsewhere d x (map_id g st) (hash_key crypto boxes enc.identity_id key)
        → get x
            (store_after crypto boxes decimal d decode s (
              delete_value crypto boxes decimal d decode groups identities self_id now g st key subs
                s)).db
          ≡ get x s.db
    unfolding delete_value mutate write_to
    delete_value_misses groups group identities enc self_id g st key x now subs s known encrypted
          away =
        let entry = stamped self_id now (deletion crypto boxes decimal d decode) in
        elim (Option-cases
          (encrypt_mutation crypto boxes decimal identities enc [] g st key entry)) [
            | inl e ↦ rw (known, delete_value, mutate, encrypted, e) refl
            | inr ((k, sealed), e) ↦
                let same = key-encrypt_mutation identities enc [] g st key k entry sealed e in
                rw (known, delete_value, mutate, encrypted, e)
                  (ap (λ t. get x t.db)
                      (store_after-mutated_by group (event_of g st k sealed) subs s
                        (apply_event d g st k sealed s))
                    ∙ get-apply_event d g st k x sealed s
                        (subst (λ j. Elsewhere d x (map_id g st) j) same away))
          ]

    module _ (groups : List Group) (identities : List Identity) (self_id : Text) (now : ℕ)
        (subs : Subs) (enc : MapEncryption) (g st : Text) where
      -- At each entry of the sweep the map is encrypted in this way, and the database key is not one
      -- that belongs to the hash of the key of that entry.
      abbrev pub Hashed : ℕ → Text → Map MapEntry → Store d → Type 0
      Hashed cutoff x [] s = Unit {0}
      Hashed cutoff x ((k, e) ∷ entries) s =
          ((config_for_store crypto boxes decimal d decode g st s).encryption ≡ some enc)
          × Elsewhere d x (map_id g st) (hash_key crypto boxes enc.identity_id k)
          × Hashed cutoff x entries (
              if ltb e.updated_at cutoff
              then store_after crypto boxes decimal d decode s (
                  delete_value crypto boxes decimal d decode groups identities self_id now g st k
                    subs s)
              else s)

      sweep_entries-misses :
          (group : Group) (cutoff : ℕ) (x : Text) (entries : Map MapEntry) (s : Store d)
          → find_group_by_id groups g ≡ some group
          → Hashed cutoff x entries s
          → get x
              (sweep_entries crypto boxes decimal d decode groups identities self_id now subs cutoff
                g st entries s).db
            ≡ get x s.db
      unfolding sweep_entries
      sweep_entries-misses group cutoff x [] s known h = refl
      sweep_entries-misses group cutoff x ((k, e) ∷ entries) s known (encrypted, away, rest) =
          let t = store_after crypto boxes decimal d decode s (
            delete_value crypto boxes decimal d decode groups identities self_id now g st k subs
              s) in
          sweep_entries-misses group cutoff x entries (if ltb e.updated_at cutoff then t else s)
            known rest
          ∙ elim (Bool-cases (ltb e.updated_at cutoff)) [
            | inl o ↦ rw o (
                delete_value_misses groups group identities enc self_id g st k x now subs s known
                  encrypted away)
            | inr o ↦ rw o refl
          ]

      -- The sweep of an encrypted map, whatever the hours after which its entries expire, leaves
      -- the stored entry of a key as it was, expired or not, as long as at each swept entry the map
      -- is encrypted with the same identity and symmetric key, and the database key of the stored
      -- entry is none of those that a write to the hash of the swept key touches.
      pub sweep_config_misses :
          (group : Group) (cfg : MapConfig) (key : Text) (s : Store d)
          → find_group_by_id groups g ≡ some group
          → Hashed
              (now - cfg.auto_delete_hours * 3600000)
              (state_key d (map_id g st) key)
              (get_map d g st s)
              s
          → get
              (state_key d (map_id g st) key)
              (sweep_config crypto boxes decimal d decode groups identities self_id now subs g st
                (some cfg)
                s).db
            ≡ get (state_key d (map_id g st) key) s.db
      unfolding sweep_config
      sweep_config_misses group cfg key s known h = elim (Bool-cases (cfg.auto_delete_hours == 0)) [
        | inl e ↦ rw e refl
        | inr e ↦ rw e (
            sweep_entries-misses group (now - cfg.auto_delete_hours * 3600000)
              (state_key d (map_id g st) key) (get_map d g st s) s known h)
      ]
