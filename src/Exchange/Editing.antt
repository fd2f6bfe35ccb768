-- ===== src/Exchange/Editing.antt =====
-- The local reads and writes of the maps in realm/features/maps/feature.go, encrypted or not. The
-- configuration of a map is an entry of another map, decoded by an argument.
pub mod Reading
pub mod Writing
pub mod Open
mod Examples
use foilen_box.Prelude.{
  ℕ, ◌*◌, ◌-◌, ◌||◌, Bool, true, false, Option, none, some, List, [], ◌∷◌, ◌++◌, Text, Map, lookup,
  insert, ltb, ◌==◌, if◌then◌else◌,
}
use foilen_box.Model.{Group, Identity, find_group_by_id, find_identity_by_id}
use foilen_box.Model.Replica.{MapEntry, MapEvent}
use foilen_box.RealmMaps.{Store, Applied, apply_failed, ignored, applied, apply_event, event_of}
use foilen_box.RealmMaps.Database.{Datastore}
use foilen_box.RealmMaps.Reads.{get_map}
use foilen_box.Access.KeyPairs.{Crypto, private_key}
use foilen_box.Exchange.{Envelope, sign_event}
use foilen_box.Exchange.Encryption.{
  Boxes, hash_key, open_symmetric_key, encrypt_entry, decrypt_entry, sign_encrypted_event,
  verify_encrypted_event,
}
use foilen_box.Exchange.Subscriptions.{Subs, recipients, system_config_store_name}

pub record MapEncryption : Type 0 where
  pub identity_id : Text
  pub encrypted_symmetric_key : Text

pub record MapConfig : Type 0 where
  pub auto_delete_hours : ℕ
  pub encryption : Option MapEncryption

abbrev pub no_config : MapConfig
no_config = record { auto_delete_hours = 0; encryption = none }

abbrev config_in : (Text → Option MapConfig) → Option MapEntry → MapConfig
config_in decode none = no_config
config_in decode (some entry) = elim (decode entry.value) [ none ↦ no_config | some cfg ↦ cfg ]

abbrev pub with_content : Text → Text → MapEntry → MapEntry
with_content value nonce entry = record entry { value = value; nonce = nonce }

abbrev pub stamped : Text → ℕ → MapEntry → MapEntry
stamped self_id now entry = record entry { updated_at = now; origin_peer_id = self_id }

module _ (crypto : Crypto) (boxes : Boxes crypto) (decimal : ℕ → Text) where
  open crypto use {Private, Public, get_public}

  pub sign_mutation : Private → Text → Text → Text → MapEntry → Option (Text × MapEntry)
  sign_mutation priv group_id store_name storage_key entry =
      elim (sign_encrypted_event crypto boxes decimal priv
        (event_of group_id store_name storage_key (record entry { identity_signature = [] }))) [
          | none ↦ none
          | some sig ↦ some (storage_key, record entry { identity_signature = sig })
        ]

  -- The key and the entry to store. The nonce for a value is an argument.
  unfoldable pub encrypt_mutation :
      List Identity
      → MapEncryption
      → Text
      → Text
      → Text
      → Text
      → MapEntry
      → Option (Text × MapEntry)
  unfolding sign_mutation
  encrypt_mutation identities enc nonce group_id store_name key entry =
      elim (find_identity_by_id identities enc.identity_id) [
        | none ↦ none
        | some identity ↦ elim (private_key crypto identity.key_pair) [
          | none ↦ none
          | some priv ↦
              let storage_key = hash_key crypto boxes enc.identity_id key in
              if entry.deleted
              then sign_mutation priv group_id store_name storage_key (with_content [] [] entry)
              else elim (open_symmetric_key crypto boxes enc.encrypted_symmetric_key priv) [
                | none ↦ none
                | some symmetric_key ↦
                    let (ciphertext, coded) =
                      encrypt_entry crypto boxes nonce key entry.value symmetric_key in
                    sign_mutation priv group_id store_name storage_key
                      (with_content ciphertext coded entry)
              ]
        ]
      ]

  -- The entry that is shown for a stored one; its key and value are decrypted.
  unfoldable pub decrypt_one :
      Public → Text → Text → Text → Text → MapEntry → Option (Text × MapEntry)
  decrypt_one pub_key symmetric_key group_id store_name storage_key entry =
      if verify_encrypted_event crypto boxes decimal pub_key
        (event_of group_id store_name storage_key entry)
      then elim (decrypt_entry crypto boxes entry.value entry.nonce symmetric_key) [
        | none ↦ none
        | some (real_key, value) ↦ some (
          real_key,
          record {
            value = value;
            deleted = false;
            updated_at = entry.updated_at;
            origin_peer_id = entry.origin_peer_id;
            nonce = [];
            identity_signature = [];
          },
        )
      ]
      else none

  unfoldable pub decrypt_all : Public → Text → Text → Text → Map MapEntry → Map MapEntry
  decrypt_all pub_key symmetric_key group_id store_name [] = []
  decrypt_all pub_key symmetric_key group_id store_name ((k, e) ∷ raw) =
      let rest = decrypt_all pub_key symmetric_key group_id store_name raw in
      elim (decrypt_one pub_key symmetric_key group_id store_name k e) [
        | none ↦ rest
        | some (real_key, entry) ↦ insert real_key entry rest
      ]

  -- The map, whether it is encrypted, and whether it could be read.
  pub record Shown : Type 0 where
    pub entries : Map MapEntry
    pub encrypted : Bool
    pub available : Bool

  abbrev locked : Shown
  locked = record { entries = []; encrypted = true; available = false }

  module _ (d : Datastore) (decode : Text → Option MapConfig) where
    pub config_for_store : Text → Text → Store d → MapConfig
    config_for_store group_id store_name s =
        config_in decode (lookup store_name (get_map d group_id system_config_store_name s))

    -- `GetMap` of the feature.
    pub show_map : List Identity → Text → Text → Store d → Shown
    unfolding decrypt_all config_for_store
    show_map identities group_id store_name s =
        let raw = get_map d group_id store_name s in
        elim (config_for_store group_id store_name s).encryption [
          | none ↦ record { entries = raw; encrypted = false; available = true }
          | some enc ↦ elim (find_identity_by_id identities enc.identity_id) [
            | none ↦ locked
            | some identity ↦ elim (private_key crypto identity.key_pair) [
              | none ↦ locked
              | some priv ↦
                  elim (open_symmetric_key crypto boxes enc.encrypted_symmetric_key priv) [
                    | none ↦ locked
                    | some key ↦ record {
                      entries = decrypt_all (get_public priv) key group_id store_name raw;
                      encrypted = true;
                      available = true;
                    }
                  ]
            ]
          ]
        ]

    -- What a write did: nothing was stored, the store failed, nothing changed, the event could not be
    -- signed, or it went to the subscribers.
    pub data Mutated : Type 0 where
      refused : Mutated
      mutation_failed : Store d → Mutated
      unchanged : Store d → Mutated
      unsigned : Store d → Mutated
      broadcast : Store d → Envelope → List Text → Mutated

    announce : Group → MapEvent → Subs → Store d → Mutated
    announce group ev subs t = elim (sign_event decimal crypto group ev) [
      | none ↦ unsigned t
      | some env ↦ broadcast t env (recipients group.key_pair.id ev.store_name [] subs)
    ]

    mutated_by : Group → MapEvent → Subs → Applied d → Mutated
    unfolding announce
    mutated_by group ev subs (apply_failed t) = mutation_failed t
    mutated_by group ev subs (ignored t) = unchanged t
    mutated_by group ev subs (applied t changed change) =
        if changed then announce group ev subs t else unchanged t

    write_to : Group → Text → Text → Text → MapEntry → Subs → Store d → Mutated
    unfolding mutated_by
    write_to group group_id store_name storage_key entry subs s =
        mutated_by group (event_of group_id store_name storage_key entry) subs
          (apply_event d group_id store_name storage_key entry s)

    pub mutate :
        List Group
        → List Identity
        → Text
        → ℕ
        → Text
        → Text
        → Text
        → Text
        → MapEntry
        → Subs
        → Store d
        → Mutated
    unfolding write_to encrypt_mutation
    mutate groups identities self_id now nonce group_id store_name key entry subs s =
        elim (find_group_by_id groups group_id) [
          | none ↦ refused
          | some group ↦ elim (config_for_store group_id store_name s).encryption [
            | none ↦ write_to group group_id store_name key (stamped self_id now entry) subs s
            | some enc ↦
                elim (encrypt_mutation identities enc nonce group_id store_name key
                  (stamped self_id now entry)) [
                    | none ↦ refused
                    | some (storage_key, sealed) ↦
                        write_to group group_id store_name storage_key sealed subs s
                  ]
          ]
        ]

    abbrev store_after : Store d → Mutated → Store d
    store_after s refused = s
    store_after s (mutation_failed t) = t
    store_after s (unchanged t) = t
    store_after s (unsigned t) = t
    store_after s (broadcast t env peers) = t

    abbrev pub deletion : MapEntry
    deletion = record {
      value = [];
      deleted = true;
      updated_at = 0;
      origin_peer_id = [];
      nonce = [];
      identity_signature = [];
    }

    pub delete_value :
        List Group → List Identity → Text → ℕ → Text → Text → Text → Subs → Store d → Mutated
    unfolding mutate
    delete_value groups identities self_id now group_id store_name key subs s =
        mutate groups identities self_id now [] group_id store_name key deletion subs s

    -- The sweep of the entries that have expired.
    module _ (groups : List Group) (identities : List Identity) (self_id : Text) (now : ℕ)
        (subs : Subs) where
      pub sweep_entries : ℕ → Text → Text → Map MapEntry → Store d → Store d
      sweep_entries cutoff group_id store_name [] s = s
      sweep_entries cutoff group_id store_name ((k, e) ∷ entries) s =
          sweep_entries cutoff group_id store_name entries (
            if ltb e.updated_at cutoff
            then store_after s
                (delete_value groups identities self_id now group_id store_name k subs s)
            else s)

      pub sweep_config : Text → Text → Option MapConfig → Store d → Store d
      unfolding sweep_entries
      sweep_config group_id store_name none s = s
      sweep_config group_id store_name (some cfg) s =
          if cfg.auto_delete_hours == 0
          then s
          else sweep_entries (now - cfg.auto_delete_hours * 3600000) group_id store_name
              (get_map d group_id store_name s) s

      sweep_group : Text → Map MapEntry → Store d → Store d
      unfolding sweep_config
      sweep_group group_id [] s = s
      sweep_group group_id ((name, entry) ∷ entries) s =
          sweep_group group_id entries (sweep_config group_id name (decode entry.value) s)

      sweep : List Group → Store d → Store d
      unfolding sweep_group
      sweep [] s = s
      sweep (g ∷ gs) s =
          sweep gs
            (sweep_group g.key_pair.id (get_map d g.key_pair.id system_config_store_name s) s)

      -- `RunPeriodic` at a minute of an hour: the hour last swept, and the store.
      pub run_periodic : ℕ → ℕ → ℕ → ℕ → Store d → ℕ × Store d
      unfolding sweep
      run_periodic sweep_minute last_swept hour minute s =
          if last_swept == hour || ltb minute sweep_minute
          then (last_swept, s)
          else (hour, sweep groups s)
