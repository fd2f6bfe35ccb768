-- ===== src/Exchange/Editing/Examples.antt =====
-- An encrypted map of two peers, for realm/features/maps/feature.go.
use foilen_box.Prelude.{
  ℕ, ◌≡◌, refl, subst, is_empty, some_inj, false, none, some, Option, [], ◌∷◌, Text, codes, text_eq,
  cut_prefix, insert, lookup, has_prefix, delete, trim_prefix, Entries,
}
use foilen_box.Model.{Group, Identity, find_group_by_id, find_identity_by_id}
use foilen_box.Model.Replica.{MapEntry}
use foilen_box.RealmMaps.Reads.{get_map}
use foilen_box.RealmMaps.{Store, map_id, path, state_key}
use foilen_box.RealmMaps.Database.{state_value, got_in}
use foilen_box.RealmMaps.Memory.{memory, empty_store, entries_below}
use foilen_box.RealmMaps.Frame.{Elsewhere}
use foilen_box.Access.KeyPairs.{private_key}
use foilen_box.Exchange.Encryption.{
  hash_key, open_symmetric_key, private_to_x25519, public_to_x25519, sign_encrypted_event,
}
use foilen_box.Exchange.Subscriptions.{Subs}
use foilen_box.Exchange.Editing.{
  MapEncryption, MapConfig, encrypt_mutation, decrypt_one, decrypt_all, config_for_store,
  sweep_config,
}
use foilen_box.Exchange.Editing.Reading.{
  shown_as, decrypt_one-encrypt_mutation, Genuine, decrypt_all-Genuine,
}
use foilen_box.Exchange.Editing.Writing.{Hashed, sweep_config_misses}
use foilen_box.Exchange.Editing.Open.{bytes_32, glass}
use foilen_box.Access.Plain.{plain}

abbrev anna : Identity
anna = record {
  name = codes "anna";
  key_pair = record { id = codes "i"; private_key_base64 = codes "key" };
}

abbrev home : Group
home = record {
  name = codes "home";
  key_pair = record { id = codes "h"; private_key_base64 = codes "key" };
}

abbrev enc : MapEncryption
enc = record { identity_id = codes "i"; encrypted_symmetric_key = bytes_32 }

abbrev nonce : Text
nonce = codes "123456789012345678901234"

abbrev decimal : ℕ → Text
decimal n = codes "7"

abbrev entry : MapEntry
entry = record {
  value = codes "v";
  deleted = false;
  updated_at = 7;
  origin_peer_id = codes "p";
  nonce = [];
  identity_signature = [];
}

-- What is stored for it.
abbrev sealed : Option (Text × MapEntry)
sealed =
    encrypt_mutation plain glass decimal (anna ∷ []) enc nonce (codes "h") (codes "s") (codes "k")
      entry

abbrev key_of : Option (Text × MapEntry) → Text
key_of none = []
key_of (some (k, e)) = k

abbrev entry_of : Option (Text × MapEntry) → MapEntry
entry_of none = entry
entry_of (some (k, e)) = e

opened : open_symmetric_key plain glass enc.encrypted_symmetric_key (codes "key") ≡ some bytes_32
unfolding open_symmetric_key private_to_x25519 public_to_x25519 cut_prefix
opened = refl

loaded : private_key plain anna.key_pair ≡ some (codes "key")
unfolding private_key cut_prefix
loaded = refl

found_anna : find_identity_by_id (anna ∷ []) (codes "i") ≡ some anna
unfolding find_identity_by_id text_eq
found_anna = refl

stored_sealed : sealed ≡ some (key_of sealed, entry_of sealed)
unfolding encrypt_mutation find_identity_by_id text_eq private_key cut_prefix open_symmetric_key
    private_to_x25519 public_to_x25519 sign_encrypted_event
stored_sealed = refl

never_empty :
    (message raw : Text) → plain.sign (codes "key") message ≡ some raw → is_empty raw ≡ false
never_empty message raw e = subst (λ t. is_empty t ≡ false) (some_inj e) refl

decrypt_one_example :
    (key_of sealed ≡ hash_key plain glass (codes "i") (codes "k"))
    × (decrypt_one plain glass decimal
          (codes "key")
          bytes_32
          (codes "h")
          (codes "s")
          (key_of sealed)
          (entry_of sealed)
        ≡ some (codes "k", shown_as entry))
decrypt_one_example =
    decrypt_one-encrypt_mutation plain glass decimal (anna ∷ []) anna enc (codes "key") bytes_32
      nonce (codes "h") (codes "s") (codes "k") (key_of sealed) entry (entry_of sealed) found_anna
      loaded opened refl refl never_empty refl stored_sealed

decrypt_all_example :
    Entries
      (Genuine plain glass decimal
        (codes "key")
        bytes_32
        (codes "h")
        (codes "s")
        ((key_of sealed, entry_of sealed) ∷ []))
      (decrypt_all plain glass decimal
        (codes "key")
        bytes_32
        (codes "h")
        (codes "s")
        ((key_of sealed, entry_of sealed) ∷ []))
decrypt_all_example =
    decrypt_all-Genuine plain glass decimal (codes "key") bytes_32 (codes "h") (codes "s")
      ((key_of sealed, entry_of sealed) ∷ [])

abbrev decode : Text → Option MapConfig
decode t = some (record { auto_delete_hours = 1; encryption = some enc })

abbrev configured : Store memory
configured = record empty_store {
  db =
      (codes "/h___realmMaps/state/s", state_value entry)
      ∷ (codes "/h__s/state/k", state_value entry)
      ∷ [];
}

abbrev no_subs : Subs
no_subs = record { incoming = []; groups = [] }

knows : find_group_by_id (home ∷ []) (codes "h") ≡ some home
unfolding find_group_by_id text_eq
knows = refl

is_encrypted :
    (config_for_store plain glass decimal memory decode
      (codes "h")
      (codes "s")
      configured).encryption
    ≡ some enc
unfolding config_for_store get_map lookup entries_below has_prefix cut_prefix map_id text_eq
    trim_prefix insert delete
is_encrypted = refl

away :
    Elsewhere memory
      (codes "/h__s/state/k")
      (map_id (codes "h") (codes "s"))
      (hash_key plain glass (codes "i") (codes "k"))
unfolding map_id hash_key text_eq path
away = record { no_state = refl; no_event = refl; no_meta = refl; no_index = refl }

-- An hour, as `decode` gives it.
abbrev hourly : MapConfig
hourly = record { auto_delete_hours = 1; encryption = some enc }

-- The entry of time 7 has expired.
hashed :
    Hashed plain glass decimal memory decode
      (home ∷ [])
      (anna ∷ [])
      (codes "p")
      9000000
      no_subs
      enc
      (codes "h")
      (codes "s")
      5400000
      (state_key memory (map_id (codes "h") (codes "s")) (codes "k"))
      (get_map memory (codes "h") (codes "s") configured)
      configured
unfolding get_map lookup entries_below has_prefix cut_prefix map_id text_eq trim_prefix insert
    delete path
hashed = (is_encrypted, away, tt)

sweep_config_example :
    got_in
      (sweep_config plain glass decimal memory decode
        (home ∷ [])
        (anna ∷ [])
        (codes "p")
        9000000
        no_subs
        (codes "h")
        (codes "s")
        (some hourly)
        configured).db
      (state_key memory (map_id (codes "h") (codes "s")) (codes "k"))
    ≡ got_in configured.db (state_key memory (map_id (codes "h") (codes "s")) (codes "k"))
sweep_config_example =
    sweep_config_misses plain glass decimal memory decode (home ∷ []) (anna ∷ []) (codes "p")
      9000000 no_subs enc (codes "h") (codes "s") home hourly (codes "k") configured knows hashed
