-- ===== src/Exchange.antt =====
-- How the replicated maps travel: the bytes of an event that are signed, in realm/model/map.go, and
-- the signing, the check and the reception of an event in realm/features/maps/feature.go, over the
-- store of RealmMaps and the keys of Access.
pub mod Signatures
pub mod Reception
pub mod Subscriptions
pub mod Responses
pub mod Encryption
pub mod Editing
mod Examples
use foilen_box.Prelude.{
  ℕ, Bool, true, false, Option, none, some, List, [], ◌∷◌, ◌++◌, Text, codes, if◌then◌else◌,
}
use foilen_box.Model.{Group, find_group_by_id}
use foilen_box.Model.Replica.{MapEntry, MapEvent}
use foilen_box.RealmMaps.{Store, Applied, apply_failed, ignored, applied, apply_event}
use foilen_box.RealmMaps.Database.{Datastore}
use foilen_box.Access.KeyPairs.{Crypto, private_key}

-- The texts with a bar between each two.
abbrev pub with_bars : List Text → Text
with_bars [] = []
with_bars (t ∷ []) = t
with_bars (t ∷ u ∷ ts) = t ++ (codes "|" ++ with_bars (u ∷ ts))

deleted_code : Bool → Text
deleted_code true = codes "1"
deleted_code false = codes "0"

pub record Envelope : Type 0 where
  pub event : MapEvent
  pub signature : Text

-- `decimal` is the `%d` of fmt.
module _ (decimal : ℕ → Text) where
  pub signing_bytes : MapEvent → Text
  unfolding deleted_code
  signing_bytes e = with_bars (
      e.group_id
      ∷ e.store_name
      ∷ e.key
      ∷ e.value
      ∷ e.nonce
      ∷ deleted_code e.deleted
      ∷ decimal e.updated_at
      ∷ e.origin_peer_id
      ∷ e.identity_signature
      ∷ [])

  pub encrypted_signing_bytes : MapEvent → Text
  unfolding deleted_code
  encrypted_signing_bytes e = with_bars (
      e.group_id
      ∷ e.store_name
      ∷ e.key
      ∷ e.value
      ∷ e.nonce
      ∷ deleted_code e.deleted
      ∷ decimal e.updated_at
      ∷ e.origin_peer_id
      ∷ [])

  module _ (crypto : Crypto) where
    open crypto use {get_public, sign, verify}

    -- `none` where it fails.
    pub sign_event : Group → MapEvent → Option Envelope
    sign_event group ev = elim (private_key crypto group.key_pair) [
      | none ↦ none
      | some priv ↦ elim (sign priv (signing_bytes ev)) [
        | none ↦ none
        | some sig ↦ some (record { event = ev; signature = sig })
      ]
    ]

    abbrev is_ok : Option Bool → Bool
    is_ok none = false
    is_ok (some ok) = ok

    pub verify_bytes : Group → Text → Text → Bool
    verify_bytes group bytes signature = elim (private_key crypto group.key_pair) [
      | none ↦ false
      | some priv ↦ is_ok (verify (get_public priv) bytes signature)
    ]

    pub verify_event : Group → Envelope → Bool
    unfolding verify_bytes
    verify_event group env = verify_bytes group (signing_bytes env.event) env.signature

    module _ (d : Datastore) where
      outcome_of : Applied d → Store d × Bool
      outcome_of (apply_failed t) = (t, false)
      outcome_of (ignored t) = (t, false)
      outcome_of (applied t changed change) = (t, changed)

      abbrev pub entry_of : MapEvent → MapEntry
      entry_of e = record {
        value = e.value;
        deleted = e.deleted;
        updated_at = e.updated_at;
        origin_peer_id = e.origin_peer_id;
        nonce = e.nonce;
        identity_signature = e.identity_signature;
      }

      -- The effect of an event on the store, and whether the content changed.
      pub taken_in : MapEvent → Store d → Store d × Bool
      unfolding outcome_of
      taken_in e s = outcome_of (apply_event d e.group_id e.store_name e.key (entry_of e) s)

      pub apply_verified : Group → Envelope → Store d → Store d × Bool
      unfolding taken_in
      apply_verified group env s =
          if verify_event group env then taken_in env.event s else (s, false)

      -- `handlePushStream` once the envelope is decoded; the result says whether the event is sent on
      -- to the other subscribers.
      pub handle_push : List Group → Envelope → Store d → Store d × Bool
      unfolding apply_verified
      handle_push groups env s = elim (find_group_by_id groups env.event.group_id) [
        | none ↦ (s, false)
        | some group ↦ apply_verified group env s
      ]
