-- ===== src/Model/Replica.antt =====
-- realm/model/map.go: the entries, events and changes of the replicated maps. Timestamps are Unix
-- milliseconds, which are not negative.
use foilen_box.Prelude.{ℕ, Bool, Option, Text}

pub record MapEntry : Type 0 where
  pub value : Text
  pub deleted : Bool
  pub updated_at : ℕ
  pub origin_peer_id : Text
  pub nonce : Text
  pub identity_signature : Text

pub record MapEvent : Type 0 where
  pub group_id : Text
  pub store_name : Text
  pub key : Text
  pub value : Text
  pub deleted : Bool
  pub updated_at : ℕ
  pub origin_peer_id : Text
  pub nonce : Text
  pub identity_signature : Text

pub data ChangeType : Type 0 where
  entry_added entry_updated entry_deleted : ChangeType

pub record ChangeEvent : Type 0 where
  pub group_id : Text
  pub store_name : Text
  pub type : ChangeType
  pub key : Text
  pub old : Option MapEntry
  pub new : Option MapEntry
