-- ===== src/Model.antt =====
-- realm/model: the data that the parts of the realm share, and the labels shown for it. Times are
-- instants counted from the zero `time.Time`.
pub mod Labels
pub mod Replica
use foilen_box.Prelude.{
  ℕ, Bool, Option, none, some, List, [], ◌∷◌, Text, Map, text_eq, if◌then◌else◌,
}

pub record KeyPair : Type 0 where
  pub id : Text
  pub private_key_base64 : Text

pub record Group : Type 0 where
  pub name : Text
  pub key_pair : KeyPair

pub record Identity : Type 0 where
  pub name : Text
  pub key_pair : KeyPair

pub record Permission : Type 0 where
  pub action : Text
  pub peer_id : Text
  pub group_name : Text

pub record PeerInfo : Type 0 where
  pub id : Text
  pub last_seen : ℕ
  pub addresses : List Text
  pub addresses_by_source : Map (List Text)
  pub group_names : List Text
  pub connected : Bool
  pub hostname : Text
  pub description : Text
  pub relay_service_enabled : Bool
  pub version : Text

unfoldable pub find_group_by_id : List Group → Text → Option Group
find_group_by_id [] id = none
find_group_by_id (g ∷ gs) id = if text_eq g.key_pair.id id then some g else find_group_by_id gs id

unfoldable pub find_group_by_name : List Group → Text → Option Group
find_group_by_name [] name = none
find_group_by_name (g ∷ gs) name =
    if text_eq g.name name then some g else find_group_by_name gs name

unfoldable pub find_identity_by_id : List Identity → Text → Option Identity
find_identity_by_id [] id = none
find_identity_by_id (i ∷ is) id =
    if text_eq i.key_pair.id id then some i else find_identity_by_id is id

unfoldable pub find_identity_by_name : List Identity → Text → Option Identity
find_identity_by_name [] name = none
find_identity_by_name (i ∷ is) name =
    if text_eq i.name name then some i else find_identity_by_name is name
