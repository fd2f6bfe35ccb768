-- ===== src/Access.antt =====
-- Who may do what: realm/relay.go, the helpers on groups in realm/peers_helper.go, and the proof of
-- membership in realm/group_challenge.go. The engine's configuration and its store of peers are
-- arguments; an operation that writes the store returns it.
pub mod KeyPairs
pub mod Plain
pub mod Permissions
pub mod Membership
pub mod Challenge
mod Examples
use foilen_box.Prelude.{
  ℕ, Bool, true, false, not, ◌&&◌, ◌||◌, Option, none, some, List, [], ◌∷◌, ◌++◌, Text, codes,
  text_eq, contains_text, is_empty, if◌then◌else◌,
}
use foilen_box.Model.{Group, KeyPair, Permission, PeerInfo, find_group_by_id}
use KeyPairs.{Crypto, private_key}
use foilen_box.Peers.{Peers, get, add_group_name, remove_group_name}

any_name : Text → List Text → Bool
any_name name [] = false
any_name name (gn ∷ names) = text_eq gn name || any_name name names

unfoldable pub has_common_group : List Text → List Group → Bool
unfolding any_name
has_common_group group_names [] = false
has_common_group group_names (g ∷ groups) =
    any_name g.name group_names || has_common_group group_names groups

unfoldable pub peer_in_common_group : List Group → Peers → Text → Bool
unfolding has_common_group
peer_in_common_group groups peers id = elim (get id peers) [
  | none ↦ false
  | some info ↦ has_common_group info.group_names groups
]

names_of : Option PeerInfo → List Text
names_of none = []
names_of (some info) = info.group_names

-- The body of the loop of `isAllowed`; an unknown peer has no groups.
unfoldable pub grants : Peers → Text → Text → Permission → Bool
unfolding any_name names_of
grants peers id action p =
    if not (text_eq p.action action)
    then false
    else if not (is_empty p.peer_id) && text_eq p.peer_id id
    then true
    else not (is_empty p.group_name) && any_name p.group_name (names_of (get id peers))

unfoldable pub is_allowed : List Permission → Peers → Text → Text → Bool
unfolding grants
is_allowed [] peers id action = false
is_allowed (p ∷ perms) peers id action =
    grants peers id action p || is_allowed perms peers id action

abbrev pub group_key : Group → Text
group_key group = group.key_pair.private_key_base64

abbrev pub group_names_of : List Group → List Text
group_names_of [] = []
group_names_of (g ∷ groups) = g.name ∷ group_names_of groups

abbrev pub group_keys_of : List Group → List Text
group_keys_of [] = []
group_keys_of (g ∷ groups) = group_key g ∷ group_keys_of groups

remove_missing : List Text → List Group → Peers → Peers
remove_missing still_present [] peers = peers
remove_missing still_present (g ∷ groups) peers =
    remove_missing still_present groups
      (if contains_text still_present g.name then peers else remove_group_name g.name peers)

unfoldable pub prune_removed_groups : List Group → List Group → Peers → Peers
unfolding remove_missing
prune_removed_groups prev_groups new_groups = remove_missing (group_names_of new_groups) prev_groups

keep_new : List Text → List Group → List Group
keep_new prev_keys [] = []
keep_new prev_keys (g ∷ groups) =
    let rest = keep_new prev_keys groups in
    if contains_text prev_keys (group_key g) then rest else g ∷ rest

unfoldable pub added_group_keys : List Group → List Group → List Group
unfolding keep_new
added_group_keys prev_groups new_groups = keep_new (group_keys_of prev_groups) new_groups

pub record Request : Type 0 where
  pub requester_id : Text
  pub responder_id : Text
  pub group_id : Text
  pub nonce : Text

-- What the responder writes back, or why it writes nothing.
pub data Answer : Type 0 where
  signed : Text → Answer
  not_for_us unknown_group no_key no_signature : Answer

abbrev pub challenge_request : Text → Text → Text → Group → Request
challenge_request self_id remote nonce group = record {
  requester_id = self_id;
  responder_id = remote;
  group_id = group.key_pair.id;
  nonce = nonce;
}

module _ (crypto : Crypto) where
  open crypto use {md5, get_public, sign, verify, encode_base64, decode_base64}

  pub challenge_hash : Request → Text
  challenge_hash req = md5 (
      req.requester_id
      ++ (codes "|"
          ++ (req.responder_id ++ (codes "|" ++ (req.group_id ++ (codes "|" ++ req.nonce))))))

  sign_answer : Group → Request → Answer
  sign_answer group req = elim (private_key crypto group.key_pair) [
    | none ↦ no_key
    | some priv ↦ elim (sign priv (challenge_hash req)) [
      | none ↦ no_signature
      | some sig ↦ signed (encode_base64 sig)
    ]
  ]

  pub handle_group_challenge : Text → List Group → Request → Answer
  unfolding sign_answer
  handle_group_challenge self_id groups req =
      if not (text_eq req.responder_id self_id)
      then not_for_us
      else elim (find_group_by_id groups req.group_id) [
        | none ↦ unknown_group
        | some group ↦ sign_answer group req
      ]

  abbrev is_verified : Option Bool → Bool
  is_verified none = false
  is_verified (some ok) = ok

  pub verify_group_challenge : Group → Request → Text → Bool
  verify_group_challenge group req sig_base64 = elim (decode_base64 sig_base64) [
    | none ↦ false
    | some sig ↦ elim (private_key crypto group.key_pair) [
      | none ↦ false
      | some priv ↦ is_verified (verify (get_public priv) (challenge_hash req) sig)
    ]
  ]

  -- `challengeGroup`, where `reply` is the signature that was read from the stream, if one was. The
  -- result says whether the hooks for a confirmed group are called.
  pub challenge_group : Text → Text → Text → Group → Option Text → Peers → Peers × Bool
  unfolding verify_group_challenge
  challenge_group self_id remote nonce group none peers = (peers, false)
  challenge_group self_id remote nonce group (some sig) peers =
      if verify_group_challenge group (challenge_request self_id remote nonce group) sig
      then (add_group_name group.name remote peers, true)
      else (peers, false)
