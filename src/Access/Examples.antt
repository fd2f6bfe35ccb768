-- ===== src/Access/Examples.antt =====
-- Small configurations for realm/relay.go, realm/peers_helper.go and realm/group_challenge.go.
use foilen_box.Prelude.{
  ◌≡◌, ◌↔◌, refl, true, false, ◌&&◌, ◌||◌, some, [], ◌∷◌, ◌++◌, Text, codes, text_eq, lookup,
}
use foilen_box.Model.{Group, KeyPair, Permission, PeerInfo, find_group_by_id}
use foilen_box.Peers.{Peers, add_group_name}
use foilen_box.Peers.Groups.{is_member, known}
use foilen_box.Access.KeyPairs.{private_key, from_private_key}
use foilen_box.Access.Plain.{plain}
use foilen_box.Access.Permissions.{Listed, Names, is_allowed_iff}
use foilen_box.Access.Challenge.{challenge_group-handle, convinces, is_member-challenge_group}
use foilen_box.Access.{
  Request, signed, is_allowed, sign_answer, challenge_hash, handle_group_challenge,
  challenge_request, challenge_group,
}

abbrev home : Group
home = record {
  name = codes "home";
  key_pair = record { id = codes "h"; private_key_base64 = codes "key" };
}

abbrev anna : PeerInfo
anna = record {
  id = codes "anna";
  last_seen = 0;
  addresses = [];
  addresses_by_source = [];
  group_names = codes "home" ∷ [];
  connected = true;
  hostname = [];
  description = [];
  relay_service_enabled = false;
  version = [];
}

abbrev peers : Peers
peers = (codes "anna", anna) ∷ []

abbrev permission : Permission
permission = record { action = codes "run"; peer_id = []; group_name = codes "home" }

is_allowed_iff_example :
    (is_allowed (permission ∷ []) peers (codes "anna") (codes "run") ≡ true)
    ↔ ((p : Permission) × Listed p (permission ∷ []) × Names peers (codes "anna") (codes "run") p)
is_allowed_iff_example = is_allowed_iff (permission ∷ []) peers (codes "anna") (codes "run")

abbrev request : Request
request = challenge_request (codes "me") (codes "anna") (codes "7") home

abbrev reply : Text
reply = codes "key" ++ challenge_hash plain request

finds_home : find_group_by_id (home ∷ []) (codes "h") ≡ some home
unfolding find_group_by_id text_eq
finds_home = refl

answers : handle_group_challenge plain (codes "anna") (home ∷ []) request ≡ signed reply
unfolding handle_group_challenge sign_answer find_group_by_id text_eq private_key
answers = refl

challenge_group-handle_example :
    challenge_group plain (codes "me") (codes "anna") (codes "7") home (some reply) peers
    ≡ (add_group_name (codes "home") (codes "anna") peers, true)
challenge_group-handle_example =
    challenge_group-handle plain (codes "me") (codes "anna") (codes "7") reply home home (home ∷ [])
      peers finds_home refl answers

is_member-challenge_group_example :
    ((challenge_group plain (codes "me") (codes "anna") (codes "7") home (some reply) peers).1
      ≡ convinces plain home request (some reply))
    × (is_member
          (codes "anna")
          (codes "home")
          (challenge_group plain (codes "me") (codes "anna") (codes "7") home (some reply) peers).0
        ≡ (is_member (codes "anna") (codes "home") peers
            || (convinces plain home request (some reply)
                && known (lookup (codes "anna") peers)
                && text_eq (codes "anna") (codes "anna")
                && text_eq (codes "home") (codes "home"))))
is_member-challenge_group_example =
    is_member-challenge_group plain (codes "me") (codes "anna") (codes "7") (codes "anna")
      (codes "home") home (some reply) peers

abbrev pair : KeyPair
pair = record { id = codes "key"; private_key_base64 = codes "key" }

makes_pair : from_private_key plain (codes "key") ≡ some pair
unfolding from_private_key
makes_pair = refl
