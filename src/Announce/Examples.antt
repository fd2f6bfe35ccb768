-- ===== src/Announce/Examples.antt =====
-- A group whose members announce themselves, for realm/features/announce/feature.go.
use foilen_box.Prelude.{◌≡◌, ◌++◌, true, false, some, Option, [], ◌∷◌, Text, codes, Map}
use foilen_box.Model.{Group, PeerInfo}
use foilen_box.Model.Replica.{MapEntry}
use foilen_box.Peers.{Peers, get}
use foilen_box.Announce.{PeerAnnounceInfo, consume_peer_info}
use foilen_box.Announce.Standing.{Kept, consume_peer_info_lem}

abbrev home : Group
home = record {
  name = codes "home";
  key_pair = record { id = codes "h"; private_key_base64 = codes "key" };
}

abbrev bob : PeerInfo
bob = record {
  id = codes "bob";
  last_seen = 5;
  addresses = [];
  addresses_by_source = [];
  group_names = codes "home" ∷ [];
  connected = true;
  hostname = [];
  description = [];
  relay_service_enabled = false;
  version = [];
}

abbrev decode : Text → Option PeerAnnounceInfo
decode value = some (record {
  hostname = value;
  description = [];
  addresses = codes "a" ∷ [];
  relay_service_enabled = true;
  version = [];
})

abbrev relay_addr : Text → Text → Option Text
relay_addr relay target = some (relay ++ target)

abbrev entry : MapEntry
entry = record {
  value = codes "host";
  deleted = false;
  updated_at = 7;
  origin_peer_id = codes "bob";
  nonce = [];
  identity_signature = [];
}

abbrev shown : Text → Text → Map MapEntry
shown group_id store_name =
    (codes "peers/bob", entry) ∷ (codes "peers/anna", entry) ∷ (codes "peers/eve", entry) ∷ []

abbrev known_peers : Peers
known_peers = (codes "bob", bob) ∷ []

consume_peer_info_example :
    let after =
      consume_peer_info decode (λ n. n) relay_addr (codes "anna") shown (home ∷ []) known_peers in
    Kept (get (codes "bob") known_peers) (get (codes "bob") after)
    × (get (codes "anna") after ≡ get (codes "anna") known_peers)
consume_peer_info_example =
    consume_peer_info_lem decode (λ n. n) relay_addr (codes "anna") shown (home ∷ []) (codes "bob")
      known_peers
