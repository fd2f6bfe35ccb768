-- ===== src/Peers/Examples.antt =====
-- Small stores of realm/peers/store.go, before and after an operation.
use foilen_box.Prelude.{
  ◌≡◌, refl, false, some, List, [], ◌∷◌, Text, codes, Map, lookup, text_eq, contains_text, sort_by,
}
use foilen_box.Model.{PeerInfo}
use foilen_box.Peers.{Peers, merge_addresses}
use foilen_box.Peers.Invariant.{IsValid, adds_group, apply, apply-IsValid}

abbrev sources : Map (List Text)
sources =
    (codes "mdns", codes "m" ∷ [])
    ∷ (codes "dht", codes "x" ∷ codes "y" ∷ [])
    ∷ (codes "announce", codes "x" ∷ [])
    ∷ []

abbrev anna : PeerInfo
anna = record {
  id = codes "anna";
  last_seen = 5;
  addresses = [];
  addresses_by_source = [];
  group_names = codes "home" ∷ [];
  connected = false;
  hostname = [];
  description = [];
  relay_service_enabled = false;
  version = [];
}

abbrev one_peer : Peers
one_peer = (codes "anna", anna) ∷ []

one_peer-IsValid : IsValid one_peer
unfolding merge_addresses lookup sort_by contains_text
one_peer-IsValid = (record { keyed = refl; merged = refl; groups = (refl, tt) }, tt)

apply-IsValid_example : IsValid (apply (adds_group (codes "work") (codes "anna")) one_peer)
apply-IsValid_example =
    apply-IsValid (adds_group (codes "work") (codes "anna")) one_peer tt one_peer-IsValid

finds_anna : lookup (codes "anna") one_peer ≡ some anna
unfolding lookup text_eq
finds_anna = refl
