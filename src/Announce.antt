-- ===== src/Announce.antt =====
-- realm/features/announce/feature.go: what the members of a group say of themselves in its `common`
-- map, and how a peer takes it in. JSON, the instants of the clock and the relay addresses of libp2p
-- are parameters. The code reads the store of peers and then upserts, without a lock over both; here
-- nothing else writes the peer in between.
pub mod Standing
mod Examples
use foilen_box.Prelude.{
  ℕ, ◌+◌, Bool, true, false, not, ◌&&◌, ◌||◌, Option, none, some, List, [], ◌∷◌, ◌++◌, Text, codes,
  text_eq, is_empty, cut_prefix, Map, lookup, insert, ltb, leb, ◌==◌, if◌then◌else◌,
}
use foilen_box.Model.{Group, PeerInfo}
use foilen_box.Model.Replica.{MapEntry}
use foilen_box.Peers.{Peers, get, upsert}
use foilen_box.RealmMaps.{Store, get_or}
use foilen_box.RealmMaps.Database.{Datastore}
use foilen_box.RealmMaps.Reads.{get_map}

pub record PeerAnnounceInfo : Type 0 where
  pub hostname : Text
  pub description : Text
  pub addresses : List Text
  pub relay_service_enabled : Bool
  pub version : Text

abbrev pub peers_key_prefix : Text
peers_key_prefix = codes "peers/"

abbrev pub store_name : Text
store_name = codes "common"

abbrev has_slash : Text → Bool
has_slash [] = false
has_slash (c ∷ t) = c == b'/' || has_slash t

-- The peer that a key of the map announces.
unfoldable pub announced_peer : Text → Text → Option Text
announced_peer self_id key = elim (cut_prefix peers_key_prefix key) [
  | none ↦ none
  | some peer_id ↦
      if is_empty peer_id || has_slash peer_id || text_eq peer_id self_id
      then none
      else some peer_id
]

-- The announcements, and the peers that relay.
pub record Collected : Type 0 where
  pub infos : Map PeerAnnounceInfo
  pub relays : List Text

abbrev with_info : Text → PeerAnnounceInfo → Collected → Collected
with_info peer_id info c = record {
  infos = insert peer_id info c.infos;
  relays = if info.relay_service_enabled then peer_id ∷ c.relays else c.relays;
}

module _ (decode : Text → Option PeerAnnounceInfo) (unix_milli : ℕ → ℕ)
    (relay_addr : Text → Text → Option Text) (self_id : Text) where
  unfoldable pub collect : Map MapEntry → Collected
  unfolding announced_peer
  collect [] = record { infos = []; relays = [] }
  collect ((key, entry) ∷ entries) =
      let rest = collect entries in
      elim (announced_peer self_id key) [
        | none ↦ rest
        | some peer_id ↦ elim (decode entry.value) [
          | none ↦ rest
          | some info ↦ with_info peer_id info rest
        ]
      ]

  -- The addresses of a peer through the relays. A relay that does not decode gives none.
  unfoldable pub relay_addresses : Text → List Text → List Text
  relay_addresses peer_id [] = []
  relay_addresses peer_id (relay ∷ relays) =
      let rest = relay_addresses peer_id relays in
      if text_eq relay peer_id
      then rest
      else elim (relay_addr relay peer_id) [ none ↦ rest | some addr ↦ addr ∷ rest ]

  abbrev updated_of : Option MapEntry → ℕ
  updated_of none = 0
  updated_of (some e) = e.updated_at

  abbrev latest : ℕ → Option PeerInfo → ℕ
  latest seen none = seen
  latest seen (some existing) = if ltb existing.last_seen seen then seen else existing.last_seen

  abbrev groups_of : Option PeerInfo → List Text
  groups_of none = []
  groups_of (some p) = p.group_names

  abbrev is_connected : Option PeerInfo → Bool
  is_connected none = false
  is_connected (some p) = p.connected

  abbrev pub announced : Text → PeerAnnounceInfo → ℕ → List Text → Option PeerInfo → PeerInfo
  announced peer_id info seen addrs existing = record {
    id = peer_id;
    last_seen = latest seen existing;
    addresses = info.addresses ++ addrs;
    addresses_by_source = [];
    group_names = groups_of existing;
    connected = is_connected existing;
    hostname = info.hostname;
    description = info.description;
    relay_service_enabled = info.relay_service_enabled;
    version = info.version;
  }

  unfoldable pub take_in : Map MapEntry → List Text → Map PeerAnnounceInfo → Peers → Peers
  unfolding relay_addresses
  take_in entries relays [] peers = peers
  take_in entries relays ((peer_id, info) ∷ infos) peers =
      let seen = unix_milli (updated_of (lookup (peers_key_prefix ++ peer_id) entries)) in
      take_in entries relays infos (
        upsert (announced peer_id info seen (relay_addresses peer_id relays) (get peer_id peers))
          (codes "announce") peers)

  -- `shown` is what `GetMap` of realm/features/maps/feature.go shows of a map of a group.
  unfoldable pub consume_peer_info : (Text → Text → Map MapEntry) → List Group → Peers → Peers
  unfolding collect take_in
  consume_peer_info shown [] peers = peers
  consume_peer_info shown (group ∷ groups) peers =
      let entries = shown group.key_pair.id store_name in
      let c = collect entries in
      consume_peer_info shown groups (take_in entries c.relays c.infos peers)

-- When the description of this machine and that of this peer are due to be posted again.
abbrev pub spec_refresh_interval : ℕ
spec_refresh_interval = 21600000000000

abbrev pub peer_info_refresh_interval : ℕ
peer_info_refresh_interval = 86400000000000

unfoldable pub due_for_spec_post : ℕ → ℕ → Bool
due_for_spec_post last now = leb (last + spec_refresh_interval) now

-- `same` is what `reflect.DeepEqual` says of what was posted last.
unfoldable pub due_for_peer_info_post : Bool → ℕ → ℕ → Bool
due_for_peer_info_post same last now =
    if not same then true else leb (last + peer_info_refresh_interval) now
