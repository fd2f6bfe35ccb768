-- ===== src/Peers.antt =====
-- realm/peers/store.go: the peers that the realm knows, by id. The store is the value that
-- realm/jsondb/jsondb.go keeps; `Update` runs one function at a time on a copy of it, so an
-- operation is a function on the map. A nil map is the empty one.
pub mod Merge
pub mod Invariant
pub mod Groups
pub mod Pruning
mod Examples
use foilen_box.Prelude.{
  ℕ, Bool, true, false, not, ◌&&◌, ◌||◌, Option, none, some, List, [], ◌∷◌, ◌++◌, Text, codes, Map,
  lookup, insert, delete, map_values, text_eq, contains_text, sort_by, sort_texts, ltb, is_empty,
  if◌then◌else◌,
}
use foilen_box.Model.{PeerInfo}
use foilen_box.Model.Labels.{peer_label, short_id}

abbrev pub Peers : Type 0
Peers = Map PeerInfo

-- What reading a missing key of a Go map gives.
abbrev no_peer : PeerInfo
no_peer = record {
  id = [];
  last_seen = 0;
  addresses = [];
  addresses_by_source = [];
  group_names = [];
  connected = false;
  hostname = [];
  description = [];
  relay_service_enabled = false;
  version = [];
}

abbrev pub get_or {ℓ} : {A : Type ℓ} → A → Option A → A
get_or d none = d
get_or d (some a) = a

values : Peers → List PeerInfo
values [] = []
values ((k, p) ∷ m) = p ∷ values m

unfoldable pub list : Peers → List PeerInfo
unfolding values
list m = sort_by (λ p. p.id) (values m)

unfoldable pub get : Text → Peers → Option PeerInfo
get id m = lookup id m

unfoldable pub label : Text → Peers → Text
label id m = elim (lookup id m) [ some p ↦ peer_label p | none ↦ short_id id ]

abbrev pub address_source_priority : List Text
address_source_priority = codes "broadcast" ∷ codes "announce" ∷ codes "dht" ∷ []

abbrev pub discovered_sources : List Text
discovered_sources = codes "broadcast" ∷ codes "dht" ∷ []

-- The set `seen` and the list `merged` of `mergeAddresses`.
pub record Merged : Type 0 where
  pub seen : List Text
  pub merged : List Text

append_address : Text → Merged → Merged
append_address addr s =
    if contains_text s.seen addr
    then s
    else record { seen = addr ∷ s.seen; merged = s.merged ++ addr ∷ [] }

append_addresses : List Text → Merged → Merged
unfolding append_address
append_addresses [] s = s
append_addresses (addr ∷ rest) s = append_addresses rest (append_address addr s)

append_sources : List Text → Map (List Text) → Merged → Merged
unfolding append_addresses
append_sources [] by_source s = s
append_sources (source ∷ rest) by_source s =
    append_sources rest by_source (append_addresses (get_or [] (lookup source by_source)) s)

other_sources : Map (List Text) → List Text
other_sources [] = []
other_sources ((source, addrs) ∷ m) =
    let rest = other_sources m in
    if contains_text address_source_priority source then rest else source ∷ rest

unfoldable pub merge_addresses : Map (List Text) → List Text
unfolding append_sources other_sources
merge_addresses by_source =
    (append_sources (sort_texts (other_sources by_source)) by_source
      (append_sources address_source_priority by_source (record { seen = []; merged = [] }))).merged

-- A peer whose addresses come from `by_source`.
abbrev pub with_sources : Map (List Text) → PeerInfo → PeerInfo
with_sources by_source p = record p {
  addresses = merge_addresses by_source;
  addresses_by_source = by_source;
}

unfoldable pub upsert : PeerInfo → Text → Peers → Peers
upsert info source m =
    let existing = get_or no_peer (lookup info.id m) in
    if is_empty source
    then insert info.id
        (record info {
          addresses = existing.addresses;
          addresses_by_source = existing.addresses_by_source;
        })
        m
    else insert info.id
        (with_sources (insert source info.addresses existing.addresses_by_source) info) m

-- The shape of the operations on one peer: nothing happens to an unknown id.
unfoldable pub update_peer : (PeerInfo → PeerInfo) → Text → Peers → Peers
update_peer f id m = elim (lookup id m) [ none ↦ m | some p ↦ insert id (f p) m ]

set_connected_on : Bool → ℕ → PeerInfo → PeerInfo
set_connected_on connected now p =
    if connected
    then record p { connected = connected; last_seen = now }
    else record p { connected = connected }

unfoldable pub set_connected : Bool → ℕ → Text → Peers → Peers
unfolding update_peer set_connected_on
set_connected connected now = update_peer (set_connected_on connected now)

unfoldable pub set_hostname_description : Text → Text → Bool → Text → Text → Peers → Peers
unfolding update_peer
set_hostname_description hostname description relay version = update_peer (λ p. record p {
  hostname = hostname;
  description = description;
  relay_service_enabled = relay;
  version = version;
})

unfoldable pub set_announced_addresses : List Text → Text → Peers → Peers
unfolding update_peer
set_announced_addresses addrs =
    update_peer (λ p. with_sources (insert (codes "announce") addrs p.addresses_by_source) p)

delete_sources : List Text → Map (List Text) → Map (List Text)
delete_sources [] m = m
delete_sources (source ∷ rest) m = delete_sources rest (delete source m)

clear_discovered : PeerInfo → PeerInfo
unfolding delete_sources
clear_discovered p = with_sources (delete_sources discovered_sources p.addresses_by_source) p

abbrev is_some {ℓ} : {A : Type ℓ} → Option A → Bool
is_some none = false
is_some (some a) = true

-- The result says whether the peer was found.
unfoldable pub clear_discovered_addresses : Text → Peers → Peers × Bool
unfolding update_peer clear_discovered
clear_discovered_addresses id m = (update_peer clear_discovered id m, is_some (lookup id m))

unfoldable pub clear_all_discovered_addresses : Peers → Peers
unfolding clear_discovered
clear_all_discovered_addresses = map_values (λ id p. clear_discovered p)

unfoldable pub add_group_name : Text → Text → Peers → Peers
unfolding update_peer
add_group_name name = update_peer (λ p.
    if contains_text p.group_names name
    then p
    else record p { group_names = p.group_names ++ name ∷ [] })

without : Text → List Text → List Text
without name [] = []
without name (g ∷ gs) = let rest = without name gs in if text_eq g name then rest else g ∷ rest

unfoldable pub remove_group_name : Text → Peers → Peers
unfolding without
remove_group_name name = map_values (λ id p. record p { group_names = without name p.group_names })

pub is_stale : ℕ → PeerInfo → Bool
is_stale cutoff p = not (p.connected || not (ltb p.last_seen cutoff))

-- The peers that stay, and those that were removed.
unfoldable pub prune_stale : ℕ → Peers → Peers × List PeerInfo
unfolding is_stale
prune_stale cutoff [] = ([], [])
prune_stale cutoff ((id, p) ∷ m) =
    let (kept, removed) = prune_stale cutoff m in
    if is_stale cutoff p then (kept, p ∷ removed) else ((id, p) ∷ kept, removed)

pub removable : Option PeerInfo → Bool
removable none = false
removable (some p) = not p.connected

unfoldable pub remove : Text → Peers → Peers × Bool
unfolding removable
remove id m = if removable (lookup id m) then (delete id m, true) else (m, false)

unfoldable pub reset_all_connected : Peers → Peers
reset_all_connected = map_values (λ id p. record p { connected = false })
