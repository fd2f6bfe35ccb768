-- ===== src/Ring.antt =====
-- realm/connection_ring.go: the members of a group stand on a ring, in the order of their ids, and
-- each keeps a connection to its nearest neighbours on both sides.
pub mod Order
pub mod Connecting
mod Examples
use foilen_box.Prelude.{
  ℕ, zero, suc, ◌+◌, ◌-◌, ◌%◌, Bool, true, false, ◌||◌, Option, none, some, List, [], ◌∷◌, Text,
  map_option, length, take, get_elem?, text_eq, contains_text, sort_texts, ltb, leb, is_empty,
  if◌then◌else◌,
}
use foilen_box.Model.{PeerInfo, Group}
use foilen_box.Peers.{Peers, get}

abbrev pub ring_neighbor_count : ℕ
ring_neighbor_count = 2

members_among : List PeerInfo → Text → List Text
members_among [] group_name = []
members_among (info ∷ known) group_name =
    let rest = members_among known group_name in
    if contains_text info.group_names group_name then info.id ∷ rest else rest

unfoldable pub ring_member_ids : List PeerInfo → Text → Text → List Text
unfolding members_among
ring_member_ids known group_name self_id = sort_texts (self_id ∷ members_among known group_name)

-- The `dir` of -1 or 1.
pub data Direction : Type 0 where
  backward forward : Direction

-- `idx = (idx + dir + n) % n`, where `n` is not 0.
unfoldable pub step_index : ℕ → Direction → ℕ → ℕ
step_index n backward idx = (idx + n - 1) % n
step_index n forward idx = (idx + 1 + n) % n

-- The rest of the loop, `left` turns of it; `none` is a panic, for an index out of range.
unfoldable pub order_from : ℕ → Direction → ℕ → List Text → Option (List Text)
unfolding step_index
order_from zero dir idx members = some []
order_from (suc left) dir idx members =
    let next = step_index (length members) dir idx in
    let rest = order_from left dir next members in
    elim (get_elem? members next) [ none ↦ none | some id ↦ map_option (◌∷◌ id) rest ]

unfoldable pub ring_candidate_order : List Text → ℕ → Direction → Option (List Text)
unfolding order_from
ring_candidate_order members self_idx dir = order_from (length members - 1) dir self_idx members

-- `none` is the -1 of the source.
unfoldable pub index_of_string : List Text → Text → Option ℕ
index_of_string [] v = none
index_of_string (s ∷ list) v =
    let rest = index_of_string list v in if text_eq s v then some 0 else map_option suc rest

abbrev nearest : Option (List Text) → List Text
nearest none = []
nearest (some candidates) = take ring_neighbor_count candidates

-- The body of the loop over the groups in `isRingNeighbor`, on the ring of one group.
unfoldable pub is_neighbor_on : List Text → Text → Text → Bool
is_neighbor_on members self_id id = elim (index_of_string members self_id) [
  | none ↦ false
  | some self_idx ↦
      if ltb (length members) 2
      then false
      else contains_text (nearest (ring_candidate_order members self_idx backward)) id
        || contains_text (nearest (ring_candidate_order members self_idx forward)) id
]

is_neighbor_in : List Group → List PeerInfo → Text → Text → Bool
unfolding is_neighbor_on
is_neighbor_in [] known self_id id = false
is_neighbor_in (group ∷ groups) known self_id id =
    is_neighbor_on (ring_member_ids known group.name self_id) self_id id
    || is_neighbor_in groups known self_id id

-- An engine without a host has the empty id.
unfoldable pub is_ring_neighbor : List Group → List PeerInfo → Text → Text → Bool
unfolding is_neighbor_in
is_ring_neighbor groups known self_id id =
    if is_empty self_id then false else is_neighbor_in groups known self_id id

-- The host of libp2p: how it reads ids and addresses, whom it is connected to, and whether a dial
-- succeeds.
pub record Network : Type 1 where
  pub Pid : Type 0
  pub Addr : Type 0
  pub decode : Text → Option Pid
  pub connected : Pid → Bool
  pub parse : List Text → List Addr
  pub dial : Pid → List Addr → Bool

module _ (net : Network) where
  open net use {Pid, Addr, decode, connected, parse, dial}

  abbrev dial_some : Pid → List Addr → Bool
  dial_some pid [] = false
  dial_some pid (a ∷ addrs) = dial pid (a ∷ addrs)

  -- One turn of the loop: whether the candidate is found.
  pub reached : Peers → Text → Bool
  reached peers candidate = elim (decode candidate) [
    | none ↦ false
    | some pid ↦ if connected pid then true else elim (get candidate peers) [
      | none ↦ false
      | some info ↦ dial_some pid (parse info.addresses)
    ]
  ]

  -- The candidates of the loop from here on; the list of the second result names those that were
  -- tried.
  pub connect_from : ℕ → Peers → List Text → ℕ → List Text × List Text
  unfolding reached
  connect_from want peers [] found = ([], [])
  connect_from want peers (candidate ∷ candidates) found =
      let hit = connect_from want peers candidates (suc found) in
      let missed = connect_from want peers candidates found in
      if leb want found
      then ([], [])
      else if reached peers candidate
      then (candidate ∷ hit.0, candidate ∷ hit.1)
      else (missed.0, candidate ∷ missed.1)

  pub connect_ring_candidates : Peers → List Text → ℕ → List Text × List Text
  unfolding connect_from
  connect_ring_candidates peers candidates want = connect_from want peers candidates 0
