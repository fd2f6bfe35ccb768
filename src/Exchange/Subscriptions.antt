-- ===== src/Exchange/Subscriptions.antt =====
-- Who is sent which map: the subscriptions of realm/features/maps/feature.go, those that other peers
-- have here and those asked of them. A message to a peer is part of the result.
-- `reconcileDesiredStores` takes and releases the lock several times, with the messages in between;
-- here it is one step, as when nothing else changes the subscriptions and the peers meanwhile.
pub mod Incoming
pub mod Claims
pub mod Reconciling
use foilen_box.Prelude.{
  ℕ, Bool, true, false, not, ◌&&◌, Option, none, some, List, [], ◌∷◌, ◌++◌, Text, codes, text_eq,
  contains_text, Map, lookup, insert, delete, map_values, set_add, set_remove, ltb, if◌then◌else◌,
}
use foilen_box.Model.{Group, PeerInfo, find_group_by_id}
use foilen_box.Model.Replica.{MapEntry, ChangeEvent}
use foilen_box.Peers.{Peers, get}
use foilen_box.RealmMaps.{Store, get_or}
use foilen_box.RealmMaps.Database.{Datastore}
use foilen_box.RealmMaps.Reads.{get_map, delete_map}

pub record GroupSubs : Type 0 where
  pub initialized : List Text
  pub desired : List Text
  pub subscribed : Map (List Text)

-- `incoming` has the subscribers by group and store.
pub record Subs : Type 0 where
  pub incoming : Map (Map (List Text))
  pub groups : Map GroupSubs

abbrev pub new_group_subs : GroupSubs
new_group_subs = record { initialized = []; desired = []; subscribed = [] }

abbrev pub group_subs_for : Text → Subs → GroupSubs
group_subs_for group_id s = get_or new_group_subs (lookup group_id s.groups)

abbrev pub put_group : Text → GroupSubs → Subs → Subs
put_group group_id gs s = record s { groups = insert group_id gs s.groups }

unfoldable pub add_incoming_sub : Text → Text → Text → Subs → Subs
add_incoming_sub group_id store_name peer_id s =
    let by_store = get_or [] (lookup group_id s.incoming) in
    let peers = get_or [] (lookup store_name by_store) in
    record s {
      incoming = insert group_id (insert store_name (set_add peer_id peers) by_store) s.incoming;
    }

unfoldable pub remove_incoming_sub : Text → Text → Text → Subs → Subs
remove_incoming_sub group_id store_name peer_id s = elim (lookup group_id s.incoming) [
  | none ↦ s
  | some by_store ↦ elim (lookup store_name by_store) [
    | none ↦ s
    | some peers ↦ record s {
      incoming = insert group_id (insert store_name (set_remove peer_id peers) by_store) s.incoming;
    }
  ]
]

unfoldable pub incoming_subscribers : Text → Text → Subs → List Text
incoming_subscribers group_id store_name s =
    get_or [] (lookup store_name (get_or [] (lookup group_id s.incoming)))

abbrev forget_in_stores : Text → Map (List Text) → Map (List Text)
forget_in_stores peer_id = map_values (λ store_name peers. set_remove peer_id peers)

abbrev forget_in_group : Text → GroupSubs → GroupSubs
forget_in_group peer_id gs = record gs {
  initialized = set_remove peer_id gs.initialized;
  subscribed = forget_in_stores peer_id gs.subscribed;
}

unfoldable pub on_peer_disconnected : Text → Subs → Subs
on_peer_disconnected peer_id s = record s {
  groups = map_values (λ id gs. forget_in_group peer_id gs) s.groups;
  incoming = map_values (λ id by_store. forget_in_stores peer_id by_store) s.incoming;
}

unfoldable pub handle_unsubscribe : Text → Text → List Text → Subs → Subs
handle_unsubscribe peer_id group_id [] s = s
handle_unsubscribe peer_id group_id (name ∷ names) s =
    handle_unsubscribe peer_id group_id names (remove_incoming_sub group_id name peer_id s)

-- The recipients of `broadcastExcept`, before their identifiers are decoded.
unfoldable pub recipients : Text → Text → Text → Subs → List Text
unfolding incoming_subscribers
recipients group_id store_name except s =
    set_remove except (incoming_subscribers group_id store_name s)

-- The subscriptions that are not claimed yet, claimed for the peer.
unfoldable pub claim_stores : Text → List Text → Map (List Text) → Map (List Text) × List Text
claim_stores peer_id [] subscribed = (subscribed, [])
claim_stores peer_id (name ∷ names) subscribed =
    let peers = get_or [] (lookup name subscribed) in
    let (after, to_ask) =
      claim_stores peer_id names (insert name (set_add peer_id peers) subscribed) in
    (after, if contains_text peers peer_id then to_ask else name ∷ to_ask)

unfoldable pub claim_stores_to_subscribe : Text → Text → List Text → Subs → Subs × List Text
unfolding claim_stores
claim_stores_to_subscribe group_id peer_id names s =
    let gs = group_subs_for group_id s in
    let (after, to_ask) = claim_stores peer_id names gs.subscribed in
    (put_group group_id (record gs { subscribed = after }) s, to_ask)

abbrev pub system_config_store_name : Text
system_config_store_name = codes "_realmMaps"

-- The start of `onPeerAvailable`: the stores that a new peer is asked for.
unfoldable pub peer_available : Text → Text → Subs → Subs × List Text
unfolding claim_stores_to_subscribe
peer_available group_id peer_id s =
    let gs = group_subs_for group_id s in
    if contains_text gs.initialized peer_id
    then (s, [])
    else claim_stores_to_subscribe group_id peer_id (codes "common" ∷ system_config_store_name ∷ [])
        (put_group group_id (record gs { initialized = set_add peer_id gs.initialized }) s)

abbrev pub is_reachable : (Text → Bool) → Peers → Text → Bool
is_reachable decodes peers id = elim (get id peers) [
  | none ↦ false
  | some info ↦ info.connected && decodes id
]

abbrev pub ask_for : Text → List Text → List (Text × List Text) → List (Text × List Text)
ask_for peer [] asked = asked
ask_for peer (name ∷ names) asked = (peer, name ∷ names) ∷ asked

-- The requests to the peers that are connected, each for the stores it has not been asked for.
unfoldable pub claim_from :
    (Text → Bool) → Text → List Text → List Text → Subs → Subs × List (Text × List Text)
unfolding claim_stores_to_subscribe
claim_from reachable group_id [] names s = (s, [])
claim_from reachable group_id (peer ∷ peers) names s =
    let (t, to_ask) = claim_stores_to_subscribe group_id peer names s in
    let (u, asked) = claim_from reachable group_id peers names t in
    let skipped = claim_from reachable group_id peers names s in
    if reachable peer then (u, ask_for peer to_ask asked) else skipped

without_all : List Text → List Text → List Text
without_all kept [] = []
without_all kept (x ∷ xs) =
    let rest = without_all kept xs in if contains_text kept x then rest else x ∷ rest

delete_all : List Text → Map (List Text) → Map (List Text)
delete_all [] m = m
delete_all (x ∷ xs) m = delete_all xs (delete x m)

unfoldable pub keep_reachable : (Text → Bool) → List Text → List Text
keep_reachable reachable [] = []
keep_reachable reachable (p ∷ ps) =
    let rest = keep_reachable reachable ps in if reachable p then p ∷ rest else rest

abbrev pub told : List Text → List Text → List Text
told [] peers = []
told (name ∷ names) peers = peers

pub names_in : Map MapEntry → List Text
names_in [] = []
names_in ((name, e) ∷ m) = name ∷ names_in m

module _ (d : Datastore) where
  -- What a reconciliation does: the requests, who is told that which stores are given up, and the
  -- maps that are left.
  pub record Reconciled : Type 0 where
    pub subs : Subs
    pub asked : List (Text × List Text)
    pub unsubscribed : List Text
    pub removed : List Text
    pub store : Store d

  purge : Text → List Text → Store d → Store d
  purge group_id [] s = s
  purge group_id (name ∷ names) s = purge group_id names (delete_map d group_id name s).0

  reconcile_group : (Text → Bool) → Text → List Text → Subs → Store d → Reconciled
  unfolding claim_from without_all delete_all keep_reachable purge
  reconcile_group reachable group_id desired s store =
      let gs = group_subs_for group_id s in
      let removed = without_all desired gs.desired in
      let wanting = put_group group_id (record gs { desired = desired }) s in
      let (t, asked) = claim_from reachable group_id gs.initialized desired wanting in
      let after = group_subs_for group_id t in
      record {
        subs =
            put_group group_id (record after { subscribed = delete_all removed after.subscribed })
              t;
        asked = asked;
        unsubscribed = told removed (keep_reachable reachable gs.initialized);
        removed = removed;
        store = purge group_id removed store;
      }

  pub reconcile_desired_stores :
      (Text → Bool) → Peers → List Group → Text → Subs → Store d → Reconciled
  unfolding reconcile_group names_in
  reconcile_desired_stores decodes peers groups group_id s store =
      elim (find_group_by_id groups group_id) [
        | none ↦ record { subs = s; asked = []; unsubscribed = []; removed = []; store = store }
        | some group ↦
            reconcile_group (is_reachable decodes peers) group_id
              (names_in (get_map d group_id system_config_store_name store)) s store
      ]

  -- The listener of the store.
  pub on_store_change :
      (Text → Bool) → Peers → List Group → ChangeEvent → Subs → Store d → Reconciled
  unfolding reconcile_desired_stores
  on_store_change decodes peers groups ev s store =
      if text_eq ev.store_name system_config_store_name
      then reconcile_desired_stores decodes peers groups ev.group_id s store
      else record { subs = s; asked = []; unsubscribed = []; removed = []; store = store }

  pub on_peer_available :
      (Text → Bool) → Peers → List Group → Text → Text → Subs → Store d → Reconciled
  unfolding peer_available reconcile_desired_stores
  on_peer_available decodes peers groups group_id peer_id s store =
      let (t, initial) = peer_available group_id peer_id s in
      let r = reconcile_desired_stores decodes peers groups group_id t store in
      if contains_text (group_subs_for group_id s).initialized peer_id
      then record { subs = s; asked = []; unsubscribed = []; removed = []; store = store }
      else record r { asked = ask_for peer_id initial r.asked }
