-- ===== src/Exchange/Responses.antt =====
-- A subscription on both sides, in realm/features/maps/feature.go: what `handleSubscribeStream` answers
-- and what `subscribeToPeer` does with the answer.
pub mod Members
pub mod Advancing
mod Examples
use foilen_box.Prelude.{
  ℕ, Bool, true, false, Option, none, some, List, [], ◌∷◌, ◌++◌, Text, contains_text, Map, lookup,
  insert, ltb, if◌then◌else◌,
}
use foilen_box.Model.{Group, PeerInfo, find_group_by_id}
use foilen_box.Model.Replica.{MapEvent}
use foilen_box.Peers.{Peers, get}
use foilen_box.Access.KeyPairs.{Crypto}
use foilen_box.RealmMaps.{Store, get_or, last_from_peer, record_from_peer}
use foilen_box.RealmMaps.Database.{Datastore}
use foilen_box.RealmMaps.Reads.{events_since}
use foilen_box.Exchange.{Envelope, sign_event, apply_verified}
use foilen_box.Exchange.Subscriptions.{Subs, add_incoming_sub}

-- `maxTsByStore`, which the loop over the events fills.
unfoldable pub max_times : List Envelope → Map ℕ → Map ℕ
max_times [] m = m
max_times (env ∷ envs) m =
    let name = env.event.store_name in
    let ts = env.event.updated_at in
    max_times envs (if ltb (get_or 0 (lookup name m)) ts then insert name ts m else m)

abbrev pub member_of : Group → Option PeerInfo → Bool
member_of group none = false
member_of group (some info) = contains_text info.group_names group.name

module _ (d : Datastore) (decimal : ℕ → Text) (crypto : Crypto) where
  -- The events of a store that are signed; one that cannot be signed is left out.
  pub sign_all : Group → List MapEvent → List Envelope
  sign_all group [] = []
  sign_all group (ev ∷ evs) =
      let rest = sign_all group evs in
      elim (sign_event decimal crypto group ev) [ none ↦ rest | some env ↦ env ∷ rest ]

  -- A store and the time from which on its events are wanted.
  serve_stores : Group → Text → List (Text × ℕ) → Text → Subs → Store d → Subs × List Envelope
  unfolding sign_all
  serve_stores group group_id [] peer_id s store = (s, [])
  serve_stores group group_id ((name, since) ∷ cursors) peer_id s store =
      let (t, rest) =
        serve_stores group group_id cursors peer_id (add_incoming_sub group_id name peer_id s)
          store in
      (t, sign_all group (events_since d group_id name since store) ++ rest)

  -- `handleSubscribeStream` once the request is decoded: the subscriptions and the response.
  pub handle_subscribe :
      List Group → Peers → Text → Text → List (Text × ℕ) → Subs → Store d → Subs × List Envelope
  unfolding serve_stores
  handle_subscribe groups peers remote group_id cursors s store =
      elim (find_group_by_id groups group_id) [
        | none ↦ (s, [])
        | some group ↦
            if member_of group (get remote peers)
            then serve_stores group group_id cursors remote s store
            else (s, [])
      ]

  -- The events of a response, in order: the store, and those that are sent on.
  pub take_events : Group → List Envelope → Store d → Store d × List Envelope
  take_events group [] store = (store, [])
  take_events group (env ∷ envs) store =
      let (t, changed) = apply_verified decimal crypto d group env store in
      let (u, sent) = take_events group envs t in (u, if changed then env ∷ sent else sent)

  -- The cursors of the request.
  pub cursors_for : Text → Text → List Text → Store d → List (Text × ℕ)
  cursors_for group_id peer_id [] store = []
  cursors_for group_id peer_id (name ∷ names) store =
      (name, last_from_peer d group_id name peer_id store)
      ∷ cursors_for group_id peer_id names store

  record_all : Text → Text → Map ℕ → Store d → Store d
  record_all group_id peer_id [] store = store
  record_all group_id peer_id ((name, ts) ∷ rest) store =
      record_all group_id peer_id rest (record_from_peer d group_id name peer_id ts store).0

  -- What `subscribeToPeer` does with the response, when it has one.
  pub receive_response : Group → Text → List Envelope → Store d → Store d × List Envelope
  unfolding take_events max_times record_all
  receive_response group peer_id envs store =
      let (t, sent) = take_events group envs store in
      (record_all group.key_pair.id peer_id (max_times envs []) t, sent)
