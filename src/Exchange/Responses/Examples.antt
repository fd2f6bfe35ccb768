-- ===== src/Exchange/Responses/Examples.antt =====
-- Two peers that subscribe to each other's maps, for realm/features/maps/feature.go.
use foilen_box.Prelude.{
  ℕ, ◌≡◌, ◌≤◌, ◌++◌, sort_on, has_prefix, cut_prefix, lookup, delete, refl, inl, true, false, not,
  ◌&&◌, ◌||◌, some, [], ◌∷◌, Text, codes, text_eq, contains_text, Listed,
}
use foilen_box.Model.{Group, PeerInfo, find_group_by_id}
use foilen_box.Model.Replica.{MapEvent}
use foilen_box.Peers.{Peers, get}
use foilen_box.RealmMaps.{map_id}
use foilen_box.RealmMaps.Reads.{events_since}
use foilen_box.RealmMaps.{Store, last_from_peer}
use foilen_box.RealmMaps.Database.{event_value}
use foilen_box.RealmMaps.Memory.{memory, empty_store, entries_below}
use foilen_box.Access.KeyPairs.{private_key}
use foilen_box.Access.Plain.{plain}
use foilen_box.Exchange.{
  Envelope, sign_event, verify_event, verify_bytes, signing_bytes, taken_in, handle_push,
}
use foilen_box.Exchange.Subscriptions.{
  Subs, add_incoming_sub, remove_incoming_sub, on_peer_disconnected, claim_stores_to_subscribe,
}
use foilen_box.Exchange.Subscriptions.Incoming.{is_subscriber, incoming_subscribers_lem}
use foilen_box.Exchange.Subscriptions.Claims.{is_asked, claim_stores_to_subscribe_lem}
use foilen_box.Exchange.Responses.{take_events, receive_response, handle_subscribe}
use foilen_box.Exchange.Responses.Members.{granted, Served, handle_subscribe_lem}
use foilen_box.Exchange.Responses.Advancing.{receive_response_advances, take_events_foreign}

abbrev home : Group
home = record {
  name = codes "home";
  key_pair = record { id = codes "h"; private_key_base64 = codes "key" };
}

abbrev office : Group
office = record {
  name = codes "office";
  key_pair = record { id = codes "o"; private_key_base64 = codes "other" };
}

abbrev bob : PeerInfo
bob = record {
  id = codes "bob";
  last_seen = 1;
  addresses = [];
  addresses_by_source = [];
  group_names = codes "home" ∷ [];
  connected = true;
  hostname = [];
  description = [];
  relay_service_enabled = false;
  version = [];
}

abbrev known_peers : Peers
known_peers = (codes "bob", bob) ∷ []

abbrev decimal : ℕ → Text
decimal n = codes "7"

abbrev event_in : Text → MapEvent
event_in group_id = record {
  group_id = group_id;
  store_name = codes "s";
  key = codes "k";
  value = codes "v";
  deleted = false;
  updated_at = 7;
  origin_peer_id = codes "anna";
  nonce = [];
  identity_signature = [];
}

abbrev env_in : Text → Envelope
env_in group_id = record {
  event = event_in group_id;
  signature = codes "key" ++ signing_bytes decimal (event_in group_id);
}

abbrev no_subs : Subs
no_subs = record { incoming = []; groups = [] }

abbrev bob_wants : Subs
bob_wants = record { incoming = (codes "h", (codes "s", codes "bob" ∷ []) ∷ []) ∷ []; groups = [] }

abbrev stored_event : Store memory
stored_event = record empty_store {
  db = (codes "/h__s/event/k", event_value (event_in (codes "h"))) ∷ [];
}

incoming_subscribers_example :
    (is_subscriber
        (codes "h")
        (codes "s")
        (codes "bob")
        (add_incoming_sub (codes "h") (codes "s") (codes "eve") bob_wants)
      ≡ (is_subscriber (codes "h") (codes "s") (codes "bob") bob_wants
          || (text_eq (codes "h") (codes "h")
              && text_eq (codes "s") (codes "s")
              && text_eq (codes "eve") (codes "bob"))))
    × (is_subscriber
          (codes "h")
          (codes "s")
          (codes "bob")
          (remove_incoming_sub (codes "h") (codes "s") (codes "eve") bob_wants)
        ≡ (is_subscriber (codes "h") (codes "s") (codes "bob") bob_wants
            && not (
                text_eq (codes "h") (codes "h")
                && text_eq (codes "s") (codes "s")
                && text_eq (codes "eve") (codes "bob"))))
    × (is_subscriber
          (codes "h")
          (codes "s")
          (codes "bob")
          (on_peer_disconnected (codes "eve") bob_wants)
        ≡ (is_subscriber (codes "h") (codes "s") (codes "bob") bob_wants
            && not (text_eq (codes "eve") (codes "bob"))))
incoming_subscribers_example =
    incoming_subscribers_lem (codes "h") (codes "s") (codes "bob") bob_wants (codes "h") (codes "s")
      (codes "eve")

claim_stores_example :
    let (t, to_ask) =
      claim_stores_to_subscribe (codes "h") (codes "bob") (codes "s" ∷ []) no_subs in
    (contains_text to_ask (codes "s") ≡ (
      contains_text (codes "s" ∷ []) (codes "s")
      && not (is_asked (codes "h") (codes "s") (codes "bob") no_subs)))
    × ((g q : Text)
        → is_asked g (codes "s") q t ≡ (
            is_asked g (codes "s") q no_subs
            || (text_eq (codes "h") g
                && contains_text (codes "s" ∷ []) (codes "s")
                && text_eq (codes "bob") q)))
    × (contains_text
          (claim_stores_to_subscribe (codes "h") (codes "bob") (codes "s" ∷ []) t).1
          (codes "s")
        ≡ false)
claim_stores_example =
    claim_stores_to_subscribe_lem (codes "h") (codes "bob") (codes "s") (codes "s" ∷ []) no_subs

-- The event is sent.
answered :
    Listed
      (env_in (codes "h"))
      (handle_subscribe memory decimal plain
        (home ∷ [])
        known_peers
        (codes "bob")
        (codes "h")
        ((codes "s", 3) ∷ [])
        no_subs
        stored_event).1
unfolding handle_subscribe find_group_by_id text_eq get lookup contains_text events_since map_id
    entries_below delete sign_event private_key sort_on has_prefix cut_prefix
answered = inl refl

handle_subscribe_example :
    (granted memory decimal plain (home ∷ []) known_peers (codes "bob") (codes "h") ≡ true)
    × ((group : Group) × (find_group_by_id (home ∷ []) (codes "h") ≡ some group)
        × Served memory decimal plain group
            (codes "h")
            ((codes "s", 3) ∷ [])
            stored_event
            (env_in (codes "h")))
handle_subscribe_example =
    handle_subscribe_lem memory decimal plain (home ∷ []) known_peers (codes "bob") (codes "h")
      ((codes "s", 3) ∷ []) no_subs stored_event (env_in (codes "h")) answered

receive_response_example :
    7
    ≤ last_from_peer memory
        (codes "h")
        (codes "s")
        (codes "bob")
        (receive_response memory decimal plain home
          (codes "bob")
          (env_in (codes "o") ∷ [])
          empty_store).0
receive_response_example =
    receive_response_advances memory decimal plain home (codes "bob") (env_in (codes "o") ∷ [])
      empty_store (env_in (codes "o")) (inl refl)

signs_foreign : sign_event decimal plain home (event_in (codes "o")) ≡ some (env_in (codes "o"))
unfolding sign_event private_key
signs_foreign = refl

knows_office : find_group_by_id (home ∷ office ∷ []) (codes "o") ≡ some office
unfolding find_group_by_id text_eq
knows_office = refl

not_office : verify_event decimal plain office (env_in (codes "o")) ≡ false
unfolding verify_event verify_bytes private_key text_eq
not_office = refl

take_events_foreign_example :
    ((take_events memory decimal plain home (env_in (codes "o") ∷ []) empty_store).0
      ≡ (taken_in decimal plain memory (event_in (codes "o")) empty_store).0)
    × (handle_push decimal plain memory (home ∷ office ∷ []) (env_in (codes "o")) empty_store
        ≡ (empty_store, false))
take_events_foreign_example =
    take_events_foreign memory decimal plain home office (home ∷ office ∷ []) (event_in (codes "o"))
      (env_in (codes "o")) empty_store signs_foreign knows_office not_office
