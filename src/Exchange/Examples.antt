-- ===== src/Exchange/Examples.antt =====
-- One event on its way between two peers, for realm/features/maps/feature.go.
use foilen_box.Prelude.{ℕ, ◌≡◌, refl, false, some, [], ◌∷◌, ◌++◌, Text, codes, text_eq}
use foilen_box.Model.{Group, find_group_by_id}
use foilen_box.Model.Replica.{MapEvent}
use foilen_box.RealmMaps.Memory.{memory, empty_store}
use foilen_box.Access.KeyPairs.{private_key}
use foilen_box.Access.Plain.{plain}
use foilen_box.Exchange.{Envelope, signing_bytes, sign_event, verify_event, taken_in, handle_push}
use foilen_box.Exchange.Signatures.{signing_bytes_shift}
use foilen_box.Exchange.Reception.{handle_push-sign_event}

abbrev home : Group
home = record {
  name = codes "home";
  key_pair = record { id = codes "h"; private_key_base64 = codes "key" };
}

abbrev decimal : ℕ → Text
decimal n = codes "7"

abbrev event_with : Text → Text → MapEvent
event_with key value = record {
  group_id = codes "h";
  store_name = codes "notes";
  key = key;
  value = value;
  deleted = false;
  updated_at = 7;
  origin_peer_id = codes "anna";
  nonce = [];
  identity_signature = [];
}

abbrev env : Envelope
env = record {
  event = event_with (codes "k") (codes "v");
  signature = codes "key" ++ signing_bytes decimal (event_with (codes "k") (codes "v"));
}

signs : sign_event decimal plain home (event_with (codes "k") (codes "v")) ≡ some env
unfolding sign_event private_key
signs = refl

knows : find_group_by_id (home ∷ []) (codes "h") ≡ some home
unfolding find_group_by_id text_eq
knows = refl

signing_bytes_shift_example :
    (signing_bytes decimal (event_with (codes "k|a") (codes "v"))
      ≡ signing_bytes decimal (event_with (codes "k") (codes "a|v")))
    × (verify_event decimal plain home
          (record { event = event_with (codes "k|a") (codes "v"); signature = [] })
        ≡ verify_event decimal plain home
            (record { event = event_with (codes "k") (codes "a|v"); signature = [] }))
signing_bytes_shift_example =
    signing_bytes_shift decimal plain home (event_with (codes "k") (codes "v")) (codes "a") []

handle_push-sign_event_example :
    handle_push decimal plain memory (home ∷ []) env empty_store
    ≡ taken_in decimal plain memory (event_with (codes "k") (codes "v")) empty_store
handle_push-sign_event_example =
    handle_push-sign_event decimal plain memory home home (home ∷ [])
      (event_with (codes "k") (codes "v")) env empty_store refl knows signs
