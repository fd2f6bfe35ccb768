-- ===== src/Sms/Examples.antt =====
-- A map of text messages, for internal/sms.
use foilen_box.Prelude.{
  ℕ, ◌≡◌, ◌≢◌, ◌≤◌, ◌↔◌, inl, Listed, contains_text, refl, false, true, some, Option, [], ◌∷◌, Text,
  codes, contains_text, text_eq, Map,
}
use foilen_box.Model.Replica.{MapEntry}
use foilen_box.Sms.{
  SmsMessage, create_key, enabled_key, message_key, parse_key, create_kind, enabled_kind,
  message_kind, notify, process_entries, Calls, reconcile_device_store,
}
use foilen_box.Sms.Keys.{has_no_slash, parse_key_lem}
use foilen_box.Sms.Device.{Own, Kept, reconcile_device_store_lem}
use foilen_box.Sms.Polling.{passes, Had, process_entries-notify}

abbrev hash : Text → Text
hash t = t

abbrev decimal : ℕ → Text
decimal n = codes "17"

no_slash : has_no_slash (codes "bob") ≡ true
unfolding has_no_slash
no_slash = refl

no_slash_17 : has_no_slash (codes "17") ≡ true
unfolding has_no_slash
no_slash_17 = refl

parse_key_example :
    (parse_key (create_key (codes "bob") (codes "u")) ≡ some (codes "bob", create_kind))
    × (parse_key (enabled_key (codes "bob")) ≡ some (codes "bob", enabled_kind))
    × (parse_key (message_key hash decimal (codes "bob") 17 (codes "v"))
        ≡ some (codes "bob", message_kind))
unfolding text_eq
parse_key_example =
    parse_key_lem hash decimal (codes "bob") (codes "u") (codes "v") 17 no_slash refl refl
      no_slash_17 refl refl

abbrev decode : Text → Option SmsMessage
decode body = some (record {
  peer_id = [];
  phone_number = codes "1";
  direction = codes "incoming";
  body = body;
  sender = codes "1";
  receiver = codes "bob";
  timestamp = 17;
  raw = [];
})

abbrev entry : MapEntry
entry = record {
  value = codes "v";
  deleted = false;
  updated_at = 7;
  origin_peer_id = codes "bob";
  nonce = [];
  identity_signature = [];
}

abbrev messages : Map MapEntry
messages = (codes "bob/17/v", entry) ∷ []

abbrev hello : SmsMessage
hello = record {
  peer_id = [];
  phone_number = codes "1";
  direction = codes "incoming";
  body = codes "v";
  sender = codes "1";
  receiver = codes "bob";
  timestamp = 17;
  raw = [];
}

-- The pass after a first one that read no entry.
notifies :
    Listed
      (notify hello)
      (process_entries decode
        (codes "anna")
        false
        false
        20
        messages
        (passes decode (codes "anna") false ((true, 18, []) ∷ []) [])).1
unfolding process_entries passes parse_key text_eq contains_text
notifies = inl refl

process_entries-notify_example :
    (key : Text) × ((found : MapEntry) × Listed (key, found) messages
      × (decode found.value ≡ some hello)
      × (¬ Had decode (codes "anna") false key ((true, 18, []) ∷ []))
      × (false ≡ false)
      × (20 ≤ 600017)
      × ((peer_id : Text) × (parse_key key ≡ some (peer_id, message_kind))
          × (peer_id ≢ codes "anna")))
process_entries-notify_example =
    process_entries-notify decode (codes "anna") false ((true, 18, []) ∷ []) [] false 20 messages
      hello notifies

abbrev encode : SmsMessage → Text
encode msg = msg.body

-- The message of the device is not in the map, and the one that is in the map is not on the device.
reconcile_device_store_example :
    (calls : Calls) × (reconcile_device_store hash decimal encode
        (codes "bob")
        (some (record hello { body = codes "w" } ∷ []))
        (some messages)
      ≡ some calls)
    × ((key value : Text)
        → Listed (key, value) calls.sets ↔ (
            Kept hash decimal encode
              (codes "bob")
              (record hello { body = codes "w" } ∷ [])
              key
              value
            × (¬ Own (codes "bob") messages key)))
    × ((key : Text)
        → Listed key calls.deletes ↔ (
            Own (codes "bob") messages key
            × (¬ (
                (value : Text) × Kept hash decimal encode
                  (codes "bob")
                  (record hello { body = codes "w" } ∷ [])
                  key
                  value))))
reconcile_device_store_example =
    reconcile_device_store_lem hash decimal encode (codes "bob")
      (record hello { body = codes "w" } ∷ []) messages refl
