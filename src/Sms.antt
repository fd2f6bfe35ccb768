-- ===== src/Sms.antt =====
-- internal/sms: text messages kept in a replicated map. The keys of the map in model.go, and what
-- manager.go decides from the entries of the map: what to notify, to send, to add and to remove. JSON,
-- SHA-256 and `%d` are parameters; the calls that write the map are the result.
pub mod Keys
pub mod Device
pub mod Polling
pub mod Conversations
mod Examples
use foilen_box.Prelude.{
  ℕ, ◌+◌, Bool, true, false, not, ◌&&◌, ◌||◌, Option, none, some, List, [], ◌∷◌, ◌++◌, Text, codes,
  text_eq, contains_text, is_empty, Map, lookup, insert, take, has_prefix, set_add, sort_on, ltb,
  leb, ◌==◌, if◌then◌else◌,
}
use foilen_box.Model.Replica.{MapEntry}

pub record SmsMessage : Type 0 where
  pub peer_id : Text
  pub phone_number : Text
  pub direction : Text
  pub body : Text
  pub sender : Text
  pub receiver : Text
  pub timestamp : ℕ
  pub raw : Map Text

pub record ConversationSummary : Type 0 where
  pub phone_number : Text
  pub message_count : ℕ
  pub last_message_body : Text
  pub last_message_direction : Text
  pub last_timestamp : ℕ

pub data Kind : Type 0 where
  message_kind create_kind enabled_kind : Kind

abbrev pub slash : ℕ
slash = b'/'

-- What stands before the first slash, and what follows it, if there is one.
unfoldable pub cut_slash : Text → Text × Option Text
cut_slash [] = ([], none)
cut_slash (c ∷ t) =
    let (before, after) = cut_slash t in if c == slash then ([], some t) else (c ∷ before, after)

abbrev store_prefix : Text
store_prefix = codes "SMS-"

unfoldable pub is_sms_store : Text → Bool
is_sms_store store_name = has_prefix store_prefix store_name

unfoldable pub store_name_for : Text → Text
store_name_for suffix = store_prefix ++ suffix

unfoldable pub create_key : Text → Text → Text
create_key peer_id unique_id = peer_id ++ (codes "/create/" ++ unique_id)

unfoldable pub enabled_key : Text → Text
enabled_key peer_id = peer_id ++ codes "/enabled"

abbrev pub kind_of : Text → Option Text → Option Kind
kind_of part rest =
    if text_eq part (codes "create")
    then elim rest [ none ↦ none | some id ↦ if is_empty id then none else some create_kind ]
    else if text_eq part (codes "enabled")
    then elim rest [ none ↦ some enabled_kind | some more ↦ none ]
    else elim rest [ none ↦ none | some more ↦ some message_kind ]

abbrev pub with_peer : Text → Option Kind → Option (Text × Kind)
with_peer peer_id none = none
with_peer peer_id (some kind) = some (peer_id, kind)

unfoldable pub kind_in : Text → Option Kind
unfolding cut_slash
kind_in t = let (part, rest) = cut_slash t in kind_of part rest

-- `parts[0]` and the rest of the key.
unfoldable pub parse_parts : Text × Option Text → Option (Text × Kind)
unfolding kind_in
parse_parts (peer_id, none) = none
parse_parts (peer_id, some t) = if is_empty peer_id then none else with_peer peer_id (kind_in t)

unfoldable pub parse_key : Text → Option (Text × Kind)
unfolding parse_parts cut_slash
parse_key key = parse_parts (cut_slash key)

abbrev pub is_message_of : Text → Option (Text × Kind) → Bool
is_message_of local_id none = false
is_message_of local_id (some (peer_id, message_kind)) = text_eq peer_id local_id
is_message_of local_id (some (peer_id, create_kind)) = false
is_message_of local_id (some (peer_id, enabled_kind)) = false

-- `existingOwn`
unfoldable pub existing_own : Text → Map MapEntry → List Text
existing_own local_id [] = []
existing_own local_id ((key, entry) ∷ entries) =
    let rest = existing_own local_id entries in
    if not entry.deleted && is_message_of local_id (parse_key key) then key ∷ rest else rest

module _ (sha256_hex : Text → Text) (decimal : ℕ → Text) where
  unfoldable pub message_key : Text → ℕ → Text → Text
  message_key peer_id ts value =
      peer_id ++ (codes "/" ++ (decimal ts ++ (codes "/" ++ take 16 (sha256_hex value))))

  module _ (encode : SmsMessage → Text) where
    -- The keys of the messages on the device, with their values.
    unfoldable pub device_entries : Text → List SmsMessage → Map Text
    unfolding message_key
    device_entries local_id [] = []
    device_entries local_id (msg ∷ rows) =
        (message_key local_id msg.timestamp (encode msg), encode msg) ∷ device_entries local_id rows

abbrev pub keys {ℓ} : {V : Type ℓ} → Map V → List Text
keys [] = []
keys ((k, v) ∷ m) = k ∷ keys m

unfoldable pub to_add : List Text → Map Text → Map Text
to_add existing [] = []
to_add existing ((key, value) ∷ rows) =
    let rest = to_add existing rows in
    if contains_text existing key then rest else (key, value) ∷ rest

unfoldable pub to_remove : List Text → List Text → List Text
to_remove on_device [] = []
to_remove on_device (key ∷ existing) =
    let rest = to_remove on_device existing in
    if contains_text on_device key then rest else key ∷ rest

-- The calls of `SetValue` and of `DeleteValue`, in this order. One that fails is logged and the next
-- is made.
pub record Calls : Type 0 where
  pub sets : Map Text
  pub deletes : List Text

module _ (sha256_hex : Text → Text) (decimal : ℕ → Text) (encode : SmsMessage → Text) where
  -- There are no rows when there is no bridge or its answer cannot be read, and no entries when the
  -- map is locked.
  unfoldable pub reconcile_device_store :
      Text → Option (List SmsMessage) → Option (Map MapEntry) → Option Calls
  unfolding existing_own device_entries to_add to_remove
  reconcile_device_store local_id none shown = none
  reconcile_device_store local_id (some rows) none = none
  reconcile_device_store local_id (some rows) (some entries) =
      let own = existing_own local_id entries in
      let on_device = device_entries sha256_hex decimal encode local_id rows in
      if is_empty local_id
      then none
      else some (record { sets = to_add own on_device; deletes = to_remove (keys on_device) own })

-- What a pass over a store calls for.
pub data Action : Type 0 where
  fulfill_create : Text → MapEntry → Action
  notify : SmsMessage → Action

abbrev pub notify_freshness_window : ℕ
notify_freshness_window = 600000

module _ (decode : Text → Option SmsMessage) (local_id : Text) (own_store first_pass : Bool)
    (now : ℕ) where
  abbrev pub notices : Bool → Text → Option SmsMessage → List Action
  notices known peer_id none = []
  notices known peer_id (some msg) =
      if known
        || first_pass
        || text_eq peer_id local_id
        || ltb (msg.timestamp + notify_freshness_window) now
      then []
      else notify msg ∷ []

  abbrev pub for_kind : Text → Bool → MapEntry → Option (Text × Kind) → List Action
  for_kind key known entry none = []
  for_kind key known entry (some (peer_id, create_kind)) =
      if own_store && text_eq peer_id local_id then fulfill_create key entry ∷ [] else []
  for_kind key known entry (some (peer_id, enabled_kind)) = []
  for_kind key known entry (some (peer_id, message_kind)) =
      notices known peer_id (decode entry.value)

  abbrev pub note : Text → Option (Text × Kind) → List Text → List Text
  note key none known = known
  note key (some (peer_id, create_kind)) known = known
  note key (some (peer_id, enabled_kind)) known = known
  note key (some (peer_id, message_kind)) known = set_add key known

  -- The known keys, and what is to be done, in the order of the entries.
  unfoldable pub process_entries : Map MapEntry → List Text → List Text × List Action
  process_entries [] known = (known, [])
  process_entries ((key, entry) ∷ entries) known =
      let (after, actions) = process_entries entries (note key (parse_key key) known) in
      (after, for_kind key (contains_text known key) entry (parse_key key) ++ actions)

-- The messages of a map, without a filter where the number is empty.
unfoldable pub list_messages_raw :
    (Text → Option SmsMessage) → Text → Map MapEntry → List SmsMessage
list_messages_raw decode number [] = []
list_messages_raw decode number ((key, entry) ∷ entries) =
    let rest = list_messages_raw decode number entries in
    elim (parse_key key) [
      | none ↦ rest
      | some (peer_id, create_kind) ↦ rest
      | some (peer_id, enabled_kind) ↦ rest
      | some (peer_id, message_kind) ↦ elim (decode entry.value) [
        | none ↦ rest
        | some msg ↦
            if entry.deleted || (not (is_empty number) && not (text_eq msg.phone_number number))
            then rest
            else record msg { peer_id = peer_id } ∷ rest
      ]
    ]

unfoldable pub list_messages : (Text → Option SmsMessage) → Text → Map MapEntry → List SmsMessage
unfolding list_messages_raw
list_messages decode number entries =
    sort_on (λ m. m.timestamp) (list_messages_raw decode number entries)
