-- ===== src/Sms/Conversations.antt =====
-- `ListConversations` of internal/sms/manager.go. Where the source leaves the order of conversations of
-- one time open, the model keeps the order of the map.
use foilen_box.Prelude.{
  ℕ, ◌+◌, ◌≡◌, ◌∙◌, Option, none, some, List, [], ◌∷◌, arith, Text, text_eq, text_eq_iff, Map,
  lookup, insert, lookup-insert, ltb, leb, if◌then◌else◌,
}
use foilen_box.Model.Replica.{MapEntry}
use foilen_box.RealmMaps.{get_or}
use foilen_box.Sms.{SmsMessage, ConversationSummary, list_messages}

abbrev new_conversation : Text → ConversationSummary
new_conversation number = record {
  phone_number = number;
  message_count = 0;
  last_message_body = [];
  last_message_direction = [];
  last_timestamp = 0;
}

abbrev with_message : SmsMessage → ConversationSummary → ConversationSummary
with_message msg c = record c {
  message_count = c.message_count + 1;
  last_timestamp = if leb c.last_timestamp msg.timestamp then msg.timestamp else c.last_timestamp;
  last_message_body = if leb c.last_timestamp msg.timestamp then msg.body else c.last_message_body;
  last_message_direction =
      if leb c.last_timestamp msg.timestamp then msg.direction else c.last_message_direction;
}

-- The conversations by their numbers.
unfoldable pub by_phone : List SmsMessage → Map ConversationSummary → Map ConversationSummary
by_phone [] m = m
by_phone (msg ∷ messages) m =
    let c = get_or (new_conversation msg.phone_number) (lookup msg.phone_number m) in
    by_phone messages (insert msg.phone_number (with_message msg c) m)

insert_conversation : ConversationSummary → List ConversationSummary → List ConversationSummary
insert_conversation c [] = c ∷ []
insert_conversation c (e ∷ es) =
    let rest = insert_conversation c es in
    if ltb c.last_timestamp e.last_timestamp then e ∷ rest else c ∷ e ∷ es

latest_first : Map ConversationSummary → List ConversationSummary
unfolding insert_conversation
latest_first [] = []
latest_first ((number, c) ∷ m) = insert_conversation c (latest_first m)

unfoldable pub list_conversations :
    (Text → Option SmsMessage) → Map MapEntry → List ConversationSummary
unfolding list_messages by_phone latest_first
list_conversations decode entries = latest_first (by_phone (list_messages decode [] entries) [])

abbrev count_in : Option ConversationSummary → ℕ
count_in none = 0
count_in (some c) = c.message_count

-- How many of the messages have the number.
pub count_of : Text → List SmsMessage → ℕ
count_of number [] = 0
count_of number (msg ∷ messages) =
    let rest = count_of number messages in
    if text_eq msg.phone_number number then rest + 1 else rest

-- The summary of a number counts the messages that have it.
pub count_in-by_phone :
    (number : Text) (messages : List SmsMessage) (m : Map ConversationSummary)
    → count_in (lookup number (by_phone messages m))
      ≡ count_in (lookup number m) + count_of number messages
unfolding by_phone count_of
count_in-by_phone number [] m = ground arith
count_in-by_phone number (msg ∷ messages) m =
    let c = get_or (new_conversation msg.phone_number) (lookup msg.phone_number m) in
    let m' = insert msg.phone_number (with_message msg c) m in
    count_in-by_phone number messages m'
    ∙ ground (
      arith,
      lookup-insert msg.phone_number number (with_message msg c) m,
      text_eq_iff msg.phone_number number,
    )
