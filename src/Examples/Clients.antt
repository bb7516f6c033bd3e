-- ===== src/Examples/Clients.antt =====
-- Requests of clients and notifications, and their theorems at concrete inputs.
use google_messages_multidev.Bridge.Contacts.{
  addresses_behind, is_addressed, own_addresses, recipients_of, recipients_of-lists,
}
use google_messages_multidev.Bridge.Pairing.Begin.{all_digits, is_digit, is_phone_number}
use google_messages_multidev.Bridge.Push.{Watch, drain, watch_events}
use google_messages_multidev.Bridge.Push.Drain.{drain-follows}
use google_messages_multidev.Bridge.Push.Spaced.{is_spaced}
use google_messages_multidev.Bridge.Push.Memory.{Remembers, tags, watch_events-Remembers}
use google_messages_multidev.Bridge.Queue.{
  Setting, all_key_bytes, check_stored, is_key_byte, is_valid_key, queue, queue_new, queue_valid,
}
use google_messages_multidev.Bridge.Queue.Again.{queue-again}
use google_messages_multidev.Bridge.Requests.{
  conversation_refused, group_name_refused, numbers_behind, plain_kind, validate_conversation,
  validate_request, validate_request-Perm,
}
use google_messages_multidev.Bridge.Sender.{mentions}
use google_messages_multidev.Bridge.Sender.Once.{is_distinct}
use google_messages_multidev.Bridge.Worker.{Worker}
use google_messages_multidev.Event.{Event}
use google_messages_multidev.Examples.Data.{hello, new_db}
use google_messages_multidev.Examples.Log.{new_db-IsLog}
use google_messages_multidev.Examples.Outbox.{blank, record_or}
use google_messages_multidev.Examples.Sending.{sends, worker}
use google_messages_multidev.Model.{Message, Outbox, Participant, SendRequest}
use google_messages_multidev.Model.Request.{request_equal}
use google_messages_multidev.Platform.Sample.{Blob, message_json, sample}
use google_messages_multidev.Prelude.Core.{
  Bool, List, [], arith, false, inl, inr, not, refl, some, true, ◌&&◌, ◌∷◌, ◌≡◌,
}
use google_messages_multidev.Prelude.Lists.{drop, length}
use google_messages_multidev.Prelude.Sorts.{insert_text, sort_texts}
use google_messages_multidev.Prelude.Tests.{if◌then◌else◌}
use google_messages_multidev.Prelude.Text.{Text, text_eq, txt}
use google_messages_multidev.Prelude.Utf8.{contains_any, is_utf8, trim_back, trim_front, trim_space}
use google_messages_multidev.Result.{Result, conflict, err, ok}
use google_messages_multidev.Store.Db.{Db}
use google_messages_multidev.Store.Events.{append_tx, compacted, unchanged}
use google_messages_multidev.Store.Events.Log.{IsLog, appended, newest}
use google_messages_multidev.Store.Events.Refinement.{append-refines}
use google_messages_multidev.Store.Outbox.{new_outbox, put_transaction}
use mathlib.Core.List.{Perm, Permᴰ}

abbrev group : SendRequest
group = record hello {
  kind = txt "conversation";
  recipients = txt "+15550199" ∷ txt "+15550100" ∷ [];
  conversation_id = [];
  text = [];
}

abbrev turned : List Text
turned = txt "+15550100" ∷ txt "+15550199" ∷ []

turned-Perm : Perm group.recipients turned
turned-Perm = ∣ Permᴰ.swap refl refl ∣₁

validate_request-Perm_example :
    validate_request (record group { recipients = turned }) ≡ validate_request group
validate_request-Perm_example = validate_request-Perm group turned turned-Perm

abbrev calm : Setting
calm = record { pairs = false; whatsapp = false; transaction = txt "t9" }

abbrev key : Text
key = txt "0123456789abcdef"

abbrev accepted_group : SendRequest
accepted_group = record group { recipients = turned }

unfoldable queues : Unit {0}
unfolding sends queue queue_valid queue_new is_valid_key validate_request validate_conversation
    plain_kind conversation_refused group_name_refused numbers_behind is_phone_number all_digits
    is_digit sort_texts insert_text trim_space trim_front trim_back check_stored all_key_bytes
    is_key_byte new_outbox put_transaction contains_any is_utf8
queues = tt

abbrev asked : Result (Outbox × Bool) × Worker sample
asked = queue calm key group (worker new_db)

asked_ok : asked ≡ (ok (record_or asked.0 blank, true), asked.1)
unfolding queues
asked_ok = refl

turned_ok : validate_request accepted_group ≡ ok accepted_group
unfolding queues
turned_ok = refl

queue-again_example : queue calm key accepted_group asked.1 ≡ (
  (if request_equal (record_or asked.0 blank).request accepted_group
      then ok (record_or asked.0 blank, false)
      else err conflict),
  asked.1,
)
queue-again_example =
    queue-again calm calm key group accepted_group accepted_group (worker new_db) asked.1
      (record_or asked.0 blank) true asked_ok refl turned_ok

abbrev news : Message
news = record {
  schema = 1;
  id = txt "m1";
  conversation_id = txt "c1";
  sender_id = txt "p1";
  time = 900;
  text = txt "hello";
  subject = [];
  direction = txt "incoming";
  status = [];
  deleted = false;
  read_only = false;
  transaction_id = [];
  attachments = [];
  reactions = [];
}

abbrev news_event : Event Blob
news_event = record {
  id = 0;
  kind = txt "message";
  entity_id = txt "m1";
  time = 0;
  payload = message_json news;
}

abbrev listening : Watch
listening = record { cursor = 0; seen = []; order = []; sent = [] }

heard :
    (db' : Db sample) × (append_tx news_event new_db
      ≡ ok ((appended sample news_event 1000 []).1, db'))
    × IsLog db' (appended sample news_event 1000 []).0
unfolding text_eq
heard =
    append-refines news_event new_db [] (message_json news) new_db-IsLog (omega arith)
      (unfold compacted in refl) (inr ((txt "m1", txt "c1"), refl))

abbrev one_news : List (Event Blob)
one_news = (appended sample news_event 1000 []).0

one_news-length : length one_news ≡ 1
unfolding appended unchanged newest
one_news-length = refl

drain-follows_example :
    drain 2 heard.0 listening ≡ some (watch_events (drop 0 one_news) heard.0 listening)
drain-follows_example =
    drain-follows 2 heard.0 one_news listening heard.2 (omega (arith, one_news-length))
      (omega arith) (omega (arith, one_news-length))

listening-Remembers : Remembers listening
listening-Remembers = record {
  one_set = refl;
  few = omega arith;
  distinct = unfold is_distinct in refl;
  older = [];
  recent = unfold tags in refl;
  spaced = unfold is_spaced tags in refl;
  whole = inl refl;
}

watch_events-Remembers_example : Remembers (watch_events (news_event ∷ []) new_db listening)
watch_events-Remembers_example =
    watch_events-Remembers (news_event ∷ []) new_db listening listening-Remembers

abbrev me : Participant
me = record { id = txt "p0"; name = []; address = txt "+15550111"; is_me = true }

abbrev friend : Participant
friend = record { id = txt "p1"; name = []; address = txt "+15550100"; is_me = false }

abbrev both : List Participant
both = me ∷ friend ∷ friend ∷ []

recipients_ok : recipients_of both ≡ some (txt "+15550100" ∷ [])
unfolding recipients_of addresses_behind own_addresses mentions text_eq
recipients_ok = refl

recipients_of-lists_example :
    ((address : Text)
      → mentions address (txt "+15550100" ∷ [])
        ≡ (is_addressed address both && not (mentions address (own_addresses both))))
    × (is_distinct (txt "+15550100" ∷ []) ≡ true)
    × (mentions [] (txt "+15550100" ∷ []) ≡ false)
recipients_of-lists_example = recipients_of-lists both (txt "+15550100" ∷ []) recipients_ok
