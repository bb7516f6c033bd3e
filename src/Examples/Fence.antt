-- ===== src/Examples/Fence.antt =====
-- A live conversation, and the same one from a history page that was asked for before it.

-- What `apply` of a conversation computes with.
use google_messages_multidev.Event.{Event}
use google_messages_multidev.Examples.Data.{new_db, runs}
use google_messages_multidev.Examples.Outbox.{db_or, record_or}
use google_messages_multidev.Examples.Records.{chat}
use google_messages_multidev.Platform.Sample.{Blob, conversation_json, sample, sample_bolt}
use google_messages_multidev.Prelude.Core.{Bool, [], arith, false, none, refl, some, true, ◌≡◌}
use google_messages_multidev.Prelude.Text.{text_eq, txt}
use google_messages_multidev.Result.{Result, ok}
use google_messages_multidev.Store.Apply.{
  apply, apply_fresh, confirm_event, is_stale, preview_event, previous_of, put_privates,
  record_event, refresh_message,
}
use google_messages_multidev.Store.Apply.Fence.{live-fences_history}
use google_messages_multidev.Store.Apply.Revisions.{OneMore, apply-OneMore, touched}
use google_messages_multidev.Store.Conversations.{
  keep_stored, latest_context, latest_message, merge_stored, preview_conversation, preview_known,
  stored_conversation,
}
use google_messages_multidev.Store.Db.{Db, counter}
use google_messages_multidev.Store.Epochs.{
  bucket_or_new, counter_is, entity_current, is_owned_kind, is_some, leave_previous, or_zero,
  stamp_epoch,
}
use google_messages_multidev.Store.Events.{event_key, history_watermark, next_sequence, observe_tx}

unfoldable applies : Unit {0}
unfolding runs apply is_stale apply_fresh preview_event preview_conversation preview_known
    stored_conversation keep_stored merge_stored latest_message latest_context entity_current
    stamp_epoch leave_previous is_owned_kind bucket_or_new is_some counter counter_is or_zero
    previous_of record_event observe_tx next_sequence put_privates refresh_message confirm_event
    event_key
applies = tt

abbrev live : Event Blob
live = record {
  id = 0;
  kind = txt "conversation";
  entity_id = txt "c1";
  time = 0;
  payload = conversation_json chat;
}

abbrev replay : Event Blob
replay = record live { payload = conversation_json (record chat { name = txt "Old name" }) }

abbrev seen : Result (Bool × Db sample)
seen = apply live false [] none new_db

seen_ok : seen ≡ ok (record_or seen false, db_or seen)
unfolding applies
seen_ok = refl

live-fences_history_example :
    (apply replay true [] (some 0) (db_or seen) ≡ confirm_event replay false (db_or seen))
    × (text_eq replay.kind (txt "message") ≡ false
        → apply replay true [] (some 0) (db_or seen) ≡ ok (false, db_or seen))
unfolding history_watermark event_key
live-fences_history_example =
    live-fences_history live replay false [] [] 0 new_db (db_or seen) (record_or seen false)
      (omega arith) (omega arith) seen_ok refl

apply-OneMore_example :
    OneMore sample live (touched sample (event_key live) (sample_bolt.empty)) (db_or seen).versions
apply-OneMore_example =
    apply-OneMore live false [] new_db (db_or seen) (record_or seen false) seen_ok
