-- ===== src/Examples/Log.antt =====
-- The event log at concrete inputs: a new database, one event, and a payload that repeats.
use google_messages_multidev.Event.{Event}
use google_messages_multidev.Examples.Data.{new_db}
use google_messages_multidev.Examples.Outbox.{blank}
use google_messages_multidev.Platform.Sample.{Blob, outbox_json, sample}
use google_messages_multidev.Prelude.Assoc.{lookup}
use google_messages_multidev.Prelude.Core.{List, [], arith, inl, refl, some, ◌≡◌}
use google_messages_multidev.Prelude.Lists.{drop, length, take}
use google_messages_multidev.Prelude.Tests.{if◌then◌else◌}
use google_messages_multidev.Prelude.Text.{text_eq, txt}
use google_messages_multidev.Result.{ok}
use google_messages_multidev.Store.Db.{Db}
use google_messages_multidev.Store.Events.{
  append_tx, compacted, event_key, list_events, plain_at, unchanged,
}
use google_messages_multidev.Store.Events.Latest.{append_tx-latest}
use google_messages_multidev.Store.Events.Log.{IsLog, appended, newest}
use google_messages_multidev.Store.Events.Paging.{list_events-page}
use google_messages_multidev.Store.Events.Refinement.{append-refines}

abbrev hi : Event Blob
hi = record {
  id = 0;
  kind = txt "outbox";
  entity_id = txt "k1";
  time = 0;
  payload = outbox_json blank;
}

pub new_db-IsLog : IsLog new_db []
unfolding plain_at lookup newest
new_db-IsLog = record { holds = tt; numbered = refl; snapshots = λ key. refl }

logged :
    (db' : Db sample) × (append_tx hi new_db ≡ ok ((appended sample hi 1000 []).1, db'))
    × IsLog db' (appended sample hi 1000 []).0
unfolding text_eq
logged =
    append-refines hi new_db [] (outbox_json blank) new_db-IsLog (omega arith)
      (unfold compacted in refl) (inl refl)

abbrev one_event : List (Event Blob)
one_event = (appended sample hi 1000 []).0

abbrev logged_db : Db sample
logged_db = logged.0

one_event-length : length one_event ≡ 1
unfolding appended unchanged newest
one_event-length = refl

-- The same payload a second time.
append-refines_example :
    (db' : Db sample) × (append_tx hi logged_db
      ≡ ok ((appended sample hi logged_db.now one_event).1, db'))
    × IsLog db' (appended sample hi logged_db.now one_event).0
unfolding text_eq
append-refines_example =
    append-refines hi logged_db one_event (outbox_json blank) logged.2
      (omega (arith, one_event-length)) (unfold compacted in refl) (inl refl)

-- The first page behind the start.
list_events-page_example : list_events 0 10 logged_db ≡ ok (take 10 (drop 0 one_event))
list_events-page_example =
    list_events-page 0 10 logged_db one_event logged.2 (omega (arith, one_event-length))
      (omega arith)

append_tx-latest_example : plain_at sample logged_db.latest (txt "outbox:k1") (txt "outbox:k1") ≡ (
    if text_eq (event_key hi) (txt "outbox:k1")
    then ok (some (outbox_json blank))
    else plain_at sample new_db.latest (txt "outbox:k1") (txt "outbox:k1"))
append_tx-latest_example =
    append_tx-latest hi new_db logged_db (appended sample hi 1000 []).1 (outbox_json blank)
      (unfold compacted in refl) logged.1 (txt "outbox:k1")
