-- ===== src/Examples/Waits.antt =====
-- Delays, imports and media of the bridge, and their theorems at concrete inputs.
use google_messages_multidev.Bridge.{Status}
use google_messages_multidev.Bridge.Delays.{
  Ending, SyncState, expected_timers, max_reconnect_delay, smaller, timers_of, timers_of-expected,
}
use google_messages_multidev.Bridge.Imports.{due_jobs, first_job, is_due_job, messages_job}
use google_messages_multidev.Bridge.Imports.First.{first_job-due}
use google_messages_multidev.Bridge.Sync.{attachment}
use google_messages_multidev.Bridge.Sync.Media.{attachment-kept}
use google_messages_multidev.Bridge.Sync.Requests.{
  Asking, ask_all, ask_media, part_key, request_attachment, request_attachment-once,
}
use google_messages_multidev.Bridge.Worker.{Worker}
use google_messages_multidev.Examples.Connection.{started}
use google_messages_multidev.Examples.Data.{new_db}
use google_messages_multidev.Examples.Sending.{quiet, sends, unsure, worker}
use google_messages_multidev.Model.{HistoryJob, is_pending, pending}
use google_messages_multidev.Platform.Sample.{Blob, history_json, sample}
use google_messages_multidev.Prelude.Assoc.{Table, erase, insert}
use google_messages_multidev.Prelude.Core.{
  List, [], arith, false, none, refl, some, true, ℕ, ◌*◌, ◌+◌, ◌<◌, ◌^◌, ◌∷◌, ◌≡◌, ◌≤◌,
}
use google_messages_multidev.Prelude.Text.{Text, txt}
use google_messages_multidev.Result.{err, ok, unavailable}
use google_messages_multidev.Store.Db.{Db}
use google_messages_multidev.Store.Records.{
  get_value, on_media, on_private, put_value, set_shelf, shelf, shelf_name,
}
use mathlib.Core.List.{Memᴰ}

abbrev blocked : Status
blocked = record started { state = txt "authentication_required" }

abbrev endings : List Ending
endings =
    record { status = started; lived = 1 }
    ∷ record { status = blocked; lived = 1 }
    ∷ record { status = started; lived = 90000000000 }
    ∷ []

timers_of-expected_example :
    timers_of 5000000000 (smaller (5000000000 * 2 ^ 0) max_reconnect_delay) endings
    ≡ expected_timers 5000000000 5000000000 0 endings
timers_of-expected_example = timers_of-expected 5000000000 5000000000 0 endings (omega arith)

abbrev unsynced : SyncState
unsynced = record { failures = 0; retry_at = 0; full = false }

abbrev waiting : HistoryJob
waiting = record (messages_job (txt "c1")) { state = pending; updated = 5 }

abbrev waiting_too : HistoryJob
waiting_too = record (messages_job (txt "c2")) { state = pending; updated = 3 }

abbrev stored_jobs_json : List Blob
stored_jobs_json = history_json waiting ∷ history_json waiting_too ∷ []

two_due : due_jobs sample 900 stored_jobs_json ≡ ok (waiting ∷ waiting_too ∷ [])
unfolding due_jobs is_due_job
two_due = refl

second_first : first_job none (waiting ∷ waiting_too ∷ []) ≡ some waiting_too
unfolding first_job
second_first = refl

first_job-due_example :
    (j : HistoryJob) × (first_job none (waiting ∷ waiting_too ∷ []) ≡ some j)
    × (is_pending j.state ≡ true)
    × (j.retry_at ≤ 900)
    × (j.updated ≤ waiting.updated)
    × ((stored : Blob) × Memᴰ stored stored_jobs_json
        × (sample.json.history_codec.unmarshal stored ≡ some j))
first_job-due_example =
    first_job-due sample 900 stored_jobs_json (waiting ∷ waiting_too ∷ []) (history_json waiting)
      waiting two_due (Memᴰ.head refl) refl refl (omega arith)

abbrev picture : Text
picture = txt "0123456789abcdef0123456789abcdef0123456789abcdef0123456789abcdef"

abbrev pictured_db : Db sample
pictured_db =
    put_value on_media picture (sample.raw (txt "jpeg"))
      (put_value on_private picture (sample.raw (txt "token")) new_db)

pictured_ok :
    attachment unsure quiet true picture (worker pictured_db)
    ≡ (ok (sample.raw (txt "jpeg")), worker pictured_db)
unfolding sends attachment get_value put_value shelf set_shelf shelf_name
pictured_ok = refl

attachment-kept_example :
    attachment unsure quiet false picture (worker pictured_db)
    ≡ (ok (sample.raw (txt "jpeg")), worker pictured_db)
attachment-kept_example =
    attachment-kept unsure unsure quiet quiet true false picture (worker pictured_db)
      (worker pictured_db) (sample.raw (txt "jpeg")) pictured_ok

abbrev offered_db : Db sample
offered_db = put_value on_private (part_key picture) (sample.raw (txt "part")) pictured_db

abbrev asked_for : Table ℕ × Worker sample
asked_for =
    (ask_media quiet (λ n b. ok tt) picture (sample.raw (txt "part")) [] (worker offered_db)).1

picture_asked :
    ask_media quiet (λ n b. ok tt) picture (sample.raw (txt "part")) [] (worker offered_db)
    ≡ (ok tt, (asked_for.0, asked_for.1))
unfolding sends ask_media insert erase
picture_asked = refl

soon : asked_for.1.db.now < offered_db.now + 60000000000
unfolding sends ask_media insert erase put_value shelf set_shelf shelf_name
soon = omega arith

abbrev another : Asking sample
another = record {
  around = quiet;
  request_media = λ n b. err unavailable;
  connected = true;
  attachment = txt "fedcba9876543210fedcba9876543210fedcba9876543210fedcba9876543210";
  at = asked_for.1;
}

abbrev asked_since : Table ℕ
asked_since = ask_all (another ∷ []) asked_for.0

request_attachment-once_example :
    (request_attachment quiet (λ n b. ok tt) true picture asked_since asked_for.1).1
    ≡ (asked_since, asked_for.1)
request_attachment-once_example =
    request_attachment-once quiet quiet (λ n b. ok tt) (λ n b. ok tt) true picture
      (sample.raw (txt "part")) [] asked_for.0 (worker offered_db) asked_for.1 asked_for.1
      (another ∷ []) picture_asked (soon, tt) soon
