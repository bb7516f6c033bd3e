-- ===== src/Examples/Jobs.antt =====
-- A history job at concrete inputs: it is queued, reads a page, and is started again.

-- What a history job computes with.
use google_messages_multidev.Examples.Data.{new_db, runs}
use google_messages_multidev.Examples.Outbox.{db_or, record_or}
use google_messages_multidev.Model.{HistoryJob, is_pending, pending}
use google_messages_multidev.Platform.Sample.{Blob, octets_of, sample}
use google_messages_multidev.Prelude.Core.{[], arith, false, refl, true, ℕ, ◌+◌, ◌≡◌}
use google_messages_multidev.Prelude.Tests.{if◌then◌else◌}
use google_messages_multidev.Prelude.Text.{Text, txt}
use google_messages_multidev.Result.{Result, conflict, err, ok}
use google_messages_multidev.Store.Db.{Db, counter}
use google_messages_multidev.Store.Epochs.{bucket_or_new, is_some}
use google_messages_multidev.Store.History.{
  advance_job, advanced, checkpoint_history, checkpoint_job, clear_progress, delete_keys,
  fail_history, forget_pages, history_event, history_prefix, mark_page, page_key, put_cursor,
  queue_history, read_history, requeued, restart_job, rewound, stored_cursor, write_history,
}
use google_messages_multidev.Store.History.Checkpoint.{checkpoint_once}
use google_messages_multidev.Store.History.Generations.{restart-cuts_off}

unfoldable jobs : Unit {0}
unfolding runs read_history write_history queue_history restart_job clear_progress rewound requeued
    history_event checkpoint_history checkpoint_job stored_cursor advance_job mark_page put_cursor
    advanced is_some bucket_or_new page_key history_prefix forget_pages delete_keys counter
jobs = tt

abbrev import_job : HistoryJob
import_job = record {
  generation = 0;
  session_epoch = 0;
  schema = 1;
  id = txt "j1";
  kind = [];
  conversation_id = [];
  folder = [];
  state = pending;
  pages = 0;
  records = 0;
  detail = [];
  updated = 0;
  retry_at = 0;
}

abbrev queued_job : Result (HistoryJob × Db sample)
queued_job = queue_history import_job false new_db

abbrev job : HistoryJob
job = record_or queued_job import_job

abbrev job_db : Db sample
job_db = db_or queued_job

abbrev page : Result (HistoryJob × Db sample)
page =
    checkpoint_history (txt "j1") job.generation (octets_of []) (octets_of (txt "p2")) 20 [] job_db

page_ok : page ≡ ok (record_or page import_job, db_or page)
unfolding jobs
page_ok = refl

job_read : read_history (txt "j1") job_db ≡ ok job
unfolding jobs
job_read = refl

checkpoint_once_example :
    ((record_or page import_job).pages ≡ job.pages + 1)
    × ((record_or page import_job).records ≡ job.records + 20)
    × (stored_cursor (txt "j1") (db_or page) ≡ ok (octets_of (txt "p2")))
    × (checkpoint_history
          (txt "j1")
          job.generation
          (octets_of [])
          (octets_of (txt "p2"))
          20
          []
          (db_or page)
        ≡ (if is_pending (record_or page import_job).state
            then err conflict
            else ok (record_or page import_job, db_or page)))
unfolding jobs
checkpoint_once_example =
    checkpoint_once (txt "j1") job (record_or page import_job) (octets_of []) (octets_of (txt "p2"))
      20 job_db (db_or page) refl refl job_read refl refl page_ok

abbrev again : Result (HistoryJob × Db sample)
again = queue_history job true job_db

again_ok : again ≡ ok (record_or again import_job, db_or again)
unfolding jobs
again_ok = refl

job_generation : job.generation ≡ 1
unfolding jobs
job_generation = refl

restart-cuts_off_example :
    (is_pending (record_or again import_job).state ≡ true)
    × ((previous next : Blob) (records : ℕ) (detail : Text)
        → checkpoint_history (txt "j1") job.generation previous next records detail (db_or again)
          ≡ ok (record_or again import_job, db_or again))
    × ((detail : Text)
        → fail_history (txt "j1") job.generation detail (db_or again)
          ≡ ok (record_or again import_job, db_or again))
unfolding jobs
restart-cuts_off_example =
    restart-cuts_off job job (record_or again import_job) job_db (db_or again) refl refl
      (omega (arith, job_generation)) job_read again_ok
