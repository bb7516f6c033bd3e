-- ===== src/Store/History/Generations.antt =====
-- Restarting a history job (internal/store/features.go) cuts off the workers of its last run.
use google_messages_multidev.Model.{HistoryJob, is_pending, pending}
use google_messages_multidev.Platform.{Platform}
use google_messages_multidev.Prelude.Bytes.{uint64_bound}
use google_messages_multidev.Prelude.Core.{
  Bool, arith, false, sym, true, ℕ, ◌%◌, ◌+◌, ◌<◌, ◌∙◌, ◌≡◌, ◌≢◌,
}
use google_messages_multidev.Prelude.Text.{Text, is_empty}
use google_messages_multidev.Result.{ok}
use google_messages_multidev.Store.Db.{Db}
use google_messages_multidev.Store.Epochs.{epoch}
use google_messages_multidev.Store.History.{
  checkpoint_history, clear_progress, fail_history, queue_history, read_history, requeued,
  restart_job, rewound,
}
use google_messages_multidev.Store.History.Checkpoint.{read-write_history}

requeued-fields :
    (session now : ℕ) (restart : Bool) (job : HistoryJob)
    → ((requeued session now (rewound restart job)).id ≡ job.id)
      × ((requeued session now (rewound restart job)).generation
          ≡ (job.generation + 1) % uint64_bound)
      × ((requeued session now (rewound restart job)).state ≡ pending)
unfolding requeued rewound
requeued-fields session now restart job = ground arith

next_generation : (g : ℕ) → g < uint64_bound → (g + 1) % uint64_bound ≢ g
next_generation g b e = omega arith

module _ {env : Platform} where
  open env use {Bytes}

  restart_job-stored :
      (job new : HistoryJob) (restart : Bool) (db db' : Db env)
      → is_empty job.id ≡ false
      → restart_job job restart db ≡ ok (new, db')
      → (read_history job.id db' ≡ ok new)
        × (new.generation ≡ (job.generation + 1) % uint64_bound)
        × (new.state ≡ pending)
  unfolding restart_job
  restart_job-stored job new restart db db' n h =
      let f = requeued-fields (epoch db) db.now restart job in
      let next = requeued (epoch db) db.now (rewound restart job) in
      let (stored, w, rest) =
        read-write_history next new (clear_progress restart job.id db) db' (rw f.0 n) h in
      (rw f.0 at stored, rw w f.1, rw w f.2)

  queue_history-restarts :
      (job old new : HistoryJob) (db db' : Db env)
      → read_history job.id db ≡ ok old
      → queue_history job true db ≡ ok (new, db')
      → restart_job old true db ≡ ok (new, db')
  unfolding queue_history
  queue_history-restarts job old new db db' r h = ground arith

  -- A stored job, under its own id, which is not empty, and of a generation of 64 bits: after a restart
  -- that succeeds it is queued under another generation, and a worker that still holds the old one
  -- can neither checkpoint a page, report a failure, nor end the job: its calls succeed and leave the
  -- database as it is.
  pub restart-cuts_off :
      (job old new : HistoryJob) (db db' : Db env)
      → is_empty job.id ≡ false
      → old.id ≡ job.id
      → old.generation < uint64_bound
      → read_history job.id db ≡ ok old
      → queue_history job true db ≡ ok (new, db')
      → (is_pending new.state ≡ true)
        × ((previous next : Bytes) (records : ℕ) (detail : Text)
            → checkpoint_history job.id old.generation previous next records detail db'
              ≡ ok (new, db'))
        × ((detail : Text) → fail_history job.id old.generation detail db' ≡ ok (new, db'))
  unfolding checkpoint_history fail_history
  restart-cuts_off job old new db db' n k b r h =
      let (stored', g, q) =
        restart_job-stored old new true db db' (rw k n)
          (queue_history-restarts job old new db db' r h) in
      let stored : read_history job.id db' ≡ ok new = rw k at stored' in
      let other_generation : new.generation ≢ old.generation =
        λ e. next_generation old.generation b (sym g ∙ e) in
      (
        ground (arith, q),
        (λ previous next records detail. ground (arith, stored, other_generation)),
        λ detail. ground (arith, stored, other_generation),
      )
