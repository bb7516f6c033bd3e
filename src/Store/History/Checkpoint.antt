-- ===== src/Store/History/Checkpoint.antt =====
-- What a history job owes its workers (internal/store/features.go): a page counts once, and a worker
-- of an earlier generation has no say.
use google_messages_multidev.Model.{HistoryJob, is_pending}
use google_messages_multidev.Platform.{Platform}
use google_messages_multidev.Prelude.Core.{
  Bool, [], arith, false, inl, inr, some, true, ℕ, ◌+◌, ◌∙◌, ◌≡◌,
}
use google_messages_multidev.Prelude.Tests.{==_iff, Bool-cases, if◌then◌else◌}
use google_messages_multidev.Prelude.Text.{Text, is_empty, text_eq_refl}
use google_messages_multidev.Result.{Result-cases, conflict, err, ok}
use google_messages_multidev.Store.Db.{Db}
use google_messages_multidev.Store.Epochs.{is_some}
use google_messages_multidev.Store.Events.{append_tx, compacted, event_key}
use google_messages_multidev.Store.Events.Frame.{SameRest, SameRest-append}
use google_messages_multidev.Store.Events.Latest.{append_tx-latest}
use google_messages_multidev.Store.History.{
  advance_job, advanced, checkpoint_history, checkpoint_job, history_event, history_key, mark_page,
  page_key, private_context, put_cursor, read_history, stored_cursor, write_history,
}
use google_messages_multidev.Store.Laws.{plain_at-put_self}

advanced-fields :
    (job : HistoryJob) (records : ℕ) (last repeated : Bool)
    → ((advanced job records last repeated).id ≡ job.id)
      × ((advanced job records last repeated).generation ≡ job.generation)
      × ((advanced job records last repeated).pages ≡ job.pages + 1)
      × ((advanced job records last repeated).records ≡ job.records + records)
unfolding advanced
advanced-fields job records last repeated = ground arith

module _ (env : Platform) where
  compacted-history :
      (job : HistoryJob)
      → is_empty job.id ≡ false
      → compacted env (history_event env job) ≡ ok (env.json.history_codec.marshal job)
  unfolding compacted history_event
  compacted-history job h = ground (arith, env.json.compact-history job)

module _ {env : Platform} where
  open env use {Bytes, raw, octets, bolt, json}

  abbrev pub written_at : HistoryJob → Db env → HistoryJob
  written_at job db = record job { updated = db.now }

  write_history-append :
      (job written : HistoryJob) (db db' : Db env)
      → write_history job db ≡ ok (written, db')
      → (changed : Bool) × (append_tx (history_event env (written_at job db)) db
          ≡ ok (changed, db'))
        × (written ≡ written_at job db)
  unfolding write_history
  write_history-append job written db db' h =
      elim (Result-cases (append_tx (history_event env (written_at job db)) db)) [
        | inl ((changed, next), e) ↦ (changed, ground arith, ground arith)
        | inr (x, e) ↦ absurd (ground arith)
      ]

  -- What is written is read back, and nothing but the log and the snapshots is touched.
  pub read-write_history :
      (job written : HistoryJob) (db db' : Db env)
      → is_empty job.id ≡ false
      → write_history job db ≡ ok (written, db')
      → (read_history job.id db' ≡ ok written) × (written ≡ written_at job db) × SameRest db db'
  unfolding read_history history_event event_key
  read-write_history job written db db' n h =
      let (changed, e, w) = write_history-append job written db db' h in
      let seen =
        append_tx-latest (history_event env (written_at job db)) db db' changed
          (json.history_codec.marshal (written_at job db))
          (compacted-history env (written_at job db) n) e (history_key job.id) in
      (
        ground (
          arith,
          seen,
          w,
          text_eq_refl (history_key job.id),
          json.history_codec.unmarshal-marshal (written_at job db),
        ),
        w,
        SameRest-append (history_event env (written_at job db)) db e,
      )

  stored_cursor-same :
      (id : Text) (db db' : Db env)
      → db'.private ≡ db.private
      → stored_cursor id db' ≡ stored_cursor id db
  unfolding stored_cursor
  stored_cursor-same id db db' e = rw e

  stored_cursor-put :
      (id : Text) (next : Bytes) (db : Db env) → stored_cursor id (put_cursor id next db) ≡ ok next
  unfolding stored_cursor put_cursor
  stored_cursor-put id next db = ground (
    arith,
    plain_at-put_self env db.private (history_key id) (private_context (history_key id)) db.draws
        next,
  )

  -- What a page that was taken leaves behind.
  record PageTaken (id : Text) (old new : HistoryJob) (next : Bytes) (records : ℕ) (db : Db env)
      : Type 0 where
    stored : read_history id db ≡ ok new
    cursor : stored_cursor id db ≡ ok next
    same_generation : new.generation ≡ old.generation
    one_page : new.pages ≡ old.pages + 1
    more_records : new.records ≡ old.records + records

  advance_job-PageTaken :
      (id : Text) (job new : HistoryJob) (previous next : Bytes) (records : ℕ) (db db' : Db env)
      → is_empty id ≡ false
      → job.id ≡ id
      → advance_job id job previous next records db ≡ ok (new, db')
      → PageTaken id job new next records db'
  unfolding advance_job
  advance_job-PageTaken id job new previous next records db db' n k h =
      let seen = mark_page id previous db in
      let last = is_empty (octets next) in
      let repeated = is_some (bolt.get seen (page_key env id next)) in
      let mid = put_cursor id next (record db { history_pages = some seen }) in
      let f = advanced-fields job records last repeated in
      let (stored, w, rest) =
        read-write_history (advanced job records last repeated) new mid db' (rw (f.0, k) n) h in
      record {
        stored = rw (f.0, k) at stored;
        cursor =
            stored_cursor-same id mid db' rest.private
            ∙ stored_cursor-put id next (record db { history_pages = some seen });
        same_generation = rw w f.1;
        one_page = rw w f.2;
        more_records = rw w f.3;
      }

  checkpoint-advances :
      (id : Text) (old new : HistoryJob) (previous next : Bytes) (records : ℕ) (db db' : Db env)
      → read_history id db ≡ ok old
      → is_pending old.state ≡ true
      → checkpoint_history id old.generation previous next records [] db ≡ ok (new, db')
      → advance_job id old previous next records db ≡ ok (new, db')
  unfolding checkpoint_history checkpoint_job
  checkpoint-advances id old new previous next records db db' r p h =
      elim (Result-cases (stored_cursor id db)) [
        | inl (current, c) ↦ elim (Bool-cases (env.same_bytes current previous)) [
          | inl e ↦ ground (arith, ==_iff old.generation old.generation)
          | inr e ↦ absurd (ground (arith, ==_iff old.generation old.generation))
        ]
        | inr (x, c) ↦ absurd (ground (arith, ==_iff old.generation old.generation))
      ]

  -- A page counts once. For a pending job, stored under its own id, which is not empty: where a
  -- checkpoint from one cursor to another that reports no trouble went through, one page and its
  -- records are added, the cursor moves to the next page, and the same checkpoint sent again changes
  -- nothing: it is refused while the job goes on, and ignored once it has ended.
  pub checkpoint_once :
      (id : Text) (old new : HistoryJob) (previous next : Bytes) (records : ℕ) (db db' : Db env)
      → is_empty id ≡ false
      → old.id ≡ id
      → read_history id db ≡ ok old
      → is_pending old.state ≡ true
      → env.same_bytes next previous ≡ false
      → checkpoint_history id old.generation previous next records [] db ≡ ok (new, db')
      → (new.pages ≡ old.pages + 1)
        × (new.records ≡ old.records + records)
        × (stored_cursor id db' ≡ ok next)
        × (checkpoint_history id old.generation previous next records [] db'
            ≡ (if is_pending new.state then err conflict else ok (new, db')))
  unfolding checkpoint_history checkpoint_job
  checkpoint_once id old new previous next records db db' n k r p d h =
      let t =
        advance_job-PageTaken id old new previous next records db db' n k
          (checkpoint-advances id old new previous next records db db' r p h) in
      (
        t.one_page,
        t.more_records,
        t.cursor,
        ground (arith, t.stored, t.cursor, t.same_generation, ==_iff new.generation old.generation),
      )
