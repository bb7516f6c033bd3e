-- ===== src/Store/History.antt =====
-- History import jobs: `FinishConversation`, `QueueHistory` to `FailHistory` of
-- internal/store/features.go, and the media and private records of internal/store/records.go.
pub mod Created
pub mod Checkpoint
pub mod Generations
use google_messages_multidev.Event.{Event}
use google_messages_multidev.Model.{
  HistoryJob, Outbox, Upload, accepted, complete, failed, is_complete, is_pending, is_sending,
  paused, pending, schema,
}
use google_messages_multidev.Platform.{Platform}
use google_messages_multidev.Prelude.Assoc.{Table, seek, while_prefix}
use google_messages_multidev.Prelude.Bytes.{uint64_bound}
use google_messages_multidev.Prelude.Core.{
  Bool, Option, [], none, not, some, suc, ℕ, ◌%◌, ◌&&◌, ◌++◌, ◌+◌, ◌||◌, ◌∷◌,
}
use google_messages_multidev.Prelude.Tests.{if◌then◌else◌, ◌==◌}
use google_messages_multidev.Prelude.Text.{Text, is_empty, text_eq, txt}
use google_messages_multidev.Result.{
  Result, conflict, corrupt, err, invalid_conversation, is_not_found, not_found, ok, or_error,
}
use google_messages_multidev.Store.Apply.{is_stale, put_privates}
use google_messages_multidev.Store.Conversations.{conversation_key}
use google_messages_multidev.Store.Db.{Db, Tx, encrypt, modify, record_key, ◌>>◌}
use google_messages_multidev.Store.Epochs.{bucket_or_new, epoch, is_some, stamp_epoch}
use google_messages_multidev.Store.Events.{append_tx, observe_tx, plain_at}
use google_messages_multidev.Store.Outbox.{read_outbox, write_outbox}

-- Thirty seconds, in nanoseconds.
abbrev pub retry_delay : ℕ
retry_delay = 30000000000

abbrev pub repeated_detail : Text
repeated_detail = txt "Provider repeated a history cursor; import stopped"

abbrev pub history_key : Text → Text
history_key id = record_key (txt "history") id

abbrev pub private_context : Text → Text
private_context id = record_key (txt "private") id

module _ (env : Platform) where
  open env use {Bytes, raw, octets, bolt, json, sha_hex}

  unfoldable pub history_event : HistoryJob → Event Bytes
  history_event job = record {
    id = 0;
    kind = txt "history";
    entity_id = job.id;
    time = 0;
    payload = json.history_codec.marshal job;
  }

  -- `historyPrefix`.
  unfoldable pub history_prefix : Text → Text
  history_prefix id = sha_hex (raw id) ++ 58 ∷ []

  -- The key of a cursor that a job has read.
  unfoldable pub page_key : Text → Bytes → Text
  unfolding history_prefix
  page_key id cursor = history_prefix id ++ sha_hex cursor

  unfoldable pub delete_keys : Table Bytes → bolt.Bucket → bolt.Bucket
  delete_keys [] b = b
  delete_keys ((k, v) ∷ rest) b = delete_keys rest (bolt.delete b k)

  -- The pages that a job has read are forgotten.
  unfoldable pub forget_pages : Text → Option bolt.Bucket → Option bolt.Bucket
  unfolding delete_keys history_prefix
  forget_pages id none = none
  forget_pages id (some seen) = some (
      delete_keys (while_prefix (history_prefix id) (seek (history_prefix id) (bolt.entries seen)))
        seen)

unfoldable pub requeued : ℕ → ℕ → HistoryJob → HistoryJob
requeued session now job = record job {
  generation = (job.generation + 1) % uint64_bound;
  session_epoch = session;
  updated = now;
  schema = schema;
  state = pending;
  detail = [];
  retry_at = 0;
}

unfoldable pub rewound : Bool → HistoryJob → HistoryJob
rewound restart job = if restart then record job { pages = 0; records = 0 } else job

-- The job after a page that was read: complete at the last one, failed at a cursor seen before.
unfoldable pub advanced : HistoryJob → ℕ → Bool → Bool → HistoryJob
advanced job records last repeated =
    let next = record job {
      detail = [];
      pages = job.pages + 1;
      records = job.records + records;
      retry_at = 0;
    } in
    if last
    then record next { state = complete }
    else if repeated
    then record next { state = failed; detail = repeated_detail }
    else next

unfoldable pub accepted_conversation : Outbox → Text → ℕ → Outbox
accepted_conversation o id now = record o {
  state = accepted;
  conversation_id = id;
  updated = now;
  detail = txt "Conversation is ready; no message was sent";
}

module _ {env : Platform} where
  open env use {Bytes, raw, octets, bolt, json}

  -- `historyTx`.
  unfoldable pub read_history : Text → Db env → Result HistoryJob
  read_history id db = elim (plain_at env db.latest (history_key id) (history_key id)) [
    | err e ↦ err e
    | ok none ↦ err not_found
    | ok (some plain) ↦ or_error (json.history_codec.unmarshal plain) corrupt
  ]

  -- `writeHistory`, which stamps the job.
  unfoldable pub write_history : HistoryJob → Tx env HistoryJob
  write_history job db =
      let stamped_job = record job { updated = db.now } in
      elim (append_tx (history_event env stamped_job) db) [
        | err e ↦ err e
        | ok (changed, db') ↦ ok (stamped_job, db')
      ]

  unfoldable pub clear_progress : Bool → Text → Db env → Db env
  clear_progress restart id db =
      if restart
      then record db {
        private = bolt.delete db.private (history_key id);
        history_pages = forget_pages env id db.history_pages;
      }
      else db

  unfoldable pub restart_job : HistoryJob → Bool → Tx env HistoryJob
  unfolding clear_progress rewound requeued
  restart_job job restart db =
      write_history (requeued (epoch db) db.now (rewound restart job))
        (clear_progress restart job.id db)

  -- `QueueHistory`.
  unfoldable pub queue_history : HistoryJob → Bool → Tx env HistoryJob
  queue_history job restart db = elim (read_history job.id db) [
    | err e ↦ if is_not_found e then restart_job job restart db else err e
    | ok old ↦
        if not restart && (is_complete old.state || is_pending old.state)
        then ok (old, db)
        else restart_job old restart db
  ]

  -- `PauseHistory`.
  unfoldable pub pause_history : Text → Tx env HistoryJob
  pause_history id db = elim (read_history id db) [
    | err e ↦ err e
    | ok job ↦
        if is_complete job.state
        then ok (job, db)
        else write_history (record job { state = paused; updated = db.now }) db
  ]

  -- The stored cursor of a job; none reads as the empty one.
  unfoldable pub stored_cursor : Text → Db env → Result Bytes
  stored_cursor id db =
      elim (plain_at env db.private (history_key id) (private_context (history_key id))) [
        | err e ↦ err e
        | ok none ↦ ok (raw [])
        | ok (some plain) ↦ ok plain
      ]

  unfoldable pub put_cursor : Text → Bytes → Db env → Db env
  put_cursor id next db = record db {
    private =
        bolt.put db.private (history_key id)
          (encrypt env db.draws next (private_context (history_key id)));
    draws = suc db.draws;
  }

  unfoldable pub mark_page : Text → Bytes → Db env → bolt.Bucket
  unfolding bucket_or_new
  mark_page id previous db =
      bolt.put (bucket_or_new env db.history_pages) (page_key env id previous) (raw (1 ∷ []))

  unfoldable pub advance_job : Text → HistoryJob → Bytes → Bytes → ℕ → Tx env HistoryJob
  unfolding mark_page put_cursor advanced is_some
  advance_job id job previous next records db =
      let seen = mark_page id previous db in
      write_history
        (advanced job records (is_empty (octets next))
          (is_some (bolt.get seen (page_key env id next))))
        (put_cursor id next (record db { history_pages = some seen }))

  unfoldable pub checkpoint_job : Text → HistoryJob → Bytes → Bytes → ℕ → Text → Tx env HistoryJob
  checkpoint_job id job previous next records detail db = elim (stored_cursor id db) [
    | err e ↦ err e
    | ok current ↦
        if env.same_bytes current previous
        then if is_empty detail
          then advance_job id job previous next records db
          else write_history (record job { detail = detail; retry_at = db.now + retry_delay }) db
        else err conflict
  ]

  -- `CheckpointHistory`: the job as it was written, or as it stands if the call is out of date.
  unfoldable pub checkpoint_history : Text → ℕ → Bytes → Bytes → ℕ → Text → Tx env HistoryJob
  checkpoint_history id generation previous next records detail db = elim (read_history id db) [
    | err e ↦ err e
    | ok job ↦
        if not (is_pending job.state) || not (job.generation == generation)
        then ok (job, db)
        else checkpoint_job id job previous next records detail db
  ]

  -- `FailHistory`.
  unfoldable pub fail_history : Text → ℕ → Text → Tx env HistoryJob
  fail_history id generation detail db = elim (read_history id db) [
    | err e ↦ err e
    | ok job ↦
        if not (is_pending job.state) || not (job.generation == generation)
        then ok (job, db)
        else write_history (record job { state = failed; detail = detail; retry_at = 0 }) db
  ]

  -- `SaveUpload`.
  unfoldable pub save_upload : Upload → Bytes → Tx env Bool
  save_upload u content db =
      append_tx
        (record {
          id = 0;
          kind = txt "upload";
          entity_id = u.id;
          time = 0;
          payload = json.upload_codec.marshal u;
        })
        (record db {
          media = bolt.put db.media (record_key (txt "upload") u.id) (
              encrypt env db.draws content
                (record_key (txt "media") (record_key (txt "upload") u.id)));
          draws = suc db.draws;
        })

  unfoldable pub record_created : Event Bytes → Table Bytes → ℕ → Tx env (Unit {0})
  unfolding put_privates
  record_created event private mark db =
      if is_stale (some mark) (conversation_key event.entity_id) db
      then ok (tt, db)
      else elim (append_tx event db) [
        | err e ↦ err e
        | ok (changed, db') ↦
            (do observe_tx (conversation_key event.entity_id); modify (put_privates private)) db'
      ]

  -- `FinishConversation`.
  unfoldable pub finish_conversation : Text → Event Bytes → Table Bytes → ℕ → Tx env (Unit {0})
  finish_conversation id event private mark db = elim (read_outbox id db) [
    | err e ↦ err e
    | ok o ↦
        if not (is_sending o.state) || not (text_eq o.request.kind (txt "conversation"))
        then err conflict
        else if not (text_eq event.kind (txt "conversation")) || is_empty event.entity_id
        then err invalid_conversation
        else (do
          record_created event private mark
          modify (stamp_epoch (txt "conversation") event.entity_id)
          write_outbox (accepted_conversation o event.entity_id db.now))
            db
  ]
