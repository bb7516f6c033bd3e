-- ===== src/Bridge/Imports.antt =====
-- Imports of a phone's history: `QueueHistory` and `historyOne` of internal/bridge/history.go.
pub mod First
use google_messages_multidev.Bridge.Provider.{Around, Provider, Snapshot}
use google_messages_multidev.Bridge.Worker.{Act, apply_snapshot, call_provider, commit, notify_hub}
use google_messages_multidev.Model.{HistoryJob, is_pending, other_job}
use google_messages_multidev.Platform.{Platform}
use google_messages_multidev.Prelude.Core.{
  Bool, List, Option, [], false, none, not, some, true, ℕ, ◌&&◌, ◌||◌, ◌∷◌,
}
use google_messages_multidev.Prelude.Lists.{length}
use google_messages_multidev.Prelude.Tests.{if◌then◌else◌, leb, ltb}
use google_messages_multidev.Prelude.Text.{Text, is_empty, text_eq, txt}
use google_messages_multidev.Result.{Error, Result, bad_cursor, corrupt, err, invalid, ok}
use google_messages_multidev.Store.Db.{Db, record_key}
use google_messages_multidev.Store.Epochs.{entity_current}
use google_messages_multidev.Store.Events.{history_watermark}
use google_messages_multidev.Store.History.{checkpoint_history, fail_history, queue_history}
use google_messages_multidev.Store.Records.{get_value, history_cursor, latest_records, on_latest}

abbrev pub unavailable_detail : Text
unavailable_detail = txt "Phone history unavailable; will retry"

abbrev pub stopped_import : Text
stopped_import = txt "Provider history cursor is unsupported or invalid; import stopped"

abbrev pub is_bad_cursor : Error → Bool
is_bad_cursor bad_cursor = true
is_bad_cursor _ = false

abbrev pub blank_job : HistoryJob
blank_job = record {
  generation = 0;
  session_epoch = 0;
  schema = 0;
  id = [];
  kind = [];
  conversation_id = [];
  folder = [];
  state = other_job [];
  pages = 0;
  records = 0;
  detail = [];
  updated = 0;
  retry_at = 0;
}

abbrev pub messages_job : Text → HistoryJob
messages_job conversation = record blank_job {
  kind = txt "messages";
  conversation_id = conversation;
  id = record_key (txt "messages") conversation;
}

abbrev pub conversations_job : Text → HistoryJob
conversations_job folder = record blank_job {
  kind = txt "conversations";
  folder = folder;
  id = record_key (txt "conversations") folder;
}

unfoldable pub is_folder : Text → Bool
is_folder folder =
    text_eq folder (txt "inbox") || (text_eq folder (txt "archive") || text_eq folder (txt "spam"))

-- A job that waits, and whose time has come.
unfoldable pub is_due_job : ℕ → HistoryJob → Bool
is_due_job now job = is_pending job.state && leb job.retry_at now

-- The due job that was written first.
unfoldable pub first_job : Option HistoryJob → List HistoryJob → Option HistoryJob
first_job best [] = best
first_job none (j ∷ js) = first_job (some j) js
first_job (some b) (j ∷ js) = first_job (if ltb j.updated b.updated then some j else some b) js

unfoldable pub due_jobs : (env : Platform) → ℕ → List env.Bytes → Result (List HistoryJob)
unfolding is_due_job
due_jobs env now [] = ok []
due_jobs env now (plain ∷ rest) = elim (env.json.history_codec.unmarshal plain) [
  | none ↦ err corrupt
  | some job ↦ elim (due_jobs env now rest) [
    | err e ↦ err e
    | ok jobs ↦ ok (if is_due_job now job then job ∷ jobs else jobs)
  ]
]

module _ {env : Platform} where
  open env use {Bytes}

  -- The job that `QueueHistory` is asked for.
  unfoldable pub asked_job : Text → Text → Db env → Result HistoryJob
  unfolding is_folder
  asked_job conversation folder db =
      if is_empty conversation
      then (if is_folder folder then ok (conversations_job folder) else err invalid)
      else if not (entity_current (txt "conversation") conversation db)
      then err invalid
      else if not (is_empty folder) || ltb 256 (length conversation)
      then err invalid
      else elim (get_value on_latest (record_key (txt "conversation") conversation) db) [
        | err e ↦ err e
        | ok plain ↦ ok (messages_job conversation)
      ]

  -- `QueueHistory`.
  unfoldable pub queue_import : Text → Text → Bool → Act env HistoryJob
  unfolding asked_job
  queue_import conversation folder restart w = elim (asked_job conversation folder w.db) [
    | err e ↦ (err e, w)
    | ok job ↦
        let done_tx = commit (queue_history job restart) w in
        elim done_tx.0 [
          | err e ↦ (err e, done_tx.1)
          | ok written ↦ (ok written, record (notify_hub done_tx.1) { history_wake = true })
        ]
  ]

  -- The snapshots of a page, each of them applied, and with the conversations their imports queued.
  unfoldable pub import_page : HistoryJob → ℕ → List (Snapshot env) → Act env (Unit {0})
  unfolding queue_import
  import_page job mark [] w = (ok tt, w)
  import_page job mark (snap ∷ snaps) w =
      let applied = apply_snapshot snap true mark w in
      let queued_too = queue_import snap.event.entity_id [] false applied.1 in
      elim applied.0 [
        | err e ↦ (err e, applied.1)
        | ok u ↦
            if text_eq job.kind (txt "conversations")
            then elim queued_too.0 [
              | err e ↦ (err e, queued_too.1)
              | ok j ↦ import_page job mark snaps queued_too.1
            ]
            else import_page job mark snaps applied.1
      ]

  -- What a page that could not be had does to its job.
  unfoldable pub miss_page : HistoryJob → Bytes → Error → Act env (Unit {0})
  miss_page job cursor e w =
      let done_tx =
        if is_bad_cursor e
        then commit (fail_history job.id job.generation stopped_import) w
        else commit (checkpoint_history job.id job.generation cursor cursor 0 unavailable_detail)
            w in
      (elim done_tx.0 [ err x ↦ err x | ok j ↦ ok tt ], notify_hub done_tx.1)

  unfoldable pub keep_page :
      HistoryJob → Bytes → ℕ → List (Snapshot env) × Bytes → Act env (Unit {0})
  unfolding import_page
  keep_page job cursor mark (snaps, next) w =
      let imported = import_page job mark snaps w in
      elim imported.0 [
        | err e ↦ (err e, imported.1)
        | ok u ↦
            let done_tx =
              commit (checkpoint_history job.id job.generation cursor next (length snaps) [])
                imported.1 in
            elim done_tx.0 [ err e ↦ (err e, done_tx.1) | ok j ↦ (ok tt, notify_hub done_tx.1) ]
      ]

module _ {env : Platform} (p : Provider env) (around : Around env) where
  open env use {Bytes}

  unfoldable pub ask_page : HistoryJob → Bytes → Act env (List (Snapshot env) × Bytes)
  ask_page job cursor w =
      if text_eq job.kind (txt "messages")
      then call_provider around (λ n. p.message_page n job.conversation_id cursor) w
      else call_provider around (λ n. p.conversation_page n job.folder cursor) w

  unfoldable pub import_one : HistoryJob → Bytes → Act env (Unit {0})
  unfolding ask_page miss_page keep_page
  import_one job cursor w =
      let asked = ask_page job cursor w in
      if around.ended asked.1.calls then (ok tt, asked.1) else elim asked.0 [
        | err e ↦ miss_page job cursor e asked.1
        | ok page ↦ keep_page job cursor (history_watermark w.db) page asked.1
      ]

  unfoldable pub import_first : Option HistoryJob → Act env (Unit {0})
  unfolding import_one
  import_first none w = (ok tt, w)
  import_first (some job) w = elim (history_cursor job.id w.db) [
    | err e ↦ (err e, w)
    | ok cursor ↦ import_one job cursor w
  ]

  -- `historyOne`, with a provider.
  unfoldable pub history_one : Act env (Unit {0})
  unfolding due_jobs first_job import_first
  history_one w = elim (latest_records (txt "history") w.db) [
    | err e ↦ (err e, w)
    | ok plains ↦ elim (due_jobs env w.db.now plains) [
      | err e ↦ (err e, w)
      | ok jobs ↦ import_first (first_job none jobs) w
    ]
  ]
