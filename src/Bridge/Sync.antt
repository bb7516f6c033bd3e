-- ===== src/Bridge/Sync.antt =====
-- Synchronisation with the phone and requests about single messages: `reconcile`, `MarkRead` and
-- `Attachment` of internal/bridge/service.go.
pub mod Media
pub mod Requests
use google_messages_multidev.Bridge.Provider.{Around, Provider, Snapshot}
use google_messages_multidev.Bridge.Queue.{max_attachment_bytes}
use google_messages_multidev.Bridge.Worker.{
  Act, Worker, apply_snapshot, break_store, call_provider, commit, notify_hub, request_sync,
}
use google_messages_multidev.Platform.{Platform}
use google_messages_multidev.Prelude.Assoc.{Table, insert, lookup}
use google_messages_multidev.Prelude.Core.{
  Bool, List, [], false, none, not, some, ℕ, ◌&&◌, ◌+◌, ◌∷◌,
}
use google_messages_multidev.Prelude.Lists.{length}
use google_messages_multidev.Prelude.Tests.{if◌then◌else◌, ltb, ◌==◌}
use google_messages_multidev.Prelude.Text.{Text, text_eq, txt}
use google_messages_multidev.Result.{
  Result, err, in_pairing, invalid, is_not_found, ok, unavailable,
}
use google_messages_multidev.Store.Conversations.{read_conversation}
use google_messages_multidev.Store.Db.{record_key}
use google_messages_multidev.Store.Epochs.{entity_current}
use google_messages_multidev.Store.Events.{history_watermark}
use google_messages_multidev.Store.Records.{get_value, on_latest, on_media, on_private, put_value}

-- One hour, in nanoseconds.
abbrev pub full_reconcile_every : ℕ
full_reconcile_every = 3600000000000

pub record Reconciled (env : Platform) : Type 0 where
  pub snapshot : env.Bytes
  pub at_time : ℕ

module _ {env : Platform} where
  open env use {Bytes}

  -- Whether a conversation is unchanged since its messages were fetched, less than an hour ago.
  unfoldable pub is_unchanged : Table (Reconciled env) → Snapshot env → ℕ → Bool
  is_unchanged seen c now = elim (lookup c.event.entity_id seen) [
    | none ↦ false
    | some last ↦
        env.same_bytes last.snapshot c.event.payload
        && ltb now (last.at_time + full_reconcile_every)
  ]

  unfoldable pub apply_all : List (Snapshot env) → ℕ → Act env (Unit {0})
  apply_all [] mark w = (ok tt, w)
  apply_all (m ∷ ms) mark w =
      let applied = apply_snapshot m false mark w in
      elim applied.0 [ err e ↦ (err e, applied.1) | ok u ↦ apply_all ms mark applied.1 ]

  -- What the provider answered for an attachment is kept, unless it is too large.
  unfoldable pub keep_media : Text → Result Bytes → Act env Bytes
  keep_media id (err e) w = (err e, w)
  keep_media id (ok content) w =
      if ltb max_attachment_bytes (length (env.octets content))
      then (err invalid, w)
      else (ok content, record w { db = put_value on_media id content w.db })

module _ {env : Platform} (p : Provider env) (around : Around env) where
  open env use {Bytes}

  -- The messages of one conversation.
  unfoldable pub fetch_messages : Snapshot env → Act env (Unit {0})
  unfolding apply_all
  fetch_messages c w =
      let mark = history_watermark w.db in
      let asked = call_provider around (λ n. p.messages n c.event.entity_id) w in
      elim asked.0 [ err e ↦ (err e, asked.1) | ok messages ↦ apply_all messages mark asked.1 ]

  -- The map is written as the walk goes, so that it holds what was fetched before an error.
  unfoldable pub reconcile_each :
      List (Snapshot env)
      → ℕ
      → Table (Reconciled env)
      → Worker env
      → Result (Unit {0}) × (Table (Reconciled env) × Worker env)
  unfolding is_unchanged fetch_messages
  reconcile_each [] mark seen w = (ok tt, (seen, w))
  reconcile_each (c ∷ cs) mark seen w =
      let applied = apply_snapshot c false mark w in
      let skipped = reconcile_each cs mark seen applied.1 in
      elim applied.0 [
        | err e ↦ (err e, (seen, applied.1))
        | ok u ↦
            if is_unchanged seen c applied.1.db.now
            then skipped
            else let fetched = fetch_messages c applied.1 in
              elim fetched.0 [
                | err e ↦ (err e, (seen, fetched.1))
                | ok v ↦
                    reconcile_each cs mark
                      (insert c.event.entity_id
                        (record { snapshot = c.event.payload; at_time = fetched.1.db.now }) seen)
                      fetched.1
              ]
      ]

  -- `reconcile`, with a provider and with a map of what was fetched.
  unfoldable pub reconcile :
      Table (Reconciled env)
      → Worker env
      → Result (Unit {0}) × (Table (Reconciled env) × Worker env)
  unfolding reconcile_each
  reconcile seen w =
      let mark = history_watermark w.db in
      let asked = call_provider around (λ n. p.conversations n) w in
      elim asked.0 [
        | err e ↦ (err e, (seen, asked.1))
        | ok convs ↦ reconcile_each convs mark seen asked.1
      ]

  -- The end of `MarkRead`, once the phone has accepted it.
  unfoldable pub note_read : Text → ℕ → Act env (Unit {0})
  note_read conversation through w =
      let done_tx = commit (read_conversation conversation through) w in
      elim done_tx.0 [
        | err e ↦ break_store done_tx.1
        | ok changed ↦ (ok tt, request_sync (if changed then notify_hub done_tx.1 else done_tx.1))
      ]

  unfoldable pub ask_read : Text → Text → ℕ → Act env (Unit {0})
  unfolding note_read
  ask_read conversation id through w =
      let asked = call_provider around (λ n. p.mark_read n conversation id) w in
      elim asked.0 [
        | err e ↦ (err unavailable, asked.1)
        | ok u ↦ note_read conversation through asked.1
      ]

  -- `MarkRead`, with whether a provider is connected.
  unfoldable pub mark_read : Bool → Text → Text → Act env (Unit {0})
  unfolding ask_read
  mark_read connected conversation id w =
      if around.pairs w.calls
      then (err in_pairing, w)
      else if not (entity_current (txt "message") id w.db)
      then (err invalid, w)
      else elim (get_value on_latest (record_key (txt "message") id) w.db) [
        | err e ↦ (err e, w)
        | ok plain ↦ elim (env.json.message_codec.unmarshal plain) [
          | none ↦ (err invalid, w)
          | some m ↦
              if not (text_eq m.conversation_id conversation)
              then (err invalid, w)
              else if connected
              then ask_read conversation id m.time w
              else (err unavailable, w)
        ]
      ]

  unfoldable pub fetch_media : Text → Bytes → Act env Bytes
  unfolding keep_media
  fetch_media id metadata w =
      let asked = call_provider around (λ n. p.attachment n metadata) w in
      keep_media id asked.0 asked.1

  -- `Attachment`, with whether there is a provider.
  unfoldable pub attachment : Bool → Text → Act env Bytes
  unfolding fetch_media
  attachment has_provider id w =
      if not (length id == 64) then (err invalid, w) else elim (get_value on_media id w.db) [
        | ok content ↦ (ok content, w)
        | err e ↦ if not (is_not_found e) then (err e, w) else elim (get_value on_private id w.db) [
          | err x ↦ (err x, w)
          | ok metadata ↦ if has_provider then fetch_media id metadata w else (err unavailable, w)
        ]
      ]
