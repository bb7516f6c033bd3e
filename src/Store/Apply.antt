-- ===== src/Store/Apply.antt =====
-- `Store.Apply`, `Append` and `AppendIfUnchanged` of internal/store/store.go: one provider event,
-- with its private metadata and the send that it confirms, in one transaction.
pub mod Revisions
pub mod Fence
use google_messages_multidev.Event.{Event}
use google_messages_multidev.Platform.{Platform}
use google_messages_multidev.Prelude.Assoc.{Table}
use google_messages_multidev.Prelude.Core.{
  Bool, Option, [], false, none, not, some, suc, true, ℕ, ◌&&◌, ◌||◌, ◌∷◌,
}
use google_messages_multidev.Prelude.Tests.{if◌then◌else◌, ltb}
use google_messages_multidev.Prelude.Text.{Text, text_eq, txt}
use google_messages_multidev.Result.{Result, corrupt, err, invalid_event, ok}
use google_messages_multidev.Store.Conversations.{preview_conversation, refresh_conversation}
use google_messages_multidev.Store.Db.{Db, Tx, encrypt, modify, read_counter, record_key, ◌>>◌}
use google_messages_multidev.Store.Epochs.{is_some, stamp_epoch}
use google_messages_multidev.Store.Events.{append_tx, compacted, event_key, observe_tx, plain_at}
use google_messages_multidev.Store.Outbox.{confirm_send}

module _ {env : Platform} where
  open env use {Bytes, bolt, json}

  -- An observation made after the history request began.
  unfoldable pub is_stale : Option ℕ → Text → Db env → Bool
  is_stale none key db = false
  is_stale (some mark) key db = elim (read_counter env (bolt.get db.versions key)) [
    | none ↦ false
    | some version ↦ ltb mark version
  ]

  unfoldable pub preview_event : Event Bytes → Db env → Result (Event Bytes)
  preview_event event db =
      if text_eq event.kind (txt "conversation")
      then elim (preview_conversation event.payload db) [
        | err e ↦ err e
        | ok payload ↦ ok (record event { payload = payload })
      ]
      else ok event

  -- Whether the entity is new, and the status of the message that it replaces.
  unfoldable pub previous_of : Event Bytes → Db env → Result (Bool × Text)
  previous_of event db =
      if text_eq event.kind (txt "message")
      then elim (plain_at env db.latest (event_key event) (event_key event)) [
        | err e ↦ err e
        | ok none ↦ ok (true, [])
        | ok (some plain) ↦ elim (json.message_codec.unmarshal plain) [
          | none ↦ err corrupt
          | some m ↦ ok (false, m.status)
        ]
      ]
      else ok (not (is_some (bolt.get db.latest (event_key event))), [])

  unfoldable pub put_privates : Table Bytes → Db env → Db env
  put_privates [] db = db
  put_privates ((id, plain) ∷ rest) db = put_privates rest (record db {
    private = bolt.put db.private id (encrypt env db.draws plain (record_key (txt "private") id));
    draws = suc db.draws;
  })

  unfoldable pub refresh_message : Event Bytes → Bool → Bool × Text → Bool → Tx env Bool
  refresh_message event historical (fresh, previous_status) changed db =
      if text_eq event.kind (txt "message")
      then elim (refresh_conversation event.payload (fresh && not historical) previous_status db) [
        | err e ↦ err e
        | ok (refreshed, db') ↦ ok (changed || refreshed, db')
      ]
      else ok (changed, db)

  -- The steps of a fresh observation, from the append on.
  unfoldable pub record_event :
      Event Bytes → Event Bytes → Bool → Table Bytes → Bool × Text → Tx env Bool
  unfolding refresh_message
  record_event event applied historical private previous db = elim (append_tx applied db) [
    | err e ↦ err e
    | ok (changed, db') ↦
        (do
          observe_tx (event_key event)
          modify (put_privates private)
          refresh_message event historical previous changed)
          db'
  ]

  unfoldable pub apply_fresh : Event Bytes → Bool → Table Bytes → Tx env Bool
  unfolding preview_event previous_of
  apply_fresh event historical private db = elim (preview_event event db) [
    | err e ↦ err e
    | ok applied ↦
        let stamped_db = stamp_epoch event.kind event.entity_id db in
        elim (previous_of event stamped_db) [
          | err e ↦ err e
          | ok previous ↦ record_event event applied historical private previous stamped_db
        ]
  ]

  unfoldable pub confirm_event : Event Bytes → Bool → Tx env Bool
  confirm_event event changed db =
      if text_eq event.kind (txt "message")
      then elim (json.message_codec.unmarshal event.payload) [
        | none ↦ err corrupt
        | some m ↦ elim (confirm_send m db) [
          | err e ↦ err e
          | ok (observed, db') ↦ ok (changed || observed, db')
        ]
      ]
      else ok (changed, db)

  -- `Apply`.
  unfoldable pub apply : Event Bytes → Bool → Table Bytes → Option ℕ → Tx env Bool
  unfolding is_stale apply_fresh confirm_event
  apply event historical private mark db =
      if is_stale mark (event_key event) db
      then confirm_event event false db
      else elim (apply_fresh event historical private db) [
        | err e ↦ err e
        | ok (changed, db') ↦ confirm_event event changed db'
      ]

  -- `Append`, outside its transaction.
  unfoldable pub append : Event Bytes → Bool → Tx env Bool
  append event historical db = elim (compacted env event) [
    | err e ↦ err invalid_event
    | ok canonical ↦ apply event historical [] none db
  ]

  -- `AppendIfUnchanged`.
  unfoldable pub append_if_unchanged : Event Bytes → Bool → ℕ → Tx env Bool
  append_if_unchanged event historical mark = apply event historical [] (some mark)
