-- ===== src/Store/Events.antt =====
-- The event log and the latest snapshots: `appendTx`, `Append`, `Events`, `observeTx` of
-- internal/store/store.go, `indexMessage` of internal/store/records.go.
pub mod Frame
pub mod Latest
pub mod Log
pub mod Refinement
pub mod Paging
use google_messages_multidev.Event.{Event}
use google_messages_multidev.Platform.{Platform}
use google_messages_multidev.Prelude.Assoc.{Table, seek}
use google_messages_multidev.Prelude.Bytes.{from_bytes, uint64_bound}
use google_messages_multidev.Prelude.Core.{
  Bool, List, Option, [], false, none, some, suc, true, zero, ℕ, ◌%◌, ◌++◌, ◌+◌, ◌-◌, ◌||◌, ◌∷◌,
}
use google_messages_multidev.Prelude.Tests.{if◌then◌else◌, ltb, ◌==◌}
use google_messages_multidev.Prelude.Text.{Text, decimal, is_empty, text_eq, txt}
use google_messages_multidev.Result.{
  Result, corrupt, err, invalid_event, invalid_limit, ok, or_error,
}
use google_messages_multidev.Store.Db.{
  Db, Tx, counter, decrypt, encrypt, pure, record_key, sequence, ◌>>◌,
}

module _ (env : Platform) where
  open env use {Bytes, raw, bolt, json}

  -- A decrypted value of a bucket, if the key is there.
  unfoldable pub plain_at : bolt.Bucket → Text → Text → Result (Option Bytes)
  plain_at b key context = elim (bolt.get b key) [
    | none ↦ ok none
    | some v ↦ elim (decrypt env v context) [ ok plain ↦ ok (some plain) | err e ↦ err e ]
  ]

  -- The two tests at the head of `appendTx`, and the compaction.
  unfoldable pub compacted : Event Bytes → Result Bytes
  compacted event =
      if is_empty event.kind || is_empty event.entity_id
      then err invalid_event
      else or_error (json.compact event.payload) invalid_event

  unfoldable pub unchanged : Option Bytes → Bytes → Bool
  unchanged none data_bytes = false
  unchanged (some plain) data_bytes = env.same_bytes plain data_bytes

  -- `NextSequence`, a uint64.
  unfoldable pub next_sequence : bolt.Bucket → ℕ
  next_sequence b = (bolt.sequence_of b + 1) % uint64_bound

unfoldable pub event_key : {A : Type 0} → Event A → Text
unfolding record_key
event_key event = record_key event.kind event.entity_id

unfoldable pub event_context : ℕ → Text
event_context id = txt "event:" ++ decimal id

unfoldable pub message_index_key : Text → Text → Text
message_index_key conversation_id message_id = conversation_id ++ 0 ∷ message_id

module _ (env : Platform) where
  open env use {Bytes, json}

  -- The loop of `Events`: at most `room` more records.
  unfoldable pub collect_events : ℕ → Table Bytes → Result (List (Event Bytes))
  collect_events zero rest = ok []
  collect_events (suc room) [] = ok []
  collect_events (suc room) ((k, v) ∷ rest) = elim (decrypt env v (event_context (from_bytes k))) [
    | err e ↦ err e
    | ok plain ↦ elim (json.event_codec.unmarshal plain) [
      | none ↦ err corrupt
      | some event ↦ elim (collect_events room rest) [
        | err e ↦ err e
        | ok events ↦ ok (event ∷ events)
      ]
    ]
  ]

module _ {env : Platform} where
  open env use {Bytes, raw, bolt, json}

  unfoldable pub put_index : Text × Text → Db env → Db env
  unfolding message_index_key
  put_index (id, conversation_id) db =
      if is_empty id || is_empty conversation_id then db else record db {
        message_index = bolt.put db.message_index (message_index_key conversation_id id) (raw []);
      }

  unfoldable pub index_message : Bytes → Tx env (Unit {0})
  index_message payload db = elim (json.read_ids payload) [
    | none ↦ err corrupt
    | some ids ↦ ok (tt, put_index ids db)
  ]

  -- The event as it is written, under the next number.
  unfoldable pub stamped : Event Bytes → Db env → Event Bytes
  unfolding next_sequence
  stamped event db = record event { id = next_sequence env db.events; time = db.now }

  unfoldable pub write_stamped : Event Bytes → Event Bytes → Db env → Db env
  unfolding event_key
  write_stamped next event db = record db {
    events =
        bolt.put (bolt.set_sequence db.events next.id) (sequence next.id)
          (encrypt env db.draws (json.event_codec.marshal next) (event_context next.id));
    latest =
        bolt.put db.latest (event_key event)
          (encrypt env (suc db.draws) event.payload (event_key event));
    draws = suc (suc db.draws);
  }

  unfoldable pub write_event : Event Bytes → Db env → Db env
  unfolding stamped write_stamped
  write_event event db = write_stamped (stamped event db) event db

  unfoldable pub publish : Event Bytes → Tx env Bool
  publish event db =
      if text_eq event.kind (txt "message")
      then (do index_message event.payload; pure true) (write_event event db)
      else ok (true, write_event event db)

  unfoldable pub append_compacted : Event Bytes → Tx env Bool
  append_compacted event db = elim (plain_at env db.latest (event_key event) (event_key event)) [
    | err e ↦ err e
    | ok previous ↦
        if unchanged env previous event.payload then ok (false, db) else publish event db
  ]

  -- `appendTx`.
  unfoldable pub append_tx : Event Bytes → Tx env Bool
  append_tx event db = elim (compacted env event) [
    | err e ↦ err e
    | ok canonical ↦ append_compacted (record event { payload = canonical }) db
  ]

  -- `observeTx`.
  unfoldable pub observe_tx : Text → Tx env (Unit {0})
  observe_tx key db =
      let revision = next_sequence env db.versions in
      ok (
        tt,
        record db {
          versions = bolt.put (bolt.set_sequence db.versions revision) key (counter env revision);
        },
      )

  unfoldable pub page_behind : ℕ → ℕ → Db env → Result (List (Event Bytes))
  unfolding collect_events
  page_behind after limit db =
      if after == uint64_bound - 1
      then ok []
      else collect_events env limit (seek (sequence (after + 1)) (bolt.entries db.events))

  -- `Events`.
  unfoldable pub list_events : ℕ → ℕ → Db env → Result (List (Event Bytes))
  list_events after limit db =
      if ltb limit 1 || ltb 1000 limit then err invalid_limit else page_behind after limit db

  -- `Watermark` and `HistoryWatermark`.
  unfoldable pub watermark : Db env → ℕ
  watermark db = bolt.sequence_of db.events

  unfoldable pub history_watermark : Db env → ℕ
  history_watermark db = bolt.sequence_of db.versions
