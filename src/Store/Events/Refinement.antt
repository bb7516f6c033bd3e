-- ===== src/Store/Events/Refinement.antt =====
-- `appendTx` of internal/store/store.go implements the list of events.
use google_messages_multidev.Event.{Event}
use google_messages_multidev.Platform.{Platform}
use google_messages_multidev.Prelude.Bytes.{uint64_bound}
use google_messages_multidev.Prelude.Core.{
  List, arith, false, inl, inr, none, some, suc, true, ◌<◌, ◌≡◌, ◌⊎◌,
}
use google_messages_multidev.Prelude.Lists.{length}
use google_messages_multidev.Prelude.Tests.{Bool-cases, if◌then◌else◌}
use google_messages_multidev.Prelude.Text.{Text, text_eq, txt}
use google_messages_multidev.Result.{ok}
use google_messages_multidev.Store.Db.{Db}
use google_messages_multidev.Store.Events.{
  append_compacted, append_tx, compacted, event_key, index_message, publish, put_index, unchanged,
  write_event,
}
use google_messages_multidev.Store.Events.Log.{
  IsLog, IsLog-same, IsLog-write_event, appended, newest,
}

-- An event that can be indexed: no message, or one whose ids unmarshal.
abbrev pub IsIndexable : (env : Platform) → Event env.Bytes → env.Bytes → Type 0
IsIndexable env event canonical =
    (text_eq event.kind (txt "message") ≡ false)
    ⊎ ((ids : Text × Text) × (env.json.read_ids canonical ≡ some ids))

module _ {env : Platform} where
  open env use {Bytes, bolt, json}

  -- The state that `publish` leaves, where it succeeds.
  published : Event Bytes → Db env → Db env
  published event db = elim (json.read_ids event.payload) [
    | none ↦ write_event event db
    | some ids ↦
        if text_eq event.kind (txt "message")
        then put_index ids (write_event event db)
        else write_event event db
  ]

  published-log :
      (event : Event Bytes) (db : Db env)
      → ((published event db).events ≡ (write_event event db).events)
        × ((published event db).latest ≡ (write_event event db).latest)
  unfolding published put_index
  published-log event db = ground arith

  publish-published :
      (event : Event Bytes) (db : Db env)
      → IsIndexable env event event.payload
      → publish event db ≡ ok (true, published event db)
  unfolding publish index_message published
  publish-published event db i = ground arith

  -- On a database that holds a list of events, with a number left, `appendTx` of an event that is
  -- valid and can be indexed succeeds. It reports and drops a repeated payload, and adds any other
  -- to the end of the list, under the next number and at the current time.
  pub append-refines :
      (event : Event Bytes) (db : Db env) (log : List (Event Bytes)) (canonical : Bytes)
      → IsLog db log
      → suc (length log) < uint64_bound
      → compacted env event ≡ ok canonical
      → IsIndexable env event canonical
      → let spec = appended env (record event { payload = canonical }) db.now log in
        (db' : Db env) × (append_tx event db ≡ ok (spec.1, db')) × IsLog db' spec.0
  unfolding append_tx append_compacted appended
  append-refines event db log canonical l room valid i =
      let next = record event { payload = canonical } in
      let seen = l.snapshots (event_key next) in
      elim (Bool-cases (unchanged env (newest (event_key next) log) canonical)) [
        | inl old ↦ (db, ground (arith, seen), rw old l)
        | inr new ↦ (
          published next db,
          ground (arith, seen, publish-published next db i),
          rw new (
              IsLog-same (write_event next db) (published next db) (published-log next db).0
                (published-log next db).1 (IsLog-write_event next db log l room)),
        )
      ]
