-- ===== src/Store/Events/Latest.antt =====
-- The latest snapshots after `appendTx` of internal/store/store.go.
use google_messages_multidev.Event.{Event}
use google_messages_multidev.Platform.{Platform}
use google_messages_multidev.Prelude.Core.{
  Bool, Option, arith, inl, inr, none, some, suc, true, ◌≡◌,
}
use google_messages_multidev.Prelude.Tests.{Bool-cases, if◌then◌else◌}
use google_messages_multidev.Prelude.Text.{Text, text_eq, text_eq_iff, text_eq→eq}
use google_messages_multidev.Result.{Result-cases, ok}
use google_messages_multidev.Store.Db.{Db, encrypt}
use google_messages_multidev.Store.Events.{
  append_compacted, append_tx, compacted, event_key, index_message, plain_at, publish, put_index,
  unchanged, write_event,
}
use google_messages_multidev.Store.Laws.{plain_at-put_ne, plain_at-put_self}

module _ {env : Platform} where
  open env use {Bytes, bolt, json}

  abbrev SnapshotAt : Text → Bytes → Db env → Db env → Type 0
  SnapshotAt key payload db db' =
      (j : Text)
      → plain_at env db'.latest j j
        ≡ (if text_eq key j then ok (some payload) else plain_at env db.latest j j)

  latest-write_event :
      (event : Event Bytes) (db : Db env)
      → SnapshotAt (event_key event) event.payload db (write_event event db)
  unfolding write_event
  latest-write_event event db j = elim (Bool-cases (text_eq (event_key event) j)) [
    | inl e ↦
        rw (e, ← text_eq→eq (event_key event) j e)
          (plain_at-put_self env db.latest (event_key event) (event_key event) (suc db.draws)
            event.payload)
    | inr e ↦ rw e (
        plain_at-put_ne env db.latest (event_key event) j j
          (encrypt env (suc db.draws) event.payload (event_key event)) e)
  ]

  publish-latest :
      (event : Event Bytes) (db db' : Db env) (changed : Bool)
      → publish event db ≡ ok (changed, db')
      → db'.latest ≡ (write_event event db).latest
  unfolding publish index_message put_index
  publish-latest event db db' changed h = ground arith

  unchanged-snapshot :
      (event : Event Bytes) (db : Db env) (previous : Option Bytes)
      → plain_at env db.latest (event_key event) (event_key event) ≡ ok previous
      → unchanged env previous event.payload ≡ true
      → SnapshotAt (event_key event) event.payload db db
  unfolding unchanged
  unchanged-snapshot event db none p u j = cc
  unchanged-snapshot event db (some v) p u j =
      ground (arith, text_eq_iff (event_key event) j, env.same_bytes_iff v event.payload)

  append_compacted-latest :
      (event : Event Bytes) (db db' : Db env) (changed : Bool)
      → append_compacted event db ≡ ok (changed, db')
      → SnapshotAt (event_key event) event.payload db db'
  unfolding append_compacted
  append_compacted-latest event db db' changed h j =
      elim (Result-cases (plain_at env db.latest (event_key event) (event_key event))) [
        | inl (previous, p) ↦ elim (Bool-cases (unchanged env previous event.payload)) [
          | inl old ↦ ground (arith, unchanged-snapshot event db previous p old j)
          | inr new ↦
              let e : publish event db ≡ ok (changed, db') = ground arith in
              rw (publish-latest event db db' changed e) (latest-write_event event db j)
        ]
        | inr (x, p) ↦ absurd (ground arith)
      ]

  -- After a successful append, dropped or not, the event's key shows its payload, and every other
  -- key what it showed before.
  pub append_tx-latest :
      (event : Event Bytes) (db db' : Db env) (changed : Bool) (canonical : Bytes)
      → compacted env event ≡ ok canonical
      → append_tx event db ≡ ok (changed, db')
      → (j : Text)
      → plain_at env db'.latest j j
        ≡ (if text_eq (event_key event) j then ok (some canonical) else plain_at env db.latest j j)
  unfolding append_tx event_key
  append_tx-latest event db db' changed canonical c h j =
      append_compacted-latest (record event { payload = canonical }) db db' changed (ground arith) j
