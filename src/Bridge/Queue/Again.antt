-- ===== src/Bridge/Queue/Again.antt =====
-- A client that repeats its request (internal/bridge/service.go, `Queue`) under the same key.
use google_messages_multidev.Bridge.Queue.{
  Setting, check_stored, is_valid_key, queue, queue_new, queue_valid,
}
use google_messages_multidev.Bridge.Requests.{validate_request}
use google_messages_multidev.Bridge.Worker.{Worker, commit, notify_hub}
use google_messages_multidev.Model.{Outbox, SendRequest}
use google_messages_multidev.Model.Request.{request_equal}
use google_messages_multidev.Platform.{Platform}
use google_messages_multidev.Prelude.Core.{Bool, arith, false, inl, inr, true, ◌≡◌}
use google_messages_multidev.Prelude.Tests.{if◌then◌else◌}
use google_messages_multidev.Prelude.Text.{Text, text_eq_refl}
use google_messages_multidev.Result.{Result-cases, conflict, err, ok}
use google_messages_multidev.Store.Db.{Db, update}
use google_messages_multidev.Store.Outbox.{
  enqueue, new_outbox, put_transaction, read_outbox, write_outbox,
}
use google_messages_multidev.Store.Outbox.Reads.{read-write_outbox}

module _ {env : Platform} where
  enqueue-stored :
      (id transaction : Text) (req : SendRequest) (db db' : Db env) (o : Outbox) (created : Bool)
      → enqueue id transaction req db ≡ ok ((o, created), db')
      → read_outbox id db' ≡ ok o
  unfolding enqueue new_outbox
  enqueue-stored id transaction req db db' o created h = elim (Result-cases (read_outbox id db)) [
    | inl (p, e) ↦ ground arith
    | inr (x, e) ↦
        let tx = put_transaction transaction id db in
        let fresh_record = new_outbox id transaction req db in
        elim (Result-cases (write_outbox fresh_record tx)) [
          | inl ((u, later), r) ↦
              ground (arith, read-write_outbox fresh_record id tx r, text_eq_refl id)
          | inr (y, r) ↦ absurd (ground arith)
        ]
  ]

  queue_new-stored :
      (setting : Setting) (id : Text) (req : SendRequest) (w w' : Worker env) (o : Outbox)
      (created : Bool)
      → queue_new setting id req w ≡ (ok (o, created), w')
      → read_outbox id w'.db ≡ ok o
  unfolding queue_new commit update notify_hub
  queue_new-stored setting id req w w' o created h = elim (Result-cases (check_stored req w.db)) [
    | inr (x, e) ↦ absurd (ground arith)
    | inl (u, e) ↦ elim (Result-cases (enqueue id setting.transaction req w.db)) [
      | inr (x, r) ↦ absurd (ground arith)
      | inl (((p, c), db'), r) ↦
          ground (arith, enqueue-stored id setting.transaction req w.db db' p c r)
    ]
  ]

  queue-stored :
      (setting : Setting) (id : Text) (given : SendRequest) (w w' : Worker env) (o : Outbox)
      (created : Bool)
      → queue setting id given w ≡ (ok (o, created), w')
      → (read_outbox id w'.db ≡ ok o) × (is_valid_key id ≡ true)
  unfolding queue queue_valid
  queue-stored setting id given w w' o created h = elim (Result-cases (validate_request given)) [
    | inr (x, e) ↦ absurd (ground arith)
    | inl (req, e) ↦ elim (Result-cases (read_outbox id w.db)) [
      | inl (p, r) ↦ ground arith
      | inr (x, r) ↦
          let stored = queue_new-stored setting id req w w' o created in
          (stored (ground arith), ground arith)
    ]
  ]

  -- Once `Queue` has returned a record for a key, a later call with that key, before the store
  -- changes, changes nothing, wakes nobody and needs no provider: if its request validates to the
  -- request of the record, it returns that record as not new, and if it validates to another, it
  -- fails with ErrConflict.
  pub queue-again :
      (setting later : Setting) (id : Text) (given again : SendRequest) (req : SendRequest)
      (w w' : Worker env) (o : Outbox) (created : Bool)
      → queue setting id given w ≡ (ok (o, created), w')
      → later.pairs ≡ false
      → validate_request again ≡ ok req
      → queue later id again w'
        ≡ ((if request_equal o.request req then ok (o, false) else err conflict), w')
  unfolding queue queue_valid
  queue-again setting later id given again req w w' o created h p v =
      let (stored, key) = queue-stored setting id given w w' o created h in ground arith
