-- ===== src/Store/Outbox/Once.antt =====
-- Any sequence of outbox calls (internal/store/records.go, internal/store/pairing.go), each in its
-- own transaction: a request is handed to the provider at most once.
use google_messages_multidev.Model.{Message, Outbox, OutboxState, SendRequest, is_queued, sending}
use google_messages_multidev.Platform.{Platform}
use google_messages_multidev.Prelude.Core.{
  List, [], arith, false, inl, inr, refl, subst, ℕ, ◌+◌, ◌∷◌, ◌≡◌,
}
use google_messages_multidev.Prelude.Text.{Text, text_eq_refl}
use google_messages_multidev.Result.{Result, Result-cases, conflict, err, ok}
use google_messages_multidev.Store.Db.{Db, Tx, update, view}
use google_messages_multidev.Store.Outbox.{
  cancel_queued, cancel_queued_for_pairing, claim, claim_queued, confirm_send, enqueue, finish,
  read_outbox, recover_sending, reject_queued, with_state, write_outbox,
}
use google_messages_multidev.Store.Outbox.Calls.{
  Lawful-cancel_queued, Lawful-claim_queued, Lawful-confirm_send, Lawful-enqueue, Lawful-finish,
  Lawful-reject_queued,
}
use google_messages_multidev.Store.Outbox.Lifecycle.{
  IsKeyed, Lawful, Lawful-refl, Lawful-same, Lawful-trans, Leads-not_queued,
}
use google_messages_multidev.Store.Outbox.Reads.{read-write_outbox}
use google_messages_multidev.Store.Outbox.Walks.{
  Lawful-cancel_queued_for_pairing, Lawful-claim, Lawful-recover_sending,
}

pub data Call : Type 0 where
  enqueues : Text → Text → SendRequest → Call
  claims : Call
  claims_queued : Text → Call
  finishes : Text → OutboxState → Text → Call
  recovers : Call
  confirms_send : Message → Call
  cancels : Text → Call
  rejects : Text → Text → Call
  withdraws : Call
  waits : ℕ → Call  -- time passes

module _ {env : Platform} where
  abbrev pub state_of : {A : Type 0} → Result A × Db env → Db env
  state_of (r, db) = db

  -- A failed call leaves the database as it was.
  unfoldable pub step : Call → Db env → Db env
  step (enqueues id txn req) db = state_of (update (enqueue id txn req) db)
  step claims db = state_of (update claim db)
  step (claims_queued id) db = state_of (update (claim_queued id) db)
  step (finishes id state detail) db = state_of (update (finish id state detail) db)
  step recovers db = state_of (update recover_sending db)
  step (confirms_send m) db = state_of (update (confirm_send m) db)
  step (cancels id) db = state_of (update (cancel_queued id) db)
  step (rejects id detail) db = state_of (update (reject_queued id detail) db)
  step withdraws db = state_of (update cancel_queued_for_pairing db)
  step (waits n) db = record db { now = db.now + n }

  unfoldable pub run : List Call → Db env → Db env
  run [] db = db
  run (c ∷ cs) db = run cs (step c db)

  pub Lawful-update :
      {A : Type 0} (tx : Tx env A) (db : Db env)
      → IsKeyed db
      → ((a : A) (db' : Db env) → tx db ≡ ok (a, db') → Lawful db db')
      → Lawful db (state_of (update tx db))
  unfolding update
  Lawful-update tx db k law = elim (Result-cases (tx db)) [
    | inl ((a, db'), e) ↦ subst (Lawful db) (ground arith) (law a db' e)
    | inr (x, e) ↦ subst (Lawful db) (ground arith) (Lawful-refl db k)
  ]

  pub Lawful-step : (c : Call) (db : Db env) → IsKeyed db → Lawful db (step c db)
  unfolding step
  Lawful-step (enqueues id txn req) db k =
      Lawful-update (enqueue id txn req) db k λ a db' h. Lawful-enqueue id txn req db k h
  Lawful-step claims db k = Lawful-update claim db k λ a db' h. Lawful-claim db k h
  Lawful-step (claims_queued id) db k =
      Lawful-update (claim_queued id) db k λ a db' h. Lawful-claim_queued id db k h
  Lawful-step (finishes id state detail) db k =
      Lawful-update (finish id state detail) db k λ a db' h. Lawful-finish id state detail db k h
  Lawful-step recovers db k =
      Lawful-update recover_sending db k λ a db' h. Lawful-recover_sending db k h
  Lawful-step (confirms_send m) db k =
      Lawful-update (confirm_send m) db k λ a db' h. Lawful-confirm_send m db k h
  Lawful-step (cancels id) db k =
      Lawful-update (cancel_queued id) db k λ a db' h. Lawful-cancel_queued id db k h
  Lawful-step (rejects id detail) db k =
      Lawful-update (reject_queued id detail) db k λ a db' h. Lawful-reject_queued id detail db k h
  Lawful-step withdraws db k =
      Lawful-update cancel_queued_for_pairing db k
        λ a db' h. Lawful-cancel_queued_for_pairing db k h
  Lawful-step (waits n) db k = Lawful-same db (record db { now = db.now + n }) refl k

  pub run-Lawful : (cs : List Call) (db : Db env) → IsKeyed db → Lawful db (run cs db)
  unfolding run
  run-Lawful [] db k = Lawful-refl db k
  run-Lawful (c ∷ cs) db k =
      let l = Lawful-step c db k in Lawful-trans l (run-Lawful cs (step c db) l.keyed)

  pub claim_queued-stored :
      (id : Text) (db : Db env) {o : Outbox} {db' : Db env}
      → IsKeyed db
      → claim_queued id db ≡ ok (o, db')
      → (read_outbox id db' ≡ ok o) × (is_queued o.state ≡ false)
  unfolding claim_queued with_state
  claim_queued-stored id db {o} {db'} k h = elim (Result-cases (read_outbox id db)) [
    | inl (p, e) ↦
        let sent = with_state p sending db.now in
        let w : write_outbox sent db ≡ ok (tt, db') = ground arith in
        (
          ground (arith, read-write_outbox sent id db w, k.keyed id p e, text_eq_refl id),
          ground arith,
        )
    | inr (x, e) ↦ absurd (ground arith)
  ]

  refuses :
      (id : Text) (o : Outbox) (db : Db env)
      → read_outbox id db ≡ ok o
      → is_queued o.state ≡ false
      → view (claim_queued id) db ≡ err conflict
  unfolding view claim_queued
  refuses id o db h q = ground arith

  -- On an outbox whose records lie under their own ids: once `ClaimQueued` has handed a record to the
  -- sender, it refuses that record with ErrConflict after any further calls of the outbox, recoveries
  -- after a restart included.
  pub claimed_at_most_once :
      (id : Text) (db : Db env) (o : Outbox) (db' : Db env) (cs : List Call)
      → IsKeyed db
      → claim_queued id db ≡ ok (o, db')
      → view (claim_queued id) (run cs db') ≡ err conflict
  claimed_at_most_once id db o db' cs k h =
      let (stored, left) = claim_queued-stored id db k h in
      let l = run-Lawful cs db' (Lawful-claim_queued id db k h).keyed in
      let (o', now_stored, e) = l.evolves id o stored in
      refuses id o' (run cs db') now_stored (Leads-not_queued e.leads left)
