-- ===== src/Store/Outbox/Calls.antt =====
-- Each call on one outbox record (internal/store/records.go) takes the edge that it stands for.
use google_messages_multidev.Model.{
  Message, Outbox, OutboxState, SendRequest, accepted, canceled, confirmed, is_canceled,
  is_confirmed, is_queued, is_sending, queued, rejected, sending,
}
use google_messages_multidev.Platform.{Platform}
use google_messages_multidev.Prelude.Core.{
  Bool, Option, arith, inl, inr, none, not, refl, some, subst, true, ℕ, ◌||◌, ◌≡◌,
}
use google_messages_multidev.Prelude.Tests.{Bool-cases, Option-cases}
use google_messages_multidev.Prelude.Text.{Text, is_empty}
use google_messages_multidev.Result.{Result-cases, ok}
use google_messages_multidev.Store.Db.{Db}
use google_messages_multidev.Store.Outbox.{
  cancel_queued, claim_oldest, claim_queued, confirm_named_send, confirm_send, confirmed_by,
  confirms, enqueue, finish, is_result, new_outbox, put_transaction, read_outbox, reject_queued,
  with_detail, with_state, write_outbox,
}
use google_messages_multidev.Store.Outbox.Lifecycle.{
  Evolves, IsKeyed, Lawful, Lawful-refl, Lawful-same, Lawful-write, Leads-one, may,
}

pub Evolves-with_state :
    (o : Outbox) (s : OutboxState) (now : ℕ) → may o.state s ≡ true → Evolves o (with_state o s now)
unfolding with_state
Evolves-with_state o s now h = record {
  same_id = refl;
  same_request = refl;
  same_transaction = refl;
  same_created = refl;
  leads = Leads-one h;
}

pub Evolves-with_detail :
    (o : Outbox) (s : OutboxState) (detail : Text) (now : ℕ)
    → may o.state s ≡ true
    → Evolves o (with_detail o s detail now)
unfolding with_detail
Evolves-with_detail o s detail now h = record {
  same_id = refl;
  same_request = refl;
  same_transaction = refl;
  same_created = refl;
  leads = Leads-one h;
}

pub Evolves-confirmed :
    (o : Outbox) (m : Message) (now : ℕ)
    → may o.state confirmed ≡ true
    → Evolves o (confirmed_by o m now)
unfolding confirmed_by
Evolves-confirmed o m now h = record {
  same_id = refl;
  same_request = refl;
  same_transaction = refl;
  same_created = refl;
  leads = Leads-one h;
}

pub queued_may : (s t : OutboxState) → is_queued s ≡ true → may queued t ≡ true → may s t ≡ true
queued_may queued t h e = e
queued_may _ t h e = cc

pub sending_may : (s t : OutboxState) → is_sending s ≡ true → may sending t ≡ true → may s t ≡ true
sending_may sending t h e = e
sending_may _ t h e = cc

result_may : (s : OutboxState) → is_result s ≡ true → may sending s ≡ true
unfolding is_result
result_may accepted h = refl
result_may _ h = ground arith

confirmed_may :
    (s : OutboxState)
    → not (is_queued s || (is_canceled s || is_confirmed s)) ≡ true
    → may s confirmed ≡ true
confirmed_may accepted h = refl
confirmed_may _ h = ground arith

module _ {env : Platform} where
  -- The record under an id, changed along an edge and written back.
  Lawful-change :
      (id : Text) (o o' : Outbox) (db : Db env) {db' : Db env}
      → IsKeyed db
      → read_outbox id db ≡ ok o
      → Evolves o o'
      → write_outbox o' db ≡ ok (tt, db')
      → Lawful db db'
  Lawful-change id o o' db k h e w =
      Lawful-write o' db db w (Lawful-refl db k)
        λ p hp. subst (λ q. Evolves q o') (ground (arith, k.keyed id o h, e.same_id, hp, h)) e

  pub Lawful-claim_queued :
      (id : Text) (db : Db env) {o : Outbox} {db' : Db env}
      → IsKeyed db
      → claim_queued id db ≡ ok (o, db')
      → Lawful db db'
  unfolding claim_queued
  Lawful-claim_queued id db k h = elim (Result-cases (read_outbox id db)) [
    | inl (p, e) ↦
        Lawful-change id p (with_state p sending db.now) db k e
          (Evolves-with_state p sending db.now (queued_may p.state sending (ground arith) refl))
          (ground arith)
    | inr (x, e) ↦ absurd (ground arith)
  ]

  pub Lawful-reject_queued :
      (id detail : Text) (db : Db env) {db' : Db env}
      → IsKeyed db
      → reject_queued id detail db ≡ ok (tt, db')
      → Lawful db db'
  unfolding reject_queued
  Lawful-reject_queued id detail db k h = elim (Result-cases (read_outbox id db)) [
    | inl (p, e) ↦
        Lawful-change id p (with_detail p rejected detail db.now) db k e
          (Evolves-with_detail p rejected detail db.now
            (queued_may p.state rejected (ground arith) refl))
          (ground arith)
    | inr (x, e) ↦ absurd (ground arith)
  ]

  pub Lawful-cancel_queued :
      (id : Text) (db : Db env) {o : Outbox} {db' : Db env}
      → IsKeyed db
      → cancel_queued id db ≡ ok (o, db')
      → Lawful db db'
  unfolding cancel_queued
  Lawful-cancel_queued id db {o} {db'} k h = elim (Result-cases (read_outbox id db)) [
    | inl (p, e) ↦ elim (Bool-cases (is_canceled p.state)) [
      | inl c ↦ Lawful-same db db' (ground arith) k
      | inr c ↦
          Lawful-change id p (with_state p canceled db.now) db k e
            (Evolves-with_state p canceled db.now (queued_may p.state canceled (ground arith) refl))
            (ground arith)
    ]
    | inr (x, e) ↦ absurd (ground arith)
  ]

  pub Lawful-finish :
      (id : Text) (state : OutboxState) (detail : Text) (db : Db env) {db' : Db env}
      → IsKeyed db
      → finish id state detail db ≡ ok (tt, db')
      → Lawful db db'
  unfolding finish
  Lawful-finish id state detail db {db'} k h = elim (Result-cases (read_outbox id db)) [
    | inl (p, e) ↦ elim (Bool-cases (is_sending p.state)) [
      | inl c ↦
          Lawful-change id p (with_detail p state detail db.now) db k e
            (Evolves-with_detail p state detail db.now
              (sending_may p.state state c (result_may state (ground arith))))
            (ground arith)
      | inr c ↦ Lawful-same db db' (ground arith) k
    ]
    | inr (x, e) ↦ absurd (ground arith)
  ]

  -- The record that a message's transaction names.
  confirm_named :
      (id : Text) (m : Message) (db : Db env) {seen : Bool} {db' : Db env}
      → IsKeyed db
      → confirm_named_send id m db ≡ ok (seen, db')
      → Lawful db db'
  unfolding confirm_named_send confirms
  confirm_named id m db {seen} {db'} k h = elim (Result-cases (read_outbox id db)) [
    | inl (p, e) ↦ elim (Bool-cases (confirms p m db)) [
      | inl c ↦
          Lawful-change id p (confirmed_by p m db.now) db k e
            (Evolves-confirmed p m db.now (confirmed_may p.state (ground arith))) (ground arith)
      | inr c ↦ Lawful-same db db' (ground arith) k
    ]
    | inr (x, e) ↦ absurd (ground arith)
  ]

  pub Lawful-confirm_send :
      (m : Message) (db : Db env) {seen : Bool} {db' : Db env}
      → IsKeyed db
      → confirm_send m db ≡ ok (seen, db')
      → Lawful db db'
  unfolding confirm_send
  Lawful-confirm_send m db {seen} {db'} k h =
      elim (Bool-cases (is_empty m.transaction_id || is_empty m.id)) [
        | inl c ↦ Lawful-same db db' (ground arith) k
        | inr c ↦ elim (Option-cases (env.bolt.get db.outbox_txn m.transaction_id)) [
          | inl e ↦ Lawful-same db db' (ground arith) k
          | inr (v, e) ↦ confirm_named (env.octets v) m db {seen = seen} k (ground arith)
        ]
      ]

  pub Lawful-enqueue :
      (id transaction_id : Text) (req : SendRequest) (db : Db env) {r : Outbox × Bool}
      {db' : Db env}
      → IsKeyed db
      → enqueue id transaction_id req db ≡ ok (r, db')
      → Lawful db db'
  unfolding enqueue
  Lawful-enqueue id transaction_id req db {r} {db'} k h = elim (Result-cases (read_outbox id db)) [
    | inl (p, e) ↦ Lawful-same db db' (ground arith) k
    | inr (x, e) ↦
        let tx = put_transaction transaction_id id db in
        Lawful-write (new_outbox id transaction_id req db) db tx (ground arith)
          (Lawful-same db tx refl k) (λ p hp. absurd (cc))
  ]

  pub Lawful-claim_oldest :
      (best : Option Outbox) (db : Db env) {r : Option Outbox} {db' : Db env}
      → IsKeyed db
      → ((o : Outbox) → best ≡ some o → (read_outbox o.id db ≡ ok o) × (is_queued o.state ≡ true))
      → claim_oldest best db ≡ ok (r, db')
      → Lawful db db'
  unfolding claim_oldest
  Lawful-claim_oldest none db {r} {db'} k found h = Lawful-same db db' (ground arith) k
  Lawful-claim_oldest (some o) db k found h =
      let (e, q) = found o refl in
      Lawful-change o.id o (with_state o sending db.now) db k e
        (Evolves-with_state o sending db.now (queued_may o.state sending q refl)) (ground arith)
