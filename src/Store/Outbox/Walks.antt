-- ===== src/Store/Outbox/Walks.antt =====
-- The calls that walk the whole outbox: `Claim` and `RecoverSending` of internal/store/records.go,
-- `cancelQueuedForPairing` of internal/store/pairing.go.
use google_messages_multidev.Model.{Outbox, ambiguous, canceled, is_queued, is_sending}
use google_messages_multidev.Platform.{Platform}
use google_messages_multidev.Prelude.Core.{
  List, Option, [], arith, inl, inr, none, refl, some, subst, true, ℕ, ◌&&◌, ◌∷◌, ◌≡◌,
}
use google_messages_multidev.Prelude.Lists.{All}
use google_messages_multidev.Prelude.Tests.{Bool-cases, ltb}
use google_messages_multidev.Prelude.Text.{Text}
use google_messages_multidev.Result.{Result-cases, ok}
use google_messages_multidev.Store.Db.{Db}
use google_messages_multidev.Store.Outbox.{
  cancel_queued_for_pairing, claim, index_transactions, interrupted, older, oldest_queued,
  outbox_keys, pairing_detail, put_transaction, read_all, read_outbox, recover_sending,
  stopped_detail, with_detail, withdrawn, write_all, write_outbox,
}
use google_messages_multidev.Store.Outbox.Calls.{
  Evolves-with_detail, Lawful-claim_oldest, queued_may, sending_may,
}
use google_messages_multidev.Store.Outbox.Lifecycle.{
  Evolves, IsKeyed, Lawful, Lawful-refl, Lawful-same, Lawful-write,
}

module _ {P : Outbox → Type 0} where
  older-All :
      (best : Option Outbox) (o : Outbox)
      → ((b : Outbox) → best ≡ some b → P b × (is_queued b.state ≡ true))
      → P o
      → (b : Outbox) → older best o ≡ some b
      → P b × (is_queued b.state ≡ true)
  unfolding older
  older-All none o f p b e = elim (Bool-cases (is_queued o.state)) [
    | inl q ↦ (subst P (ground arith) p, ground arith)
    | inr q ↦ absurd (ground arith)
  ]
  older-All (some x) o f p b e = elim (Bool-cases (is_queued o.state && ltb o.created x.created)) [
    | inl q ↦ (subst P (ground arith) p, ground arith)
    | inr q ↦ f b (ground arith)
  ]

  -- The choice of the walk is one of the records that it saw, and is queued.
  pub oldest_queued-All :
      (best : Option Outbox) (os : List Outbox)
      → ((b : Outbox) → best ≡ some b → P b × (is_queued b.state ≡ true))
      → All P os
      → (b : Outbox) → oldest_queued best os ≡ some b
      → P b × (is_queued b.state ≡ true)
  unfolding oldest_queued
  oldest_queued-All best [] f ps b e = f b e
  oldest_queued-All best (o ∷ os) f ps b e =
      oldest_queued-All (older best o) os (older-All best o f ps.0) ps.1 b e

module _ {env : Platform} where
  -- What `read_all` returns are records of the database.
  abbrev pub AllRead : Db env → List Outbox → Type 0
  AllRead db os = All (λ o. read_outbox o.id db ≡ ok o) os

  pub read_all-AllRead :
      (ks : List Text) (db : Db env) (os : List Outbox)
      → IsKeyed db
      → read_all ks db ≡ ok os
      → AllRead db os
  unfolding read_all
  read_all-AllRead [] db [] k h = tt
  read_all-AllRead [] db (o ∷ os) k h = cc
  read_all-AllRead (j ∷ ks) db [] k h = ground arith
  read_all-AllRead (j ∷ ks) db (o ∷ os) k h =
      (ground (arith, k.keyed j o), read_all-AllRead ks db os k (ground arith))

  pub Lawful-claim :
      (db : Db env) {r : Option Outbox} {db' : Db env}
      → IsKeyed db
      → claim db ≡ ok (r, db')
      → Lawful db db'
  unfolding claim
  Lawful-claim db {r} {db'} k h = elim (Result-cases (read_all (outbox_keys db) db)) [
    | inl (os, e) ↦
        Lawful-claim_oldest (oldest_queued none os) db {r = r} k
          (λ b q.
            oldest_queued-All {P = λ o. read_outbox o.id db ≡ ok o} none os (λ x y. cc)
              (read_all-AllRead (outbox_keys db) db os k e) b q)
          (ground arith)
    | inr (x, e) ↦ absurd (ground arith)
  ]

  -- Records that evolved from those of the first database, written one after the other.
  Lawful-write_all :
      (os : List Outbox) (start db : Db env) {db' : Db env}
      → Lawful start db
      → All (λ o. (p : Outbox) → read_outbox o.id start ≡ ok p → Evolves p o) os
      → write_all os db ≡ ok (tt, db')
      → Lawful start db'
  unfolding write_all
  Lawful-write_all [] start db {db'} l from h = subst (Lawful start) (ground arith) l
  Lawful-write_all (o ∷ os) start db {db'} l from h = elim (Result-cases (write_outbox o db)) [
    | inl ((u, mid), e) ↦
        Lawful-write_all os start mid (Lawful-write o start db e l from.0) from.1 (ground arith)
    | inr (x, e) ↦ absurd (ground arith)
  ]

  from_read :
      (o o' : Outbox) (db : Db env)
      → read_outbox o.id db ≡ ok o
      → Evolves o o'
      → (p : Outbox) → read_outbox o'.id db ≡ ok p
      → Evolves p o'
  from_read o o' db h e p hp = subst (λ q. Evolves q o') (ground (arith, e.same_id)) e

  abbrev From : Db env → List Outbox → Type 0
  From db os = All (λ o. (p : Outbox) → read_outbox o.id db ≡ ok p → Evolves p o) os

  interrupted-From :
      (now : ℕ) (db : Db env) (os : List Outbox) → AllRead db os → From db (interrupted now os)
  unfolding interrupted
  interrupted-From now db [] a = tt
  interrupted-From now db (o ∷ os) a = elim (Bool-cases (is_sending o.state)) [
    | inl q ↦ rw q (
      from_read o (with_detail o ambiguous stopped_detail now) db a.0 (
          Evolves-with_detail o ambiguous stopped_detail now
            (sending_may o.state ambiguous q refl)),
      interrupted-From now db os a.1,
    )
    | inr q ↦ rw q (interrupted-From now db os a.1)
  ]

  withdrawn-From :
      (now : ℕ) (db : Db env) (os : List Outbox) → AllRead db os → From db (withdrawn now os)
  unfolding withdrawn
  withdrawn-From now db [] a = tt
  withdrawn-From now db (o ∷ os) a = elim (Bool-cases (is_queued o.state)) [
    | inl q ↦ rw q (
      from_read o (with_detail o canceled pairing_detail now) db a.0
          (Evolves-with_detail o canceled pairing_detail now (queued_may o.state canceled q refl)),
      withdrawn-From now db os a.1,
    )
    | inr q ↦ rw q (withdrawn-From now db os a.1)
  ]

  index_transactions-outbox :
      (os : List Outbox) (db : Db env) → (index_transactions os db).outbox ≡ db.outbox
  unfolding index_transactions
  index_transactions-outbox [] db = refl
  index_transactions-outbox (o ∷ os) db =
      index_transactions-outbox os (put_transaction o.transaction_id o.id db)

  pub Lawful-recover_sending :
      (db : Db env) {db' : Db env} → IsKeyed db → recover_sending db ≡ ok (tt, db') → Lawful db db'
  unfolding recover_sending
  Lawful-recover_sending db k h = elim (Result-cases (read_all (outbox_keys db) db)) [
    | inl (os, e) ↦
        Lawful-write_all (interrupted db.now os) db (index_transactions os db)
          (Lawful-same db (index_transactions os db) (index_transactions-outbox os db) k)
          (interrupted-From db.now db os (read_all-AllRead (outbox_keys db) db os k e))
          (ground arith)
    | inr (x, e) ↦ absurd (ground arith)
  ]

  pub Lawful-cancel_queued_for_pairing :
      (db : Db env) {db' : Db env}
      → IsKeyed db
      → cancel_queued_for_pairing db ≡ ok (tt, db')
      → Lawful db db'
  unfolding cancel_queued_for_pairing
  Lawful-cancel_queued_for_pairing db k h = elim (Result-cases (read_all (outbox_keys db) db)) [
    | inl (os, e) ↦
        Lawful-write_all (withdrawn db.now os) db db (Lawful-refl db k)
          (withdrawn-From db.now db os (read_all-AllRead (outbox_keys db) db os k e)) (ground arith)
    | inr (x, e) ↦ absurd (ground arith)
  ]
