-- ===== src/Store/Outbox/Oldest.antt =====
-- `Claim` of internal/store/records.go takes the oldest queued record.
use google_messages_multidev.Model.{Outbox, is_queued, sending}
use google_messages_multidev.Platform.{Platform}
use google_messages_multidev.Prelude.Core.{
  List, Option, [], arith, false, inl, inr, none, refl, some, true, ◌&&◌, ◌∙◌, ◌∷◌, ◌≡◌, ◌≢◌, ◌≤◌,
}
use google_messages_multidev.Prelude.Lists.{All}
use google_messages_multidev.Prelude.Tests.{Bool-cases, ltb}
use google_messages_multidev.Prelude.Text.{text_eq_refl}
use google_messages_multidev.Result.{ok}
use google_messages_multidev.Store.Db.{Db}
use google_messages_multidev.Store.Outbox.{
  claim, claim_oldest, older, oldest_queued, outbox_keys, read_all, read_outbox, with_state,
  write_outbox,
}
use google_messages_multidev.Store.Outbox.Lifecycle.{IsKeyed}
use google_messages_multidev.Store.Outbox.Reads.{read-write_outbox}
use google_messages_multidev.Store.Outbox.Walks.{AllRead, oldest_queued-All, read_all-AllRead}

-- `best` is no younger than any queued record of the list.
abbrev pub NoOlder : Outbox → List Outbox → Type 0
NoOlder best os = All (λ o. is_queued o.state ≡ true → best.created ≤ o.created) os

abbrev pub NoneQueued : List Outbox → Type 0
NoneQueued os = All (λ o. is_queued o.state ≡ false) os

oldest_queued_le :
    (x : Outbox) (os : List Outbox) (b : Outbox)
    → oldest_queued (some x) os ≡ some b
    → (b.created ≤ x.created) × NoOlder b os
unfolding oldest_queued older
oldest_queued_le x [] b h = (ground arith, tt)
oldest_queued_le x (o ∷ os) b h = elim (Bool-cases (is_queued o.state && ltb o.created x.created)) [
  | inl q ↦ let r = oldest_queued_le o os b (ground arith) in (ground (arith, r.0), (λ w. r.0, r.1))
  | inr q ↦ let r = oldest_queued_le x os b (ground arith) in (r.0, (λ w. ground (arith, r.0), r.1))
]

pub oldest_queued-NoOlder :
    (os : List Outbox) (b : Outbox) → oldest_queued none os ≡ some b → NoOlder b os
unfolding oldest_queued older
oldest_queued-NoOlder [] b h = tt
oldest_queued-NoOlder (o ∷ os) b h = elim (Bool-cases (is_queued o.state)) [
  | inl q ↦ let r = oldest_queued_le o os b (ground arith) in (λ w. r.0, r.1)
  | inr q ↦ (λ w. absurd (ground arith), oldest_queued-NoOlder os b (ground arith))
]

oldest_queued-some : (x : Outbox) (os : List Outbox) → oldest_queued (some x) os ≢ none
unfolding oldest_queued older
oldest_queued-some x [] h = cc
oldest_queued-some x (o ∷ os) h = elim (Bool-cases (is_queued o.state && ltb o.created x.created)) [
  | inl q ↦ oldest_queued-some o os (ground arith)
  | inr q ↦ oldest_queued-some x os (ground arith)
]

pub oldest_queued-NoneQueued : (os : List Outbox) → oldest_queued none os ≡ none → NoneQueued os
unfolding oldest_queued older
oldest_queued-NoneQueued [] h = tt
oldest_queued-NoneQueued (o ∷ os) h = elim (Bool-cases (is_queued o.state)) [
  | inl q ↦ absurd (oldest_queued-some o os (ground arith))
  | inr q ↦ (q, oldest_queued-NoneQueued os (ground arith))
]

module _ {env : Platform} where
  -- What `Claim` owes, where it read the records `os`: nothing if none is queued, and else the
  -- oldest queued one, marked as being sent and stored so.
  abbrev pub Claims : List Outbox → Option Outbox → Db env → Db env → Type 0
  Claims os none db db' = NoneQueued os × (db' ≡ db)
  Claims os (some sent) db db' =
      (o : Outbox) × (is_queued o.state ≡ true)
      × NoOlder o os
      × (read_outbox o.id db ≡ ok o)
      × (sent ≡ with_state o sending db.now)
      × (read_outbox o.id db' ≡ ok sent)

  claim_oldest-Claims :
      (os : List Outbox) (best r : Option Outbox) (db : Db env) {db' : Db env}
      → IsKeyed db
      → AllRead db os
      → oldest_queued none os ≡ best
      → claim_oldest best db ≡ ok (r, db')
      → Claims os r db db'
  unfolding claim_oldest
  claim_oldest-Claims os none none db k a e h = (oldest_queued-NoneQueued os e, ground arith)
  claim_oldest-Claims os none (some s) db k a e h = absurd (ground arith)
  claim_oldest-Claims os (some o) none db k a e h = absurd (ground arith)
  claim_oldest-Claims os (some o) (some s) db {db'} k a e h =
      let found =
        oldest_queued-All {P = λ p. read_outbox p.id db ≡ ok p} none os (λ x y. cc) a o e in
      let w : write_outbox (with_state o sending db.now) db ≡ ok (tt, db') = ground arith in
      (
        o,
        found.1,
        oldest_queued-NoOlder os o e,
        found.0,
        ground arith,
        read-write_outbox (with_state o sending db.now) o.id db w
            ∙ ground (arith, text_eq_refl o.id),
      )

  -- On an outbox whose records sit under their own ids and can all be read, where `Claim` succeeds:
  -- it hands out nothing only where no record is queued, and then changes nothing; or it hands out,
  -- as being sent, a stored queued record that no queued one is older than, and that record is
  -- stored as it was handed out.
  pub claim_takes_oldest :
      (db : Db env) (os : List Outbox) (r : Option Outbox) {db' : Db env}
      → IsKeyed db
      → read_all (outbox_keys db) db ≡ ok os
      → claim db ≡ ok (r, db')
      → Claims os r db db'
  unfolding claim
  claim_takes_oldest db os r k e h =
      claim_oldest-Claims os (oldest_queued none os) r db k
        (read_all-AllRead (outbox_keys db) db os k e) refl (ground arith)
