-- ===== src/Store/Outbox/Lifecycle.antt =====
-- The states of an outbox record (internal/store/records.go), and the records that a write may make
-- of it: the same request under the same ids, in a state that its own state leads to.
use google_messages_multidev.Model.{
  Outbox, OutboxState, accepted, ambiguous, canceled, confirmed, is_queued, other, queued, rejected,
  sending,
}
use google_messages_multidev.Platform.{Platform}
use google_messages_multidev.Prelude.Core.{Bool, arith, false, inl, inr, refl, sym, true, ◌∙◌, ◌≡◌}
use google_messages_multidev.Prelude.Tests.{Bool-cases}
use google_messages_multidev.Prelude.Text.{Text, text_eq, text_eq_iff, text_eq→eq}
use google_messages_multidev.Result.{ok}
use google_messages_multidev.Store.Db.{Db}
use google_messages_multidev.Store.Outbox.{read_outbox, write_outbox}
use google_messages_multidev.Store.Outbox.Reads.{read-same, read-write_outbox}

-- The edges that the code takes.
abbrev pub may : OutboxState → OutboxState → Bool
may queued sending = true
may queued canceled = true
may queued rejected = true
may sending accepted = true
may sending rejected = true
may sending ambiguous = true
may sending confirmed = true
may accepted confirmed = true
may rejected confirmed = true
may ambiguous confirmed = true
may (other name) confirmed = true
may _ _ = false

pub data Leads : OutboxState → OutboxState → Type 0 where
  here : {s : OutboxState} → Leads s s
  edge : {s t u : OutboxState} → may s t ≡ true → Leads t u → Leads s u

pub Leads-trans : {s t u : OutboxState} → Leads s t → Leads t u → Leads s u
Leads-trans here q = q
Leads-trans (edge e p) q = edge e (Leads-trans p q)

pub Leads-one : {s t : OutboxState} → may s t ≡ true → Leads s t
Leads-one e = edge e here

may_not_queue : (s t : OutboxState) → may s t ≡ true → is_queued t ≡ false
may_not_queue queued t h = ground arith
may_not_queue _ t h = ground arith

-- A record that has left the queue does not come back to it.
pub Leads-not_queued : {s t : OutboxState} → Leads s t → is_queued s ≡ false → is_queued t ≡ false
Leads-not_queued here h = h
Leads-not_queued (edge {s} {t} e p) h = Leads-not_queued p (may_not_queue s t e)

pub record Evolves (o o' : Outbox) : Type 0 where
  pub same_id : o'.id ≡ o.id
  pub same_request : o'.request ≡ o.request
  pub same_transaction : o'.transaction_id ≡ o.transaction_id
  pub same_created : o'.created ≡ o.created
  pub leads : Leads o.state o'.state

pub Evolves-refl : (o : Outbox) → Evolves o o
Evolves-refl o = record {
  same_id = refl;
  same_request = refl;
  same_transaction = refl;
  same_created = refl;
  leads = here;
}

pub Evolves-trans : {o p q : Outbox} → Evolves o p → Evolves p q → Evolves o q
Evolves-trans a b = record {
  same_id = b.same_id ∙ a.same_id;
  same_request = b.same_request ∙ a.same_request;
  same_transaction = b.same_transaction ∙ a.same_transaction;
  same_created = b.same_created ∙ a.same_created;
  leads = Leads-trans a.leads b.leads;
}

module _ {env : Platform} where
  -- Every record stands under its own id.
  pub record IsKeyed (db : Db env) : Type 0 where
    pub keyed : (j : Text) (o : Outbox) → read_outbox j db ≡ ok o → o.id ≡ j

  -- Every record of the first database is in the second, evolved; and ids stay keys.
  pub record Lawful (db db' : Db env) : Type 0 where
    pub evolves :
        (j : Text) (o : Outbox)
        → read_outbox j db ≡ ok o
        → (o' : Outbox) × (read_outbox j db' ≡ ok o') × Evolves o o'
    pub keyed : IsKeyed db'

  pub Lawful-refl : (db : Db env) → IsKeyed db → Lawful db db
  Lawful-refl db k = record { evolves = λ j o h. (o, h, Evolves-refl o); keyed = k }

  pub Lawful-trans : {a b c : Db env} → Lawful a b → Lawful b c → Lawful a c
  Lawful-trans p q = record {
    evolves = λ j o h.
        let (o', h', e) = p.evolves j o h in
        let (o'', h'', e') = q.evolves j o' h' in (o'', h'', Evolves-trans e e');
    keyed = q.keyed;
  }

  pub Lawful-same : (db db' : Db env) → db'.outbox ≡ db.outbox → IsKeyed db → Lawful db db'
  Lawful-same db db' e k = record {
    evolves = λ j o h. (o, read-same j db db' e ∙ h, Evolves-refl o);
    keyed = record { keyed = λ j o h. k.keyed j o (sym (read-same j db db' e) ∙ h) };
  }

  written-Evolves :
      (o : Outbox) (start db : Db env) {db' : Db env}
      → write_outbox o db ≡ ok (tt, db')
      → Lawful start db
      → ((p : Outbox) → read_outbox o.id start ≡ ok p → Evolves p o)
      → (j : Text) (p : Outbox) → read_outbox j start ≡ ok p
      → (o' : Outbox) × (read_outbox j db' ≡ ok o') × Evolves p o'
  written-Evolves o start db w l from j p h = elim (Bool-cases (text_eq o.id j)) [
    | inl e ↦
        let same = text_eq→eq o.id j e in
        (o, rw (read-write_outbox o j db w, e), from p (rw same h))
    | inr e ↦ let (q, r, v) = l.evolves j p h in (q, rw (read-write_outbox o j db w, e) r, v)
  ]

  -- A write keeps a history lawful, if its record evolved from the one that stood there first.
  pub Lawful-write :
      (o : Outbox) (start db : Db env) {db' : Db env}
      → write_outbox o db ≡ ok (tt, db')
      → Lawful start db
      → ((p : Outbox) → read_outbox o.id start ≡ ok p → Evolves p o)
      → Lawful start db'
  Lawful-write o start db w l from = record {
    evolves = written-Evolves o start db w l from;
    keyed = record {
      keyed = λ j p h.
          ground (arith, l.keyed.keyed j p, read-write_outbox o j db w, text_eq_iff o.id j);
    };
  }
