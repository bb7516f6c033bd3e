-- ===== src/Store/Events/Log.antt =====
-- The event log of internal/store/store.go as a list of events: the bucket of events holds the
-- list, numbered from 1 without gaps, and the bucket of latest snapshots is its newest payloads.
use google_messages_multidev.Event.{Event}
use google_messages_multidev.Platform.{Platform}
use google_messages_multidev.Prelude.Assoc.{AllBelow, Table, insert-snoc}
use google_messages_multidev.Prelude.Bytes.{uint64_bound}
use google_messages_multidev.Prelude.Core.{
  Bool, List, Option, [], ap, arith, false, inl, inr, none, refl, some, subst, suc, true, ℕ, ◌++◌,
  ◌+◌, ◌<◌, ◌∙◌, ◌∷◌, ◌≡◌,
}
use google_messages_multidev.Prelude.Lists.{length, length-append}
use google_messages_multidev.Prelude.Tests.{Bool-cases, if◌then◌else◌}
use google_messages_multidev.Prelude.Text.{Text, text_eq, text_eq→eq}
use google_messages_multidev.Result.{ok}
use google_messages_multidev.Store.Db.{
  Db, decrypt, decrypt-encrypt, encrypt, sequence, text_lt-sequence,
}
use google_messages_multidev.Store.Events.{
  event_context, event_key, next_sequence, plain_at, stamped, unchanged, write_event, write_stamped,
}
use google_messages_multidev.Store.Laws.{plain_at-put_ne, plain_at-put_self}

module _ {A : Type 0} where
  -- The payload that the last event of a key carries.
  unfoldable pub newest : Text → List (Event A) → Option A
  newest key [] = none
  newest key (e ∷ log) = elim (newest key log) [
    | some p ↦ some p
    | none ↦ if text_eq (event_key e) key then some e.payload else none
  ]

  newest-snoc :
      (key : Text) (log : List (Event A)) (e : Event A)
      → newest key (log ++ e ∷ [])
        ≡ (if text_eq (event_key e) key then some e.payload else newest key log)
  unfolding newest
  newest-snoc key [] e = refl
  newest-snoc key (x ∷ log) e = ground (arith, newest-snoc key log e)

module _ (env : Platform) where
  open env use {Bytes, bolt, json}

  -- The entries of the bucket are the events, in order, the first numbered `suc n`.
  abbrev pub Holds : ℕ → Table Bytes → List (Event Bytes) → Type 0
  Holds n [] [] = Unit
  Holds n [] (e ∷ log) = ⊥
  Holds n ((k, v) ∷ rest) [] = ⊥
  Holds n ((k, v) ∷ rest) (e ∷ log) =
      ((k ≡ sequence (suc n))
        × (e.id ≡ suc n)
        × (decrypt env v (event_context (suc n)) ≡ ok (json.event_codec.marshal e)))
      × Holds (suc n) rest log

  Holds-AllBelow :
      (n id : ℕ) (t : Table Bytes) (log : List (Event Bytes))
      → Holds n t log
      → n + length log < id
      → id < uint64_bound
      → AllBelow (sequence id) t
  Holds-AllBelow n id [] log h e b = tt
  Holds-AllBelow n id ((k, v) ∷ t) [] h e b = absurd h
  Holds-AllBelow n id ((k, v) ∷ t) (x ∷ log) h e b = (
    rw (h.0.0) (text_lt-sequence (suc n) id (omega arith) b),
    Holds-AllBelow (suc n) id t log h.1 (omega arith) b,
  )

  Holds-snoc :
      (n : ℕ) (t : Table Bytes) (log : List (Event Bytes)) (v : Bytes) (e : Event Bytes)
      → Holds n t log
      → e.id ≡ suc (n + length log)
      → decrypt env v (event_context e.id) ≡ ok (json.event_codec.marshal e)
      → Holds n (t ++ (sequence e.id, v) ∷ []) (log ++ e ∷ [])
  Holds-snoc n [] [] v e h i d =
      let same : e.id ≡ suc n = omega arith in
      (
        (
          ap sequence same,
          same,
          subst (λ (k : ℕ). decrypt env v (event_context k) ≡ ok (json.event_codec.marshal e)) same
              d,
        ),
        tt,
      )
  Holds-snoc n [] (x ∷ log) v e h i d = absurd h
  Holds-snoc n ((k, w) ∷ t) [] v e h i d = absurd h
  Holds-snoc n ((k, w) ∷ t) (x ∷ log) v e h i d =
      (h.0, Holds-snoc (suc n) t log v e h.1 (omega arith) d)

-- What `appendTx` does, in terms of the list: a repeated payload is dropped.
unfoldable pub appended :
    (env : Platform) → Event env.Bytes → ℕ → List (Event env.Bytes) → List (Event env.Bytes) × Bool
appended env event now log =
    if unchanged env (newest (event_key event) log) event.payload
    then (log, false)
    else (log ++ record event { id = suc (length log); time = now } ∷ [], true)

module _ {env : Platform} where
  open env use {Bytes, bolt, json}

  pub record IsLog (db : Db env) (log : List (Event Bytes)) : Type 0 where
    pub holds : Holds env 0 (bolt.entries db.events) log
    pub numbered : bolt.sequence_of db.events ≡ length log
    pub snapshots : (key : Text) → plain_at env db.latest key key ≡ ok (newest key log)

  pub IsLog-same :
      (db db' : Db env) {log : List (Event Bytes)}
      → db'.events ≡ db.events
      → db'.latest ≡ db.latest
      → IsLog db log
      → IsLog db' log
  IsLog-same db db' e f l = record {
    holds = rw e l.holds;
    numbered = rw e l.numbered;
    snapshots = rw f l.snapshots;
  }

  module _ (event next : Event Bytes) (db : Db env) (log : List (Event Bytes)) (l : IsLog db log)
      (room : suc (length log) < uint64_bound) (i : next.id ≡ suc (length log))
      (same_key : event_key next ≡ event_key event)
      (same_payload : next.payload ≡ event.payload) where
    write_stamped-Holds :
        Holds env 0
          (bolt.entries (write_stamped {env = env} next event db).events)
          (log ++ next ∷ [])
    unfolding write_stamped
    write_stamped-Holds =
        let v = encrypt env db.draws (json.event_codec.marshal next) (event_context next.id) in
        let below =
          Holds-AllBelow env 0 next.id (bolt.entries db.events) log l.holds (omega arith)
            (omega arith) in
        rw
          (
            bolt.entries-put (bolt.set_sequence db.events next.id) (sequence next.id) v,
            bolt.entries-set_sequence db.events next.id,
            insert-snoc (sequence next.id) v (bolt.entries db.events) below,
          )
          (Holds-snoc env 0 (bolt.entries db.events) log v next l.holds (omega arith)
            (decrypt-encrypt env db.draws (json.event_codec.marshal next) (event_context next.id)))

    write_stamped-numbered :
        bolt.sequence_of (write_stamped {env = env} next event db).events
        ≡ length (log ++ next ∷ [])
    unfolding write_stamped
    write_stamped-numbered =
        rw (bolt.sequence_of-put, bolt.sequence_of-set)
          (omega (arith, length-append log (next ∷ [])))

    write_stamped-snapshots :
        (key : Text)
        → plain_at env (write_stamped {env = env} next event db).latest key key
          ≡ ok (newest key (log ++ next ∷ []))
    unfolding write_stamped
    write_stamped-snapshots key =
        rw (newest-snoc key log next, same_key, same_payload)
          (elim (Bool-cases (text_eq (event_key event) key)) [
            | inl e ↦
                rw (e, ← text_eq→eq (event_key event) key e)
                  (plain_at-put_self env db.latest (event_key event) (event_key event)
                    (suc db.draws) event.payload)
            | inr e ↦ rw e (
                plain_at-put_ne env db.latest (event_key event) key key
                  (encrypt env (suc db.draws) event.payload (event_key event)) e
                ∙ l.snapshots key)
          ])

    IsLog-write_stamped : IsLog (write_stamped {env = env} next event db) (log ++ next ∷ [])
    IsLog-write_stamped = record {
      holds = write_stamped-Holds;
      numbered = write_stamped-numbered;
      snapshots = write_stamped-snapshots;
    }

  pub IsLog-write_event :
      (event : Event Bytes) (db : Db env) (log : List (Event Bytes))
      → IsLog db log
      → suc (length log) < uint64_bound
      → IsLog
          (write_event event db)
          (log ++ record event { id = suc (length log); time = db.now } ∷ [])
  unfolding write_event stamped next_sequence event_key
  IsLog-write_event event db log l room =
      let id : next_sequence env db.events ≡ suc (length log) = omega (arith, l.numbered) in
      rw (← id)
        (IsLog-write_stamped event (stamped {env = env} event db) db log l room id refl refl)
