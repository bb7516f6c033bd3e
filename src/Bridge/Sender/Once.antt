-- ===== src/Bridge/Sender/Once.antt =====
-- Rounds of the send worker (internal/bridge/service.go), restarts between them: no request is handed
-- to the provider twice.
use google_messages_multidev.Bridge.Provider.{Around, Provider, SendTarget}
use google_messages_multidev.Bridge.Sender.{
  Verdict-cases, after_preparing, candidates, claim_and_dispatch, claim_send, dispatch, mentions,
  prepare_send, send_one, try_each, try_one,
}
use google_messages_multidev.Bridge.Sender.Steps.{
  IsMindful, Steady, Steady-attempt, Steady-prepare_send, Steady-refuse,
}
use google_messages_multidev.Bridge.Worker.{Worker, commit, notify_hub}
use google_messages_multidev.Model.{Outbox, is_queued}
use google_messages_multidev.Platform.{Platform}
use google_messages_multidev.Prelude.Core.{
  Bool, List, [], arith, false, inl, inr, not, refl, subst, suc, sym, true, zero, ℕ, ◌&&◌, ◌∙◌, ◌∷◌,
  ◌≡◌,
}
use google_messages_multidev.Prelude.Tests.{Bool-cases}
use google_messages_multidev.Prelude.Text.{Text, text_eq, text_eq→eq}
use google_messages_multidev.Result.{Result, Result-cases, err, is_rejection, is_storage, ok}
use google_messages_multidev.Store.Db.{Db, update}
use google_messages_multidev.Store.Events.{history_watermark}
use google_messages_multidev.Store.Outbox.{claim_queued, read_outbox}
use google_messages_multidev.Store.Outbox.Calls.{Lawful-claim_queued}
use google_messages_multidev.Store.Outbox.Lifecycle.{IsKeyed, Lawful, Lawful-refl, Leads-not_queued}
use google_messages_multidev.Store.Outbox.Once.{Call, claim_queued-stored, run, run-Lawful}

unfoldable pub is_distinct : List Text → Bool
is_distinct [] = true
is_distinct (id ∷ ids) = not (mentions id ids) && is_distinct ids

-- One round: the provider that the worker has, what happens around its calls, and the calls on the
-- outbox that came before it, those of a restart included.
pub record Round (env : Platform) : Type 0 where
  pub before : List Call
  pub provider : Provider env
  pub around : Around env

module _ {env : Platform} where
  unfoldable pub send_round : Round env → Worker env → Worker env
  send_round r w = (send_one r.provider r.around (record w { db = run r.before w.db })).1

  unfoldable pub send_rounds : (ℕ → Round env) → ℕ → Worker env → Worker env
  send_rounds rounds zero w = w
  send_rounds rounds (suc n) w = send_round (rounds n) (send_rounds rounds n w)

  -- A request that was handed over is stored, and is not in the queue.
  record HasLeft (db : Db env) (id : Text) : Type 0 where
    found : Outbox
    stored : read_outbox id db ≡ ok found
    unqueued : is_queued found.state ≡ false

  record Sent (w : Worker env) : Type 0 where
    by_id : IsKeyed w.db
    once : is_distinct w.dispatched ≡ true
    gone : (id : Text) → mentions id w.dispatched ≡ true → HasLeft w.db id

  HasLeft-later : {db db' : Db env} {id : Text} → Lawful db db' → HasLeft db id → HasLeft db' id
  HasLeft-later {id = id} l h =
      let (o, e, v) = l.evolves id h.found h.stored in
      record { found = o; stored = e; unqueued = Leads-not_queued v.leads h.unqueued }

  Sent-Steady : (w w' : Worker env) → Sent w → Steady w w' → Sent w'
  Sent-Steady w w' s t = record {
    by_id = t.lawful.keyed;
    once = rw t.idle s.once;
    gone = λ id h. HasLeft-later t.lawful (s.gone id (rw (sym t.idle) h));
  }

  fresh :
      (id : Text) (w : Worker env) {o : Outbox} {db' : Db env}
      → Sent w
      → claim_queued id w.db ≡ ok (o, db')
      → mentions id w.dispatched ≡ false
  unfolding claim_queued
  fresh id w {o} {db'} s h = elim (Bool-cases (mentions id w.dispatched)) [
    | inr e ↦ e
    | inl e ↦ let left = s.gone id e in absurd (ground (arith, left.stored, left.unqueued, h))
  ]

  -- The worker after a claim, the claimed request handed over.
  handed :
      (id : Text) (o : Outbox) (w : Worker env) {db' : Db env}
      → Sent w
      → claim_queued id w.db ≡ ok (o, db')
      → Sent (record w { db = db'; dispatched = o.id ∷ w.dispatched })
  unfolding is_distinct mentions
  handed id o w {db'} s h =
      let l = Lawful-claim_queued id w.db s.by_id h in
      let (stored, out) = claim_queued-stored id w.db s.by_id h in
      let same : o.id ≡ id = l.keyed.keyed id o stored in
      let new = fresh id w s h in
      record {
        by_id = l.keyed;
        once = ground (arith, same, new, s.once);
        gone = λ j e. elim (Bool-cases (text_eq o.id j)) [
          | inl t ↦
              let at_j : id ≡ j = sym same ∙ text_eq→eq o.id j t in
              record {
                found = o;
                stored = subst (λ x. read_outbox x db' ≡ ok o) at_j stored;
                unqueued = out;
              }
          | inr t ↦ HasLeft-later l (s.gone j (ground arith))
        ];
      }

module _ {env : Platform} (p : Provider env) (around : Around env) (m : IsMindful around) where
  Sent-dispatch :
      (o : Outbox) (target : SendTarget env) (mark : ℕ) (w : Worker env)
      → Sent (record w { dispatched = o.id ∷ w.dispatched })
      → Sent (dispatch p around o target mark w).1
  unfolding dispatch notify_hub
  Sent-dispatch o target mark w s =
      let claimed = record w { dispatched = o.id ∷ w.dispatched } in
      let told = record (notify_hub w) { dispatched = o.id ∷ w.dispatched } in
      let s' : Sent told =
        Sent-Steady claimed told s (record { lawful = Lawful-refl w.db s.by_id; idle = refl }) in
      Sent-Steady told _ s' (Steady-attempt p around m o target mark (notify_hub w) s'.by_id)

  Sent-claim_and_dispatch :
      (id : Text) (target : SendTarget env) (w : Worker env)
      → Sent w
      → Sent (claim_and_dispatch p around id target w).1
  unfolding claim_and_dispatch claim_send commit update
  Sent-claim_and_dispatch id target w s = elim (Bool-cases (around.pairs_at_claim w.calls)) [
    | inl c ↦ subst Sent (ground arith) s
    | inr c ↦ elim (Result-cases (claim_queued id w.db)) [
      | inr (x, e) ↦ subst Sent (ground arith) s
      | inl ((o, db'), e) ↦ subst Sent (ground arith) (
          Sent-dispatch o target (history_watermark w.db) (record w { db = db' })
            (handed id o w s e))
    ]
  ]

  Sent-after_preparing :
      (id : Text) (r : Result (SendTarget env)) (w : Worker env)
      → Sent w
      → Sent (after_preparing p around id r w).1
  unfolding after_preparing
  Sent-after_preparing id (err e) w s = elim (Bool-cases (is_rejection e)) [
    | inl c ↦ subst Sent (ground arith) (Sent-Steady w _ s (Steady-refuse id w s.by_id))
    | inr c ↦ elim (Bool-cases (is_storage e)) [
      | inl d ↦ subst Sent (ground arith) s
      | inr d ↦ subst Sent (ground arith) s
    ]
  ]
  Sent-after_preparing id (ok target) w s = elim (Bool-cases (around.pairs w.calls)) [
    | inl c ↦ subst Sent (ground arith) s
    | inr c ↦ subst Sent (ground arith) (Sent-claim_and_dispatch id target w s)
  ]

  Sent-try_one : (c : Outbox) (w : Worker env) → Sent w → Sent (try_one p around c w).1
  unfolding try_one
  Sent-try_one c w s =
      let prepared = prepare_send p around c.request w in
      let s' = Sent-Steady w _ s (Steady-prepare_send p around m c.request w s.by_id) in
      elim (Bool-cases (around.ended prepared.1.calls)) [
        | inl e ↦ subst Sent (ground arith) s'
        | inr e ↦ subst Sent (ground arith) (Sent-after_preparing c.id prepared.0 prepared.1 s')
      ]

  Sent-try_each :
      (cs : List Outbox) (blocked : List Text) (w : Worker env)
      → Sent w
      → Sent (try_each p around cs blocked w).1
  unfolding try_each
  Sent-try_each [] blocked w s = s
  Sent-try_each (c ∷ cs) blocked w s =
      elim (Bool-cases (mentions c.request.conversation_id blocked)) [
        | inl b ↦ subst Sent (ground arith) (Sent-try_each cs blocked w s)
        | inr b ↦
            let next = (try_one p around c w).1 in
            let s' = Sent-try_one c w s in
            elim (Verdict-cases (try_one p around c w).0) [
              | inl (r, e) ↦ subst Sent (ground arith) s'
              | inr (inl e) ↦ subst Sent (ground arith) (Sent-try_each cs blocked next s')
              | inr (inr e) ↦
                  subst Sent (ground arith)
                    (Sent-try_each cs (c.request.conversation_id ∷ blocked) next s')
            ]
      ]

  Sent-send_one : (w : Worker env) → Sent w → Sent (send_one p around w).1
  unfolding send_one
  Sent-send_one w s = elim (Bool-cases (around.ended w.calls)) [
    | inl e ↦ subst Sent (ground arith) s
    | inr e ↦ elim (Result-cases (candidates w.db)) [
      | inr (x, r) ↦ subst Sent (ground arith) s
      | inl (cs, r) ↦ subst Sent (ground arith) (Sent-try_each cs [] w s)
    ]
  ]

module _ {env : Platform} where
  Sent-send_rounds :
      (rounds : ℕ → Round env) (n : ℕ) (w : Worker env)
      → ((i : ℕ) → IsMindful (rounds i).around)
      → Sent w
      → Sent (send_rounds rounds n w)
  unfolding send_rounds send_round
  Sent-send_rounds rounds zero w m s = s
  Sent-send_rounds rounds (suc n) w m s =
      let r = rounds n in
      let now = send_rounds rounds n w in
      let s' = Sent-send_rounds rounds n w m s in
      Sent-send_one r.provider r.around (m n) (record now { db = run r.before now.db })
        (Sent-Steady now _ s'
          (record { lawful = run-Lawful r.before now.db s'.by_id; idle = refl }))

  -- On an outbox whose records lie under their own ids, with no send made yet: after any number of
  -- rounds of the send worker, whatever each round's provider answers and fails with, whatever calls
  -- of the outbox come between the rounds, recoveries after a restart included, and whatever else
  -- happens around the provider's calls that moves records by the outbox's own edges, the log that
  -- has an entry for each call of `Send`, `React` and `CreateConversation` has no request twice.
  pub send_rounds-dispatch_once :
      (rounds : ℕ → Round env) (n : ℕ) (w : Worker env)
      → ((i : ℕ) → IsMindful (rounds i).around)
      → IsKeyed w.db
      → w.dispatched ≡ []
      → is_distinct (send_rounds rounds n w).dispatched ≡ true
  unfolding is_distinct mentions
  send_rounds-dispatch_once rounds n w m k none_yet =
      (Sent-send_rounds rounds n w m (record {
        by_id = k;
        once = rw none_yet refl;
        gone = λ id h. absurd (ground (arith, none_yet, h));
      })).once
