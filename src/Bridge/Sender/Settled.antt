-- ===== src/Bridge/Sender/Settled.antt =====
-- What a round of the send worker (internal/bridge/service.go) leaves of the request that it handed
-- to the provider.
use google_messages_multidev.Bridge.Provider.{Around, Provider, SendTarget, Snapshot}
use google_messages_multidev.Bridge.Sender.{
  answer, attempt, create, deliver, dispatch, is_kind, outcome_detail, outcome_state, settle,
  settle_conversation, stop,
}
use google_messages_multidev.Bridge.Sender.Steps.{IsMindful, Steady-create, Steady-deliver}
use google_messages_multidev.Bridge.Worker.{
  Worker, call_provider, commit, hand_over, notify_hub, request_sync,
}
use google_messages_multidev.Model.{
  Outbox, OutboxState, SendRequest, accepted, ambiguous, is_sending, rejected,
}
use google_messages_multidev.Platform.{Platform}
use google_messages_multidev.Prelude.Core.{Bool, arith, false, inl, inr, refl, true, ℕ, ◌≡◌}
use google_messages_multidev.Prelude.Tests.{Bool-cases, if◌then◌else◌}
use google_messages_multidev.Prelude.Text.{Text, text_eq_refl, txt}
use google_messages_multidev.Result.{
  Error, Result, Result-cases, err, is_rejection, ok, recipient_unavailable,
}
use google_messages_multidev.Store.Db.{Db, update}
use google_messages_multidev.Store.History.{accepted_conversation, finish_conversation}
use google_messages_multidev.Store.History.Created.{finish_conversation-accepts}
use google_messages_multidev.Store.Outbox.{
  finish, is_result, read_outbox, with_detail, write_outbox,
}
use google_messages_multidev.Store.Outbox.Lifecycle.{IsKeyed}
use google_messages_multidev.Store.Outbox.Reads.{read-write_outbox}

abbrev pub is_unregistered : Error → Bool
is_unregistered recipient_unavailable = true
is_unregistered _ = false

failure_detail :
    (req : SendRequest) (e : Error)
    → outcome_detail req (err e) ≡ (
        if is_unregistered e
        then txt "Recipient is not registered on this network"
        else if is_rejection e
        then txt "Provider explicitly rejected the send request"
        else txt "Send outcome unknown; inspect phone before sending again")
unfolding outcome_detail
failure_detail req recipient_unavailable = refl
failure_detail req _ = refl

result_left : (s : OutboxState) → is_result s ≡ true → is_sending s ≡ false
unfolding is_result
result_left accepted h = refl
result_left _ h = ground arith

module _ {env : Platform} where
  finish-settles :
      (id : Text) (state : OutboxState) (detail : Text) (db : Db env) {db' : Db env}
      → IsKeyed db
      → finish id state detail db ≡ ok (tt, db')
      → (o : Outbox) × (read_outbox id db' ≡ ok o) × (is_sending o.state ≡ false)
  unfolding finish with_detail
  finish-settles id state detail db {db'} k h = elim (Result-cases (read_outbox id db)) [
    | inr (x, e) ↦ absurd (ground arith)
    | inl (p, e) ↦ elim (Bool-cases (is_sending p.state)) [
      | inr c ↦ (p, ground arith, c)
      | inl c ↦
          let o = with_detail p state detail db.now in
          let w : write_outbox o db ≡ ok (tt, db') = ground arith in
          (
            o,
            ground (arith, read-write_outbox o id db w, k.keyed id p e, text_eq_refl id),
            result_left state (ground arith),
          )
    ]
  ]

  finish-writes :
      (id : Text) (state : OutboxState) (detail : Text) (db : Db env) {db' : Db env} (p : Outbox)
      → IsKeyed db
      → finish id state detail db ≡ ok (tt, db')
      → read_outbox id db ≡ ok p
      → is_sending p.state ≡ true
      → read_outbox id db' ≡ ok (with_detail p state detail db.now)
  unfolding finish with_detail
  finish-writes id state detail db {db'} p k h e c =
      let o = with_detail p state detail db.now in
      let w : write_outbox o db ≡ ok (tt, db') = ground arith in
      ground (arith, read-write_outbox o id db w, k.keyed id p e, text_eq_refl id)

  settle-settles :
      (o : Outbox) (r : Result (Unit {0})) (w w' : Worker env)
      → IsKeyed w.db
      → settle o r w ≡ (stop (ok true), w')
      → (o' : Outbox) × (read_outbox o.id w'.db ≡ ok o') × (is_sending o'.state ≡ false)
  unfolding settle commit update notify_hub request_sync
  settle-settles o r w w' k h =
      elim (Result-cases
        (finish {env = env} o.id (outcome_state r) (outcome_detail o.request r) w.db)) [
          | inr (x, e) ↦ absurd (ground arith)
          | inl ((u, db'), e) ↦
              let (o', stored, out) = finish-settles o.id _ _ w.db k e in (o', ground arith, out)
        ]

  settle_conversation-settles :
      (o : Outbox) (mark : ℕ) (r : Result (Snapshot env)) (w w' : Worker env)
      → IsKeyed w.db
      → settle_conversation o mark r w ≡ (stop (ok true), w')
      → (o' : Outbox) × (read_outbox o.id w'.db ≡ ok o') × (is_sending o'.state ≡ false)
  unfolding settle_conversation commit update notify_hub request_sync accepted_conversation
  settle_conversation-settles o mark (err e) w w' k h = settle-settles o (err e) w w' k h
  settle_conversation-settles o mark (ok snap) w w' k h =
      elim (Result-cases (finish_conversation o.id snap.event snap.private mark w.db)) [
        | inr (x, e) ↦ absurd (ground arith)
        | inl ((u, db'), e) ↦
            let (p, before, now) =
              finish_conversation-accepts o.id snap.event snap.private mark w.db k e in
            (accepted_conversation p snap.event.entity_id w.db.now, ground arith, refl)
      ]

module _ {env : Platform} (p : Provider env) (around : Around env) (m : IsMindful around) where
  -- Whatever the provider answers, and whatever is committed around its call along the outbox's own
  -- edges: when the worker has handed a request over and the round ends without an error, the request
  -- is stored and no longer in the state "sending".
  pub dispatch-settles :
      (o : Outbox) (target : SendTarget env) (mark : ℕ) (w w' : Worker env)
      → IsKeyed w.db
      → dispatch p around o target mark w ≡ (stop (ok true), w')
      → (o' : Outbox) × (read_outbox o.id w'.db ≡ ok o') × (is_sending o'.state ≡ false)
  unfolding dispatch attempt notify_hub
  dispatch-settles o target mark w w' k h =
      let told = notify_hub w in
      elim (Bool-cases (is_kind (txt "conversation") o.request)) [
        | inl c ↦
            let called = create p around o told in
            let s = Steady-create p around m o told k in
            settle_conversation-settles o mark called.0 called.1 w' s.lawful.keyed (ground arith)
        | inr c ↦
            let called = deliver p around o target told in
            let s = Steady-deliver p around m o target told k in
            settle-settles o called.0 called.1 w' s.lawful.keyed (ground arith)
      ]

  -- The request is stored as being sent after the provider's call, and the call to `Send` or `React`
  -- failed: if the round ends without an error, the record that stands there is the same with a new
  -- state and detail: "rejected" where the provider refused the request for certain, with whether its
  -- recipient is not registered, and "ambiguous" in every other case, with the advice to inspect the
  -- phone before sending again.
  pub dispatch-failure :
      (o : Outbox) (target : SendTarget env) (mark : ℕ) (w w' : Worker env) (e : Error)
      (now : Outbox)
      → IsKeyed w.db
      → is_kind (txt "conversation") o.request ≡ false
      → answer p around o target w.calls ≡ err e
      → read_outbox o.id (around.meanwhile w.calls w.db) ≡ ok now
      → is_sending now.state ≡ true
      → dispatch p around o target mark w ≡ (stop (ok true), w')
      → read_outbox o.id w'.db
        ≡ ok (
            with_detail now
              (if is_rejection e then rejected else ambiguous)
              (if is_unregistered e
                then txt "Recipient is not registered on this network"
                else if is_rejection e
                then txt "Provider explicitly rejected the send request"
                else txt "Send outcome unknown; inspect phone before sending again")
              (around.meanwhile w.calls w.db).now)
  unfolding dispatch attempt notify_hub settle commit update request_sync call_provider deliver
      hand_over outcome_state
  dispatch-failure o target mark w w' e now k c f r q h =
      let later = around.meanwhile w.calls w.db in
      let detail = outcome_detail o.request (err e) in
      let state = if is_rejection e then rejected else ambiguous in
      let k' = (m.mindful w.calls w.db k).keyed in
      elim (Result-cases (finish {env = env} o.id state detail later)) [
        | inr (x, g) ↦ absurd (ground arith)
        | inl ((u, db'), g) ↦
            ground (
              arith,
              finish-writes o.id state detail later now k' g r q,
              failure_detail o.request e,
            )
      ]
