-- ===== src/Examples/Sending.antt =====
-- Rounds of the send worker and runs of the hub, and their theorems at concrete inputs.
use google_messages_multidev.Bridge.Hub.{Subscription, new_subscription, notify_all, notify_one}
use google_messages_multidev.Bridge.Hub.Delivery.{
  IsSound, Op, hub_published, hub_run, hub_run-delivers, nth, publishes, takes_live,
}
use google_messages_multidev.Bridge.Provider.{Around, Provider, SendTarget}
use google_messages_multidev.Bridge.Sender.{
  Verdict, answer, attempt, deliver, dispatch, is_kind, no_target, outcome_detail, outcome_state,
  settle, stop,
}
use google_messages_multidev.Bridge.Sender.Once.{
  Round, is_distinct, send_rounds, send_rounds-dispatch_once,
}
use google_messages_multidev.Bridge.Sender.Settled.{
  dispatch-failure, dispatch-settles, is_unregistered,
}
use google_messages_multidev.Bridge.Sender.Steps.{IsMindful}
use google_messages_multidev.Bridge.Worker.{
  Worker, call_provider, commit, hand_over, notify_hub, request_sync,
}
use google_messages_multidev.Examples.Data.{queued_db, queued_db-IsKeyed, runs}
use google_messages_multidev.Examples.Outbox.{blank, record_or}
use google_messages_multidev.Model.{Outbox, ambiguous, is_sending, rejected}
use google_messages_multidev.Platform.Sample.{sample}
use google_messages_multidev.Prelude.Core.{
  List, [], arith, false, refl, some, true, ℕ, ◌++◌, ◌∷◌, ◌≡◌,
}
use google_messages_multidev.Prelude.Tests.{if◌then◌else◌}
use google_messages_multidev.Prelude.Text.{txt}
use google_messages_multidev.Result.{err, is_rejection, ok, unavailable}
use google_messages_multidev.Store.Db.{Db}
use google_messages_multidev.Store.Outbox.{
  claim_queued, is_result, read_outbox, with_detail, with_state,
}
use google_messages_multidev.Store.Outbox.Lifecycle.{IsKeyed, Lawful-refl}
use google_messages_multidev.Store.Outbox.Once.{claims, recovers, run, run-Lawful}

abbrev pub quiet : Around sample
quiet = record {
  meanwhile = λ n db. db;
  ended = λ n. false;
  pairs = λ n. false;
  pairs_at_claim = λ n. false;
}

-- While the first call runs, the phone's echo of the request arrives.
abbrev busy : Around sample
busy = record quiet { meanwhile = λ n db. run (recovers ∷ []) db }

busy-IsMindful : IsMindful busy
busy-IsMindful = record { mindful = λ n db k. run-Lawful (recovers ∷ []) db k }

quiet-IsMindful : IsMindful quiet
quiet-IsMindful = record { mindful = λ n db k. Lawful-refl db k }

abbrev target : SendTarget sample
target = no_target

-- A provider that cannot say what became of a send.
abbrev pub unsure : Provider sample
unsure = record {
  conversations = λ n. err unavailable;
  messages = λ n id. err unavailable;
  create_conversation = λ n to name. err unavailable;
  react = λ n t id emoji remove. err unavailable;
  upload = λ n content name mime. err unavailable;
  message_page = λ n id cursor. err unavailable;
  conversation_page = λ n folder cursor. err unavailable;
  prepare = λ n id. ok target;
  send = λ n t o. err unavailable;
  mark_read = λ n c id. err unavailable;
  attachment = λ n token. err unavailable;
}

abbrev rounds : ℕ → Round sample
rounds n = record { before = recovers ∷ []; provider = unsure; around = busy }

abbrev pub worker : Db sample → Worker sample
worker db = record {
  db = db;
  hub = new_subscription ∷ [];
  send_wake = false;
  sync_wake = false;
  history_wake = false;
  broken = false;
  calls = 0;
  dispatched = [];
}

send_rounds-dispatch_once_example :
    is_distinct (send_rounds rounds 3 (worker queued_db)).dispatched ≡ true
send_rounds-dispatch_once_example =
    send_rounds-dispatch_once rounds 3 (worker queued_db) (λ i. busy-IsMindful) queued_db-IsKeyed
      refl

abbrev sending_db : Db sample
sending_db = run (claims ∷ []) queued_db

sending_db-IsKeyed : IsKeyed sending_db
sending_db-IsKeyed = (run-Lawful (claims ∷ []) queued_db queued_db-IsKeyed).keyed

abbrev taken : Outbox
taken = record_or (claim_queued (txt "k1") queued_db) blank

abbrev sent : Verdict × Worker sample
sent = dispatch unsure quiet taken target 0 (worker sending_db)

unfoldable pub sends : Unit {0}
unfolding runs dispatch attempt settle commit notify_hub request_sync call_provider deliver answer
    hand_over outcome_state outcome_detail with_detail with_state is_result notify_all notify_one
sends = tt

sent_ok : sent ≡ (stop (ok true), sent.1)
unfolding sends
sent_ok = refl

taken_stored : read_outbox taken.id sending_db ≡ ok taken
unfolding sends
taken_stored = refl

taken_sending : is_sending taken.state ≡ true
unfolding sends
taken_sending = refl

taken_text : is_kind (txt "conversation") taken.request ≡ false
unfolding sends
taken_text = refl

taken_fails : answer unsure quiet taken target 0 ≡ err unavailable
unfolding sends
taken_fails = refl

dispatch-settles_example :
    (o : Outbox) × (read_outbox taken.id sent.1.db ≡ ok o) × (is_sending o.state ≡ false)
dispatch-settles_example =
    dispatch-settles unsure quiet quiet-IsMindful taken target 0 (worker sending_db) sent.1
      sending_db-IsKeyed sent_ok

dispatch-failure_example :
    read_outbox taken.id sent.1.db
    ≡ ok (
        with_detail taken
          (if is_rejection unavailable then rejected else ambiguous)
          (if is_unregistered unavailable
            then txt "Recipient is not registered on this network"
            else if is_rejection unavailable
            then txt "Provider explicitly rejected the send request"
            else txt "Send outcome unknown; inspect phone before sending again")
          sending_db.now)
dispatch-failure_example =
    dispatch-failure unsure quiet quiet-IsMindful taken target 0 (worker sending_db) sent.1
      unavailable taken sending_db-IsKeyed taken_text taken_fails taken_stored taken_sending sent_ok

abbrev hub_ops : List (Op ℕ)
hub_ops = publishes 7 ∷ takes_live 0 ∷ publishes 8 ∷ []

abbrev fresh_sub : Subscription ℕ
fresh_sub = new_subscription

fresh_sub-IsSound : IsSound fresh_sub
unfolding new_subscription
fresh_sub-IsSound = record { within = ground arith; closed_once = refl }

hub_run-delivers_example :
    (s : Subscription ℕ) × (nth 0 (hub_run hub_ops (fresh_sub ∷ [])) ≡ some s)
    × IsSound s
    × (s.member ≡ true
        → (fresh_sub.member ≡ true)
          × (s.taken ++ s.live ≡ (fresh_sub.taken ++ fresh_sub.live) ++ hub_published hub_ops))
hub_run-delivers_example =
    hub_run-delivers hub_ops 0 (fresh_sub ∷ []) fresh_sub (unfold nth in refl) fresh_sub-IsSound
