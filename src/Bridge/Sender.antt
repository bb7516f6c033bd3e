-- ===== src/Bridge/Sender.antt =====
-- The send worker: `sendOne` and `claimSend` of internal/bridge/service.go, `prepareMedia` and
-- `upload` of internal/bridge/features.go. `sort.Slice` leaves records of one creation time in an
-- order of its own; here they keep that of their keys.
pub mod Steps
pub mod Once
pub mod Settled
use google_messages_multidev.Bridge.Provider.{Around, Provider, SendTarget, Snapshot}
use google_messages_multidev.Bridge.Worker.{
  Act, Worker, call_provider, commit, hand_over, notify_hub, request_sync,
}
use google_messages_multidev.Model.{
  Outbox, OutboxState, SendRequest, Upload, accepted, ambiguous, is_queued, rejected,
}
use google_messages_multidev.Platform.{Platform}
use google_messages_multidev.Prelude.Core.{
  Bool, List, [], false, inl, inr, none, refl, some, true, ℕ, ◌++◌, ◌||◌, ◌∷◌, ◌≡◌, ◌⊎◌,
}
use google_messages_multidev.Prelude.Tests.{if◌then◌else◌, ltb}
use google_messages_multidev.Prelude.Text.{Text, text_eq, txt}
use google_messages_multidev.Result.{
  Error, Result, conflict, corrupt, err, in_pairing, is_conflict, is_not_found, is_rejection,
  is_storage, ok, or_error, recipient_unavailable, rejected_send, storage, too_large, unavailable,
}
use google_messages_multidev.Store.Db.{Db, record_key}
use google_messages_multidev.Store.Events.{history_watermark}
use google_messages_multidev.Store.History.{finish_conversation}
use google_messages_multidev.Store.Outbox.{claim_queued, finish, reject_queued}
use google_messages_multidev.Store.Records.{
  get_value, latest_records, on_latest, on_media, on_private, put_value,
}

-- What became of one candidate: the round ends, or goes on to the next candidate, or goes on and
-- skips the rest of the candidate's conversation.
pub data Verdict : Type 0 where
  stop : Result Bool → Verdict
  go_on : Verdict
  block : Verdict

pub Verdict-cases : (v : Verdict) → ((r : Result Bool) × (v ≡ stop r)) ⊎ ((v ≡ go_on) ⊎ (v ≡ block))
Verdict-cases (stop r) = inl (r, refl)
Verdict-cases go_on = inr (inl refl)
Verdict-cases block = inr (inr refl)

abbrev pub upload_key : Text → Text
upload_key id = record_key (txt "upload") id

abbrev pub read_only_detail : Text
read_only_detail = txt "Conversation has no usable outgoing sender or is read-only"

-- How a refused upload is reported.
unfoldable pub upload_error : Error → Error
upload_error too_large = rejected_send
upload_error e = if is_rejection e then rejected_send else unavailable

unfoldable pub insert_created : Outbox → List Outbox → List Outbox
insert_created o [] = o ∷ []
insert_created o (p ∷ os) =
    let rest = insert_created o os in if ltb o.created p.created then o ∷ p ∷ os else p ∷ rest

unfoldable pub sort_created : List Outbox → List Outbox
unfolding insert_created
sort_created [] = []
sort_created (o ∷ os) = insert_created o (sort_created os)

abbrev pub is_kind : Text → SendRequest → Bool
is_kind kind req = text_eq req.kind kind

unfoldable pub mentions : Text → List Text → Bool
mentions c [] = false
mentions c (b ∷ blocked) = text_eq b c || mentions c blocked

-- The state and the detail that `Finish` is given.
unfoldable pub outcome_state : Result (Unit {0}) → OutboxState
outcome_state (ok u) = accepted
outcome_state (err e) = if is_rejection e then rejected else ambiguous

unfoldable pub outcome_detail : SendRequest → Result (Unit {0}) → Text
outcome_detail req (ok u) =
    if is_kind (txt "reaction") req
    then txt "Provider accepted the reaction update"
    else txt "Provider accepted the request; delivery is not confirmed"
outcome_detail req (err recipient_unavailable) = txt "Recipient is not registered on this network"
outcome_detail req (err e) =
    if is_rejection e
    then txt "Provider explicitly rejected the send request"
    else txt "Send outcome unknown; inspect phone before sending again"

-- The queued records among the latest snapshots.
unfoldable pub queued_of : (env : Platform) → List env.Bytes → Result (List Outbox)
queued_of env [] = ok []
queued_of env (plain ∷ rest) = elim (env.json.outbox_codec.unmarshal plain) [
  | none ↦ err corrupt
  | some o ↦ elim (queued_of env rest) [
    | err e ↦ err e
    | ok os ↦ ok (if is_queued o.state then o ∷ os else os)
  ]
]

-- The claim failed: a pairing ends the round, a record that was taken or withdrawn is passed over.
unfoldable pub claim_failed : Error → Verdict
claim_failed in_pairing = stop (ok false)
claim_failed conflict = go_on
claim_failed e = stop (err e)

module _ {env : Platform} where
  open env use {Bytes, raw, json}

  -- `Bridge.upload`.
  unfoldable pub stored_upload : Text → Db env → Result Upload
  stored_upload id db = elim (get_value on_latest (upload_key id) db) [
    | err e ↦ err e
    | ok plain ↦ or_error (json.upload_codec.unmarshal plain) corrupt
  ]

  unfoldable pub candidates : Db env → Result (List Outbox)
  unfolding queued_of sort_created
  candidates db = elim (latest_records (txt "outbox") db) [
    | err e ↦ err e
    | ok plains ↦ elim (queued_of env plains) [ err e ↦ err e | ok os ↦ ok (sort_created os) ]
  ]

  abbrev pub no_target : SendTarget env
  no_target = record { transaction_id = []; conversation_id = []; media = []; route = raw [] }

  -- What the provider answered to an upload; its token is kept for the next attempt.
  unfoldable pub keep_token : Text → Result Bytes × Worker env → Result Bytes × Worker env
  unfolding upload_error
  keep_token id (err e, w) = (err (upload_error e), w)
  keep_token id (ok token, w) =
      (ok token, record w { db = put_value on_private (upload_key id) token w.db })

  -- `claimSend`.
  unfoldable pub claim_send : Around env → Text → Act env Outbox
  claim_send around id w =
      if around.pairs_at_claim w.calls then (err in_pairing, w) else commit (claim_queued id) w

  -- A definite refusal before the send.
  unfoldable pub refuse : Text → Worker env → Verdict × Worker env
  refuse id w =
      let done_tx = commit (reject_queued id read_only_detail) w in
      elim done_tx.0 [
        | err e ↦ (if is_conflict e then go_on else stop (err e), done_tx.1)
        | ok u ↦ (stop (ok true), notify_hub done_tx.1)
      ]

  -- `Finish` with what came of the call.
  unfoldable pub settle : Outbox → Result (Unit {0}) → Worker env → Verdict × Worker env
  unfolding outcome_state outcome_detail
  settle o result w =
      let done_tx =
        commit (finish o.id (outcome_state result) (outcome_detail o.request result)) w in
      elim done_tx.0 [
        | err e ↦ (stop (err e), done_tx.1)
        | ok u ↦ (stop (ok true), request_sync (notify_hub done_tx.1))
      ]

  unfoldable pub settle_conversation :
      Outbox → ℕ → Result (Snapshot env) → Worker env → Verdict × Worker env
  unfolding settle
  settle_conversation o mark (err e) w = settle o (err e) w
  settle_conversation o mark (ok snap) w =
      let done_tx = commit (finish_conversation o.id snap.event snap.private mark) w in
      elim done_tx.0 [
        | err e ↦ (stop (err e), done_tx.1)
        | ok u ↦ (stop (ok true), request_sync (notify_hub done_tx.1))
      ]

module _ {env : Platform} (p : Provider env) (around : Around env) where
  open env use {Bytes}

  -- An attachment that the provider has not been given yet.
  unfoldable pub upload_media : Text → Act env Bytes
  unfolding keep_token
  upload_media id w = elim (stored_upload id w.db) [
    | err e ↦ (err storage, w)
    | ok u ↦ elim (get_value on_media (upload_key id) w.db) [
      | err e ↦ (err storage, w)
      | ok content ↦ keep_token id (call_provider around (λ n. p.upload n content u.name u.mime) w)
    ]
  ]

  unfoldable pub media_of : Text → Act env Bytes
  unfolding upload_media
  media_of id w = elim (get_value on_private (upload_key id) w.db) [
    | ok token ↦ (ok token, w)
    | err e ↦ if is_not_found e then upload_media id w else (err storage, w)
  ]

  -- `prepareMedia`.
  unfoldable pub prepare_media : List Text → SendTarget env → Act env (SendTarget env)
  prepare_media [] target w = (ok target, w)
  prepare_media (id ∷ ids) target w =
      let found = media_of id w in
      elim found.0 [
        | err e ↦ (err e, found.1)
        | ok token ↦
            prepare_media ids (record target { media = target.media ++ token ∷ [] }) found.1
      ]

  -- `Prepare` and `prepareMedia`, under one deadline.
  unfoldable pub prepare_send : SendRequest → Act env (SendTarget env)
  prepare_send req w =
      if is_kind (txt "conversation") req
      then prepare_media req.attachment_ids no_target w
      else let called = call_provider around (λ n. p.prepare n req.conversation_id) w in
        elim called.0 [
          | err e ↦ (err e, called.1)
          | ok target ↦ prepare_media req.attachment_ids target called.1
        ]

  -- The answer of `React` or `Send`.
  unfoldable pub answer : Outbox → SendTarget env → ℕ → Result (Unit {0})
  answer o target n =
      if is_kind (txt "reaction") o.request
      then p.react n (record target { transaction_id = o.transaction_id }) o.request.message_id
          o.request.emoji o.request.remove
      else p.send n target o

  unfoldable pub deliver : Outbox → SendTarget env → Act env (Unit {0})
  deliver o target = hand_over around o.id (answer o target)

  unfoldable pub create : Outbox → Act env (Snapshot env)
  create o =
      hand_over around o.id (λ n. p.create_conversation n o.request.recipients o.request.group_name)

  unfoldable pub attempt : Outbox → SendTarget env → ℕ → Worker env → Verdict × Worker env
  unfolding settle settle_conversation
  attempt o target mark w =
      if is_kind (txt "conversation") o.request
      then (let called = create o w in settle_conversation o mark called.0 called.1)
      else (let called = deliver o target w in settle o called.0 called.1)

  -- The one attempt that the provider is asked to make, for a record that was claimed.
  unfoldable pub dispatch : Outbox → SendTarget env → ℕ → Worker env → Verdict × Worker env
  unfolding attempt
  dispatch o target mark w = attempt o target mark (notify_hub w)

  unfoldable pub claim_and_dispatch : Text → SendTarget env → Worker env → Verdict × Worker env
  unfolding claim_failed
  claim_and_dispatch id target w =
      let claimed = claim_send around id w in
      elim claimed.0 [
        | err e ↦ (claim_failed e, claimed.1)
        | ok o ↦ dispatch o target (history_watermark w.db) claimed.1
      ]

  unfoldable pub after_preparing :
      Text → Result (SendTarget env) → Worker env → Verdict × Worker env
  unfolding refuse
  after_preparing id (err e) w =
      if is_rejection e then refuse id w else if is_storage e then (stop (err e), w) else (block, w)
  after_preparing id (ok target) w =
      if around.pairs w.calls then (stop (ok false), w) else claim_and_dispatch id target w

  -- One round of the loop over the candidates.
  unfoldable pub try_one : Outbox → Worker env → Verdict × Worker env
  try_one c w =
      let prepared = prepare_send c.request w in
      if around.ended prepared.1.calls
      then (stop (ok false), prepared.1)
      else after_preparing c.id prepared.0 prepared.1

  unfoldable pub try_each : List Outbox → List Text → Act env Bool
  try_each [] blocked w = (ok false, w)
  try_each (c ∷ cs) blocked w = elim (mentions c.request.conversation_id blocked) [
    | true ↦ try_each cs blocked w
    | false ↦ elim (try_one c w).0 [
      | stop r ↦ (r, (try_one c w).1)
      | go_on ↦ try_each cs blocked (try_one c w).1
      | block ↦ try_each cs (c.request.conversation_id ∷ blocked) (try_one c w).1
    ]
  ]

  -- `sendOne`, with a provider.
  unfoldable pub send_one : Act env Bool
  unfolding try_each
  send_one w =
      if around.ended w.calls
      then (ok false, w)
      else elim (candidates w.db) [ err e ↦ (err e, w) | ok cs ↦ try_each cs [] w ]
