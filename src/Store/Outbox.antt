-- ===== src/Store/Outbox.antt =====
-- The durable outbox: `readOutbox` to `CancelQueued`, `ClaimQueued` and `RejectQueued` of
-- internal/store/records.go, `cancelQueuedForPairing` of internal/store/pairing.go.
pub mod Reads
pub mod Lifecycle
pub mod Calls
pub mod Walks
pub mod Oldest
pub mod Once
use google_messages_multidev.Event.{Event}
use google_messages_multidev.Model.{
  Message, Outbox, OutboxState, SendRequest, accepted, ambiguous, canceled, confirmed, is_canceled,
  is_confirmed, is_queued, is_sending, queued, rejected, schema, sending,
}
use google_messages_multidev.Model.Request.{request_equal}
use google_messages_multidev.Platform.{Platform}
use google_messages_multidev.Prelude.Assoc.{Table}
use google_messages_multidev.Prelude.Core.{
  Bool, List, Option, [], false, none, not, some, suc, true, ℕ, ◌&&◌, ◌||◌, ◌∷◌,
}
use google_messages_multidev.Prelude.Tests.{if◌then◌else◌, ltb, ◌==◌}
use google_messages_multidev.Prelude.Text.{Text, is_empty, text_eq, txt}
use google_messages_multidev.Result.{
  Result, conflict, corrupt, err, invalid_state, is_not_found, not_found, ok, or_error,
}
use google_messages_multidev.Store.Db.{Db, Tx, done, encrypt, modify, pure, record_key, ◌>>◌}
use google_messages_multidev.Store.Epochs.{epoch}
use google_messages_multidev.Store.Events.{append_tx, plain_at}

unfoldable pub outbox_context : Text → Text
unfolding record_key
outbox_context id = record_key (txt "outbox") id

unfoldable pub outbox_event : (env : Platform) → Outbox → Event env.Bytes
outbox_event env o = record {
  id = 0;
  kind = txt "outbox";
  entity_id = o.id;
  time = 0;
  payload = env.json.outbox_codec.marshal o;
}

module _ {env : Platform} where
  open env use {Bytes, raw, octets, bolt, json}

  -- `readOutbox`, also `Outbox`.
  unfoldable pub read_outbox : Text → Db env → Result Outbox
  read_outbox id db = elim (plain_at env db.outbox id (outbox_context id)) [
    | err e ↦ err e
    | ok none ↦ err not_found
    | ok (some plain) ↦ or_error (json.outbox_codec.unmarshal plain) corrupt
  ]

  unfoldable pub put_outbox : Outbox → Db env → Db env
  put_outbox o db = record db {
    outbox =
        bolt.put db.outbox o.id
          (encrypt env db.draws (json.outbox_codec.marshal o) (outbox_context o.id));
    draws = suc db.draws;
  }

  -- `writeOutbox`.
  unfoldable pub write_outbox : Outbox → Tx env (Unit {0})
  write_outbox o db = done (append_tx (outbox_event env o) (put_outbox o db))

  unfoldable pub new_outbox : Text → Text → SendRequest → Db env → Outbox
  new_outbox id transaction_id req db = record {
    conversation_id = [];
    session_epoch = epoch db;
    schema = schema;
    id = id;
    request = req;
    transaction_id = transaction_id;
    state = queued;
    message_id = [];
    detail = [];
    created = db.now;
    updated = db.now;
  }

  unfoldable pub put_transaction : Text → Text → Db env → Db env
  put_transaction transaction_id id db = record db {
    outbox_txn = bolt.put db.outbox_txn transaction_id (raw id);
  }

  -- `Enqueue`: the record, and whether it is new.
  unfoldable pub enqueue : Text → Text → SendRequest → Tx env (Outbox × Bool)
  unfolding new_outbox put_transaction
  enqueue id transaction_id req db = elim (read_outbox id db) [
    | ok o ↦ if request_equal o.request req then ok ((o, false), db) else err conflict
    | err e ↦
        if is_not_found e
        then (do
          modify (put_transaction transaction_id id)
          write_outbox (new_outbox id transaction_id req db)
          pure (new_outbox id transaction_id req db, true))
            db
        else err e
  ]

  -- The records of the outbox, read one by one as the cursor meets their keys.
  unfoldable pub read_all : List Text → Db env → Result (List Outbox)
  read_all [] db = ok []
  read_all (k ∷ ks) db = elim (read_outbox k db) [
    | err e ↦ err e
    | ok o ↦ elim (read_all ks db) [ err e ↦ err e | ok os ↦ ok (o ∷ os) ]
  ]

-- `oldest == nil || o.Created.Before(oldest.Created)`, for queued records.
unfoldable pub older : Option Outbox → Outbox → Option Outbox
older none o = if is_queued o.state then some o else none
older (some oldest) o =
    if is_queued o.state && ltb o.created oldest.created then some o else some oldest

unfoldable pub oldest_queued : Option Outbox → List Outbox → Option Outbox
oldest_queued best [] = best
oldest_queued best (o ∷ os) = oldest_queued (older best o) os

abbrev pub keys : {A : Type 0} → Table A → List Text
keys [] = []
keys ((k, v) ∷ m) = k ∷ keys m

unfoldable pub with_state : Outbox → OutboxState → ℕ → Outbox
with_state o state now = record o { state = state; updated = now }

unfoldable pub with_detail : Outbox → OutboxState → Text → ℕ → Outbox
with_detail o state detail now = record o { state = state; detail = detail; updated = now }

abbrev pub stopped_detail : Text
stopped_detail = txt "Service stopped during send; inspect phone before sending again"

abbrev pub observed_detail : Text
observed_detail = txt "Observed in Google history; see message status for delivery"

abbrev pub pairing_detail : Text
pairing_detail = txt "Pairing changed; review the recipient and submit again"

-- The three results that `Finish` takes.
unfoldable pub is_result : OutboxState → Bool
is_result accepted = true
is_result rejected = true
is_result ambiguous = true
is_result _ = false

unfoldable pub is_message_kind : Text → Bool
is_message_kind kind = is_empty kind || text_eq kind (txt "message")

unfoldable pub confirmed_by : Outbox → Message → ℕ → Outbox
confirmed_by o m now = record o {
  state = confirmed;
  message_id = m.id;
  detail = observed_detail;
  updated = now;
}

module _ {env : Platform} where
  open env use {Bytes, raw, octets, bolt, json}

  unfoldable pub outbox_keys : Db env → List Text
  outbox_keys db = keys (bolt.entries db.outbox)

  unfoldable pub claim_oldest : Option Outbox → Tx env (Option Outbox)
  unfolding with_state
  claim_oldest none db = ok (none, db)
  claim_oldest (some o) db =
      (do write_outbox (with_state o sending db.now); pure (some (with_state o sending db.now))) db

  -- `Claim`.
  unfoldable pub claim : Tx env (Option Outbox)
  unfolding claim_oldest
  claim db = elim (read_all (outbox_keys db) db) [
    | err e ↦ err e
    | ok os ↦ claim_oldest (oldest_queued none os) db
  ]

  -- `Finish`.
  unfoldable pub finish : Text → OutboxState → Text → Tx env (Unit {0})
  unfolding with_detail is_result
  finish id state detail db =
      if is_result state
      then elim (read_outbox id db) [
        | err e ↦ err e
        | ok o ↦
            if is_sending o.state
            then write_outbox (with_detail o state detail db.now) db
            else ok (tt, db)
      ]
      else err invalid_state

  -- The walk of `RecoverSending`: the index of transactions is written again for every record.
  unfoldable pub index_transactions : List Outbox → Db env → Db env
  unfolding put_transaction
  index_transactions [] db = db
  index_transactions (o ∷ os) db = index_transactions os (put_transaction o.transaction_id o.id db)

  -- Its second loop, over the records that were being sent; also that of `cancelQueuedForPairing`.
  unfoldable pub write_all : List Outbox → Tx env (Unit {0})
  write_all [] db = ok (tt, db)
  write_all (o ∷ os) db = (do write_outbox o; write_all os) db

  -- `confirmSendTx`, in three parts.
  unfoldable pub confirms : Outbox → Message → Db env → Bool
  unfolding is_message_kind
  confirms o m db =
      (o.session_epoch == epoch db)
      && (is_message_kind o.request.kind
          && (text_eq o.request.conversation_id m.conversation_id
              && not (is_queued o.state || (is_canceled o.state || is_confirmed o.state))))

  unfoldable pub confirm_named_send : Text → Message → Tx env Bool
  unfolding confirms confirmed_by
  confirm_named_send id m db = elim (read_outbox id db) [
    | err e ↦ err e
    | ok o ↦
        if confirms o m db
        then (do write_outbox (confirmed_by o m db.now); pure true) db
        else ok (false, db)
  ]

  unfoldable pub confirm_send : Message → Tx env Bool
  confirm_send m db =
      if is_empty m.transaction_id || is_empty m.id
      then ok (false, db)
      else elim (bolt.get db.outbox_txn m.transaction_id) [
        | none ↦ ok (false, db)
        | some id ↦ confirm_named_send (octets id) m db
      ]

  -- `CancelQueued`.
  unfoldable pub cancel_queued : Text → Tx env Outbox
  unfolding with_state
  cancel_queued id db = elim (read_outbox id db) [
    | err e ↦ err e
    | ok o ↦
        if is_canceled o.state
        then ok (o, db)
        else if is_queued o.state
        then (do write_outbox (with_state o canceled db.now); pure (with_state o canceled db.now))
            db
        else err conflict
  ]

  -- `ClaimQueued`.
  unfoldable pub claim_queued : Text → Tx env Outbox
  unfolding with_state
  claim_queued id db = elim (read_outbox id db) [
    | err e ↦ err e
    | ok o ↦
        if is_queued o.state
        then (do write_outbox (with_state o sending db.now); pure (with_state o sending db.now)) db
        else err conflict
  ]

  -- `RejectQueued`.
  unfoldable pub reject_queued : Text → Text → Tx env (Unit {0})
  unfolding with_detail
  reject_queued id detail db = elim (read_outbox id db) [
    | err e ↦ err e
    | ok o ↦
        if is_queued o.state
        then write_outbox (with_detail o rejected detail db.now) db
        else err conflict
  ]

-- The records that were being sent, marked as of unknown outcome.
unfoldable pub interrupted : ℕ → List Outbox → List Outbox
unfolding with_detail
interrupted now [] = []
interrupted now (o ∷ os) =
    let rest = interrupted now os in
    if is_sending o.state then with_detail o ambiguous stopped_detail now ∷ rest else rest

-- The queued records, marked as canceled by a pairing.
unfoldable pub withdrawn : ℕ → List Outbox → List Outbox
unfolding with_detail
withdrawn now [] = []
withdrawn now (o ∷ os) =
    let rest = withdrawn now os in
    if is_queued o.state then with_detail o canceled pairing_detail now ∷ rest else rest

module _ {env : Platform} where
  -- `RecoverSending`.
  unfoldable pub recover_sending : Tx env (Unit {0})
  unfolding interrupted
  recover_sending db = elim (read_all (outbox_keys db) db) [
    | err e ↦ err e
    | ok os ↦ write_all (interrupted db.now os) (index_transactions os db)
  ]

  -- `cancelQueuedForPairing`.
  unfoldable pub cancel_queued_for_pairing : Tx env (Unit {0})
  unfolding withdrawn
  cancel_queued_for_pairing db = elim (read_all (outbox_keys db) db) [
    | err e ↦ err e
    | ok os ↦ write_all (withdrawn db.now os) db
  ]
