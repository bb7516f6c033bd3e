-- ===== src/Bridge/Pairing.antt =====
-- The state of a pairing (internal/bridge/pairing.go) and what ends it: `PairingStatus`,
-- `cancelPairing`, `finishPairingReason` and `commitPairedSession`, with `storageFailure` and `fail`
-- of internal/bridge/bridge.go.
pub mod Begin
pub mod Recovery
pub mod Attempt
pub mod Runs
pub mod Budget
use google_messages_multidev.Bridge.{Status, set_status_reason}
use google_messages_multidev.Bridge.Hub.{Subscription, notify_all}
use google_messages_multidev.Event.{Event}
use google_messages_multidev.Platform.{PairingRecovery, Platform}
use google_messages_multidev.Prelude.Assoc.{Table}
use google_messages_multidev.Prelude.Core.{
  Bool, List, Option, [], false, none, not, some, true, ℕ, ◌&&◌, ◌||◌,
}
use google_messages_multidev.Prelude.Tests.{if◌then◌else◌, leb, ◌==◌}
use google_messages_multidev.Prelude.Text.{Text, is_empty, text_eq, txt}
use google_messages_multidev.Result.{Error, Result, canceled_call, err, ok, storage}
use google_messages_multidev.Store.Db.{Db}
use google_messages_multidev.Store.Epochs.{SessionSummary}
use google_messages_multidev.Store.Pairing.{clear_pairing_attempt, save_paired_session}

-- The strings that the field `State` takes.
pub data Phase : Type 0 where
  unpaired : Phase
  scan_qr : Phase
  enter_pairing_code : Phase
  waiting_for_login : Phase
  dialing : Phase  -- "connecting"
  confirm_on_phone : Phase
  pairing_failed : Phase  -- "failed"
  pairing_canceled : Phase  -- "canceled"
  now_paired : Phase  -- "paired"

-- `activePair`.
abbrev pub is_active : Phase → Bool
is_active scan_qr = true
is_active enter_pairing_code = true
is_active waiting_for_login = true
is_active dialing = true
is_active confirm_on_phone = true
is_active _ = false

abbrev pub is_waiting : Phase → Bool
is_waiting waiting_for_login = true
is_waiting _ = false

abbrev pub is_dialing : Phase → Bool
is_dialing dialing = true
is_dialing _ = false

abbrev pub is_paired : Phase → Bool
is_paired now_paired = true
is_paired _ = false

abbrev pub is_failure : Phase → Bool
is_failure pairing_failed = true
is_failure _ = false

pub record PairingState : Type 0 where
  pub automatic : Bool
  pub recovery : Option PairingRecovery
  pub qr : Text
  pub pairing_code : Text
  pub generation : ℕ
  pub new_phone : Bool
  pub phase : Phase
  pub reason : Text
  pub can_repair : Bool
  pub agent_enrolled : Bool
  pub required : Bool
  pub required_reason : Text
  pub ticket : Text
  pub emoji : Text
  pub detail : Text
  pub expires : ℕ
  pub summary : SessionSummary

-- What the code takes from outside: `json.Unmarshal` of a session's cookies, the random ticket of
-- each generation, and the text of an error.
pub record Outside (env : Platform) : Type 0 where
  pub session_cookies : env.Bytes → Option (Table Text)
  pub new_ticket : ℕ → Result Text
  pub error_text : Error → Text

-- The fields of `Bridge` that pairing reads and writes. `running` is `pairCancel` with `pairDone`:
-- none while no attempt runs, and otherwise whether the context of the attempt was canceled.
pub record Desk (env : Platform) : Type 0 where
  pub db : Db env
  pub hub : List (Subscription (Event env.Bytes))
  pub status : Status
  pub whatsapp : Bool
  pub offline_only : Bool
  pub pairing : PairingState
  pub cookies : Option (Table Text)
  pub running : Option Bool
  pub broken : Bool  -- `storageErr` is set
  pub fatal : Bool  -- an error waits in `fatal`
  pub pair_wake : Bool
  pub reconnect_wake : Bool
  pub connection_canceled : Bool

-- What every end of a pairing does to its state.
unfoldable pub close_pairing : Phase → Text → Text → PairingState → PairingState
close_pairing phase reason detail s = record s {
  phase = phase;
  reason = reason;
  detail = detail;
  ticket = [];
  emoji = [];
  qr = [];
  pairing_code = [];
}

unfoldable pub failed_status : Status → Bool
failed_status st =
    text_eq st.state (txt "authentication_required")
    || (text_eq st.state (txt "connection_failed") || text_eq st.state (txt "storage_failed"))

unfoldable pub finish_reason : Phase → Text → Text
finish_reason phase reason =
    if is_failure phase && is_empty reason then txt "pairing_failed" else reason

-- `cancel()` of the attempt's context.
unfoldable pub cancel_running : Option Bool → Option Bool
cancel_running none = none
cancel_running (some over) = some true

abbrev pub paired_detail : Text
paired_detail = txt "Phone paired; connecting and loading history"

abbrev pub expired_detail : Text
expired_detail = txt "Pairing expired; start again"

module _ {env : Platform} where
  open env use {Bytes}

  unfoldable pub notify_desk : Desk env → Desk env
  notify_desk d = record d { hub = notify_all d.hub }

  -- `fail`.
  unfoldable pub fail_desk : Desk env → Desk env
  unfolding failed_status set_status_reason
  fail_desk d =
      if failed_status d.status then record d { fatal = true } else record (notify_desk d) {
        status =
            set_status_reason d.db.now (txt "connection_failed") []
              (txt "Provider stopped; restart the service or pair again") d.status;
        fatal = true;
      }

  -- `storageFailure`.
  unfoldable pub storage_failure : Desk env → Desk env
  unfolding fail_desk notify_desk set_status_reason
  storage_failure d =
      record (fail_desk (record (notify_desk d) {
        broken = true;
        status =
            set_status_reason d.db.now (txt "storage_failed") []
              (txt "Database write failed; stop the service and inspect storage") d.status;
      })) { reconnect_wake = true; pair_wake = true }

  -- `clearPairingAttempt`.
  unfoldable pub clear_attempt : Desk env → Desk env
  unfolding clear_pairing_attempt
  clear_attempt d = record d { db = clear_pairing_attempt d.db }

  -- The first half of `PairingStatus`: an attempt whose time is over.
  unfoldable pub expire_pairing : Desk env → Desk env
  unfolding close_pairing clear_attempt cancel_running
  expire_pairing d =
      if is_active d.pairing.phase && leb d.pairing.expires d.db.now
      then elim d.running [
        | some over ↦ record d { running = some true }
        | none ↦ record (clear_attempt d) {
          pairing = close_pairing pairing_failed (txt "ticket_expired") expired_detail d.pairing;
          cookies = none;
        }
      ]
      else d

  -- `cancelPairing`: whether a pairing was canceled.
  unfoldable pub cancel_pairing : Desk env → Bool × Desk env
  unfolding close_pairing cancel_running
  cancel_pairing d =
      if is_active d.pairing.phase
      then (
        true,
        record d {
          pairing =
              close_pairing pairing_canceled (txt "canceled") (txt "Pairing canceled") d.pairing;
          cookies = none;
          running = cancel_running d.running;
          pair_wake = true;
        },
      )
      else (false, record d { pair_wake = true })

  -- `cancelPairing` and, where it canceled one, `clearPairingAttempt`.
  unfoldable pub cancel_and_clear : Desk env → Desk env
  unfolding cancel_pairing clear_attempt
  cancel_and_clear d =
      if (cancel_pairing d).0 then clear_attempt (cancel_pairing d).1 else (cancel_pairing d).1

  -- `finishPairingReason`.
  unfoldable pub finish_pairing : Phase → Text → Text → ℕ → Desk env → Desk env
  unfolding notify_desk close_pairing finish_reason clear_attempt
  finish_pairing phase reason detail generation d = notify_desk (
      if not (d.pairing.generation == generation) || not (is_active d.pairing.phase)
      then d
      else record (clear_attempt d) {
        pairing = close_pairing phase (finish_reason phase reason) detail d.pairing;
        cookies = none;
      })

  -- `commitPairedSession`; `ended` is whether the caller's context is over.
  unfoldable pub commit_session : Bool → ℕ → Bytes → Desk env → Result (Unit {0}) × Desk env
  unfolding close_pairing storage_failure
  commit_session ended generation session d =
      if ended
        || (not (generation == 0)
            && (not (d.pairing.generation == generation) || not (is_active d.pairing.phase)))
      then (err canceled_call, d)
      else elim (save_paired_session session (not (generation == 0) && d.pairing.new_phone) d.db) [
        | err e ↦ (err storage, storage_failure d)
        | ok (u, db') ↦ if generation == 0 then (ok tt, record d { db = db' }) else (
          ok tt,
          record d {
            db = db';
            pairing = close_pairing now_paired [] paired_detail d.pairing;
            cookies = none;
          },
        )
      ]
