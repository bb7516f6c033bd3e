-- ===== src/Bridge/Pairing/Recovery.antt =====
-- The automatic recovery of a WhatsApp link (internal/bridge/pairing_recovery.go), and
-- `CancelPairing` of internal/bridge/pairing.go, which pauses it.
use google_messages_multidev.Bridge.{Status}
use google_messages_multidev.Bridge.Pairing.{
  Desk, cancel_and_clear, is_active, notify_desk, storage_failure,
}
use google_messages_multidev.Bridge.Pairing.Begin.{
  begin_whatsapp, is_phone_number, whatsapp_lifetime,
}
use google_messages_multidev.Platform.{PairingRecovery, Platform}
use google_messages_multidev.Prelude.Core.{Bool, [], false, not, true, ℕ, ◌&&◌, ◌+◌, ◌-◌, ◌||◌}
use google_messages_multidev.Prelude.Tests.{if◌then◌else◌, leb, ltb}
use google_messages_multidev.Prelude.Text.{Text, is_empty, text_eq, txt}
use google_messages_multidev.Result.{Result, err, in_pairing, invalid, ok, storage}
use google_messages_multidev.Store.Epochs.{is_some}
use google_messages_multidev.Store.Pairing.{default_recovery, pairing_recovery, update_recovery}

abbrev pub recovery_attempts : ℕ
recovery_attempts = 3

-- One minute, in nanoseconds.
abbrev pub recovery_cooldown : ℕ
recovery_cooldown = 60000000000

-- The callback of `ConfigurePairingRecovery`.
unfoldable pub configured : Bool → Text → Bool → PairingRecovery → PairingRecovery
unfolding default_recovery
configured enabled phone resume state =
    record (if enabled && (resume || (not state.enabled || not (text_eq phone state.phone_number)))
      then default_recovery
      else state) { enabled = enabled; phone_number = if enabled then phone else [] }

-- The callback of `recoverPairing`: whether an attempt is due, and its reservation.
unfoldable pub is_due : ℕ → PairingRecovery → Bool
is_due now state =
    state.enabled
    && (not state.paused && (ltb state.attempts recovery_attempts && leb state.next_attempt now))

unfoldable pub reserved : ℕ → PairingRecovery → PairingRecovery
unfolding is_due
reserved now state =
    if is_due now state
    then record state {
      attempts = state.attempts + 1;
      next_attempt = now + (whatsapp_lifetime + recovery_cooldown);
    }
    else state

-- How long until the next attempt, where only its time is missing.
unfoldable pub due_in : ℕ → PairingRecovery → ℕ
due_in now state =
    if state.enabled && (not state.paused && ltb state.attempts recovery_attempts)
    then state.next_attempt - now
    else 0

-- The callback of `pausePairingRecovery`.
unfoldable pub halted : PairingRecovery → PairingRecovery
halted state = if state.enabled then record state { paused = true } else state

-- `recoveryEligible`.
unfoldable pub recovery_eligible : Status → Bool
recovery_eligible st =
    text_eq st.state (txt "authentication_required")
    && (text_eq st.reason (txt "no_session") || text_eq st.reason (txt "session_expired"))

module _ {env : Platform} where
  unfoldable pub is_busy : Desk env → Bool
  is_busy d = is_active d.pairing.phase || is_some d.running

  -- `UpdatePairingRecovery` with `recoveryStorageError`.
  unfoldable pub update_on_desk :
      (PairingRecovery → PairingRecovery) → Desk env → Result (Unit {0}) × Desk env
  unfolding storage_failure
  update_on_desk change d = elim (update_recovery change d.db) [
    | err e ↦ (err storage, storage_failure d)
    | ok (u, db') ↦ (ok tt, record d { db = db' })
  ]

  -- `ConfigurePairingRecovery`.
  unfoldable pub configure_recovery : Bool → Text → Bool → Desk env → Result (Unit {0}) × Desk env
  unfolding is_phone_number is_busy update_on_desk cancel_and_clear configured notify_desk
  configure_recovery enabled phone resume d =
      if not d.whatsapp || (enabled && not (is_phone_number phone))
      then (err invalid, d)
      else if enabled && is_busy d
      then (err in_pairing, d)
      else let changed = update_on_desk (configured enabled phone resume) d in
        elim changed.0 [
          | err e ↦ (err e, changed.1)
          | ok u ↦
              let stopped =
                if not enabled && changed.1.pairing.automatic
                then cancel_and_clear changed.1
                else changed.1 in
              (ok tt, record (notify_desk stopped) { reconnect_wake = true })
        ]

  -- What `recoverPairing` does with the state that it read and reserved in: whether a pairing was
  -- started, and how long to wait.
  unfoldable pub begin_reserved : ℕ → PairingRecovery → Desk env → Result (Bool × ℕ) × Desk env
  unfolding is_due due_in begin_whatsapp
  begin_reserved now state d =
      if not (is_due now state) || is_empty state.phone_number
      then (ok (false, due_in now state), d)
      else let begun = begin_whatsapp state.phone_number true d in
        elim begun.0 [ err e ↦ (err e, begun.1) | ok s ↦ (ok (true, 0), begun.1) ]

  -- `recoverPairing`.
  unfoldable pub recover_pairing : Desk env → Result (Bool × ℕ) × Desk env
  unfolding is_busy recovery_eligible update_on_desk reserved begin_reserved
  recover_pairing d =
      if not d.whatsapp || (not (not d.offline_only && recovery_eligible d.status) || is_busy d)
      then (ok (false, 0), d)
      else elim (pairing_recovery d.db) [
        | err e ↦ (err storage, storage_failure d)
        | ok state ↦ begin_reserved d.db.now state (update_on_desk (reserved d.db.now) d).1
      ]

  -- `pausePairingRecovery`.
  unfoldable pub pause_recovery : Desk env → Result (Unit {0}) × Desk env
  unfolding update_on_desk halted notify_desk
  pause_recovery d =
      if not d.whatsapp
      then (ok tt, d)
      else let changed = update_on_desk halted d in
        elim changed.0 [ err e ↦ (err e, changed.1) | ok u ↦ (ok tt, notify_desk changed.1) ]

  -- `CancelPairing`, but for the status that it returns.
  unfoldable pub cancel_by_user : Desk env → Desk env
  unfolding pause_recovery cancel_and_clear
  cancel_by_user d =
      let paused_desk = pause_recovery d in
      elim paused_desk.0 [ err e ↦ paused_desk.1 | ok u ↦ cancel_and_clear paused_desk.1 ]
