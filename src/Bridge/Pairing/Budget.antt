-- ===== src/Bridge/Pairing/Budget.antt =====
-- Automatic recovery over time (internal/bridge/pairing_recovery.go): how often, and how close to each
-- other, it starts a pairing without being asked.
pub mod Spends
pub mod Times
use google_messages_multidev.Bridge.Pairing.{Desk, clear_attempt}
use google_messages_multidev.Bridge.Pairing.Begin.{whatsapp_lifetime}
use google_messages_multidev.Bridge.Pairing.Recovery.{
  cancel_by_user, configure_recovery, recover_pairing, recovery_cooldown,
}
use google_messages_multidev.Platform.{Platform}
use google_messages_multidev.Prelude.Core.{Bool, List, [], false, true, ℕ, ◌&&◌, ◌++◌, ◌+◌, ◌∷◌}
use google_messages_multidev.Prelude.Tests.{leb}
use google_messages_multidev.Prelude.Text.{Text, text_eq}
use google_messages_multidev.Result.{Result, ok}

pub data BudgetStep (env : Platform) : Type 0 where
  polls : BudgetStep env  -- `recoverPairing`
  pauses_recovery : BudgetStep env  -- `CancelPairing`
  configures_again : Text → BudgetStep env  -- `ConfigurePairingRecovery` with `enabled`, for a phone
  clears : BudgetStep env  -- `clearPairingAttempt`
  becomes : Desk env → BudgetStep env  -- anything else, a restart included, but for the store's metadata

abbrev pub recovery_gap : ℕ
recovery_gap = whatsapp_lifetime + recovery_cooldown

-- Times that start at one and keep the gap.
unfoldable pub is_spaced : ℕ → List ℕ → Bool
is_spaced start [] = true
is_spaced start (t ∷ ts) = leb start t && is_spaced (t + recovery_gap) ts

unfoldable pub started_at : ℕ → Result (Bool × ℕ) → List ℕ
started_at now (ok (true, delay)) = now ∷ []
started_at now _ = []

module _ {env : Platform} where
  unfoldable pub budget_step : BudgetStep env → Desk env → Desk env
  budget_step polls d = (recover_pairing d).1
  budget_step pauses_recovery d = cancel_by_user d
  budget_step (configures_again phone) d = (configure_recovery true phone false d).1
  budget_step clears d = clear_attempt d
  budget_step (becomes other_desk) d = record other_desk {
    db = record (other_desk.db) { meta = d.db.meta };
  }

  -- When a step starts a pairing by itself.
  unfoldable pub starts_of : BudgetStep env → Desk env → List ℕ
  unfolding started_at
  starts_of polls d = started_at d.db.now (recover_pairing d).0
  starts_of _ d = []

  unfoldable pub start_times : List (BudgetStep env) → Desk env → List ℕ
  unfolding budget_step starts_of
  start_times [] d = []
  start_times (s ∷ ss) d = starts_of s d ++ start_times ss (budget_step s d)

  -- Every configuration is for the phone.
  unfoldable pub all_for : Text → List (BudgetStep env) → Bool
  all_for phone [] = true
  all_for phone (configures_again other_phone ∷ ss) = text_eq other_phone phone && all_for phone ss
  all_for phone (s ∷ ss) = all_for phone ss
