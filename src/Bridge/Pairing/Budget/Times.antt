-- ===== src/Bridge/Pairing/Budget/Times.antt =====
-- The pairings that a recovery starts, over a run (internal/bridge/pairing_recovery.go).
use google_messages_multidev.Bridge.Pairing.{Desk}
use google_messages_multidev.Bridge.Pairing.Budget.{
  BudgetStep, all_for, budget_step, configures_again, is_spaced, start_times, starts_of,
}
use google_messages_multidev.Bridge.Pairing.Budget.Spends.{Spends-budget_step}
use google_messages_multidev.Bridge.Pairing.Recovery.{recovery_attempts}
use google_messages_multidev.Platform.{PairingRecovery, Platform}
use google_messages_multidev.Prelude.Core.{
  List, [], arith, refl, subst, sym, true, ◌+◌, ◌∙◌, ◌∷◌, ◌≡◌, ◌≤◌,
}
use google_messages_multidev.Prelude.Lists.{length, length-append}
use google_messages_multidev.Prelude.Text.{Text, text_eq→eq}
use google_messages_multidev.Result.{ok}
use google_messages_multidev.Store.Pairing.{pairing_recovery}

module _ {env : Platform} where
  head_for :
      (phone given : Text) (s : BudgetStep env) (ss : List (BudgetStep env))
      → all_for phone (s ∷ ss) ≡ true
      → s ≡ configures_again given
      → given ≡ phone
  unfolding all_for
  head_for phone given (configures_again other_phone) ss a e =
      sym (ground arith) ∙ text_eq→eq other_phone phone (ground arith)
  head_for phone given _ ss a e = absurd (cc)

  tail_for :
      (phone : Text) (s : BudgetStep env) (ss : List (BudgetStep env))
      → all_for phone (s ∷ ss) ≡ true
      → all_for phone ss ≡ true
  unfolding all_for
  tail_for phone (configures_again other_phone) ss a = ground arith
  tail_for phone _ ss a = a

  -- With recovery switched on for a phone and at most three attempts used: over any run of polls,
  -- cancellations, repeated configurations for the same phone, restarts and changes of the store that
  -- leave its metadata alone, the pairings that the bridge starts by itself and the attempts already
  -- used are at most three, the first starts no earlier than the stored time, and each later one at
  -- least four minutes after the one before, however often the bridge asks and whatever fails.
  pub start_times-budget :
      (steps : List (BudgetStep env)) (r : PairingRecovery) (d : Desk env)
      → pairing_recovery d.db ≡ ok r
      → r.enabled ≡ true
      → r.attempts ≤ recovery_attempts
      → all_for r.phone_number steps ≡ true
      → (length (start_times steps d) + r.attempts ≤ recovery_attempts)
        × (is_spaced r.next_attempt (start_times steps d) ≡ true)
  unfolding start_times
  start_times-budget [] r d h on w a = (ground arith, unfold is_spaced in refl)
  start_times-budget (s ∷ ss) r d h on w a =
      let p = Spends-budget_step s r d h on w (λ given e. head_for r.phone_number given s ss a e) in
      let (few, apart) =
        start_times-budget ss p.left (budget_step s d) p.stored p.enabled p.within
          (subst (λ q. all_for q ss ≡ true) (sym p.phone) (tail_for r.phone_number s ss a)) in
      let more = start_times ss (budget_step s d) in
      (ground (arith, p.counted, few, length-append (starts_of s d) more), p.spaced more apart)
