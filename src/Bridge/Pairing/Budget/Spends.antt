-- ===== src/Bridge/Pairing/Budget/Spends.antt =====
-- What each step of a recovery spends (internal/bridge/pairing_recovery.go).
use google_messages_multidev.Bridge.Hub.{at}
use google_messages_multidev.Bridge.Pairing.{
  Desk, cancel_and_clear, cancel_pairing, clear_attempt, fail_desk, notify_desk, storage_failure,
}
use google_messages_multidev.Bridge.Pairing.Begin.{
  begin_whatsapp, open_pairing, request_reconnect, whatsapp_pairing,
}
use google_messages_multidev.Bridge.Pairing.Budget.{
  BudgetStep, becomes, budget_step, clears, configures_again, is_spaced, pauses_recovery, polls,
  started_at, starts_of,
}
use google_messages_multidev.Bridge.Pairing.Recovery.{
  begin_reserved, cancel_by_user, configure_recovery, configured, due_in, halted, is_busy, is_due,
  pause_recovery, recover_pairing, recovery_attempts, recovery_eligible, reserved, update_on_desk,
}
use google_messages_multidev.Platform.{PairingRecovery, Platform}
use google_messages_multidev.Prelude.Core.{
  Bool, List, [], ap, arith, false, inl, inr, not, refl, subst, sym, true, ℕ, ◌&&◌, ◌++◌, ◌+◌, ◌||◌,
  ◌∙◌, ◌∷◌, ◌≡◌, ◌≤◌, ◌⊎◌,
}
use google_messages_multidev.Prelude.Lists.{length}
use google_messages_multidev.Prelude.Tests.{Bool-cases, if◌then◌else◌}
use google_messages_multidev.Prelude.Text.{Text, is_empty, text_eq_refl}
use google_messages_multidev.Result.{Result, Result-cases, err, ok}
use google_messages_multidev.Store.Pairing.{
  begin_pairing_attempt, pairing_recovery, update_recovery,
}
use google_messages_multidev.Store.Pairing.Budget.{
  recovery-begin_pairing_attempt, recovery-clear_pairing_attempt, recovery-same,
  update_recovery-reads, update_recovery-succeeds,
}

is_spaced-earlier : (a b : ℕ) (ts : List ℕ) → a ≤ b → is_spaced b ts ≡ true → is_spaced a ts ≡ true
unfolding is_spaced
is_spaced-earlier a b [] h s = refl
is_spaced-earlier a b (t ∷ ts) h s = ground arith

module _ {env : Platform} where
  -- What a step that started pairings at these times leaves of a recovery.
  pub record Spends (ts : List ℕ) (r : PairingRecovery) (d : Desk env) : Type 0 where
    pub left : PairingRecovery
    pub stored : pairing_recovery d.db ≡ ok left
    pub enabled : left.enabled ≡ true
    pub phone : left.phone_number ≡ r.phone_number
    pub counted : length ts + r.attempts ≤ left.attempts
    pub within : left.attempts ≤ recovery_attempts
    pub spaced :
        (more : List ℕ)
        → is_spaced left.next_attempt more ≡ true
        → is_spaced r.next_attempt (ts ++ more) ≡ true

  keeps :
      (r : PairingRecovery) (d : Desk env)
      → r.enabled ≡ true
      → r.attempts ≤ recovery_attempts
      → pairing_recovery d.db ≡ ok r
      → Spends [] r d
  keeps r d on w e = record {
    left = r;
    stored = e;
    enabled = on;
    phone = refl;
    counted = omega arith;
    within = w;
    spaced = λ more s. s;
  }

  storage_failure-db : (d : Desk env) → (storage_failure d).db ≡ d.db
  unfolding storage_failure fail_desk notify_desk
  storage_failure-db d = ground arith

  recovery-begin_whatsapp :
      (phone : Text) (automatic : Bool) (d : Desk env)
      → pairing_recovery (begin_whatsapp phone automatic d).1.db ≡ pairing_recovery d.db
  unfolding begin_whatsapp open_pairing request_reconnect notify_desk
  recovery-begin_whatsapp phone automatic d =
      let s = whatsapp_pairing automatic d in
      elim (Result-cases (begin_pairing_attempt d.db.now s.expires d.db)) [
        | inl ((u, db'), e) ↦
            ground (arith, recovery-begin_pairing_attempt d.db.now s.expires d.db db' e)
        | inr (x, e) ↦ ground (arith, storage_failure-db d)
      ]

  recovery-update_on_desk :
      (change : PairingRecovery → PairingRecovery) (r : PairingRecovery) (d : Desk env)
      → pairing_recovery d.db ≡ ok r
      → pairing_recovery (update_on_desk change d).1.db ≡ ok (change r)
  unfolding update_on_desk
  recovery-update_on_desk change r d h = elim (Result-cases (update_recovery change d.db)) [
    | inl ((u, db'), e) ↦ ground (arith, update_recovery-reads change d.db db' r h e)
    | inr (x, e) ↦ absurd (ground (arith, update_recovery-succeeds change d.db r h))
  ]

  recovery-cancel_and_clear :
      (d : Desk env) → pairing_recovery (cancel_and_clear d).db ≡ pairing_recovery d.db
  unfolding cancel_and_clear cancel_pairing clear_attempt
  recovery-cancel_and_clear d = ground (arith, recovery-clear_pairing_attempt d.db)

  -- A reservation, whether or not a pairing is started with it.
  reserves :
      (ts : List ℕ) (r : PairingRecovery) (n : ℕ) (d' : Desk env)
      → is_due n r ≡ true
      → pairing_recovery d'.db ≡ ok (reserved n r)
      → (ts ≡ []) ⊎ (ts ≡ n ∷ [])
      → Spends ts r d'
  unfolding is_due reserved
  reserves ts r n d' due h at = record {
    left = reserved n r;
    stored = h;
    enabled = ground arith;
    phone = ground arith;
    counted = ground arith;
    within = ground arith;
    spaced = λ more s. elim at [
      | inl none_at ↦
          let rest =
            is_spaced-earlier r.next_attempt (reserved n r).next_attempt more (ground arith) s in
          ground arith
      | inr one_at ↦ unfold is_spaced in ground arith
    ];
  }

  Spends-begin_reserved :
      (n : ℕ) (r : PairingRecovery) (d : Desk env)
      → r.enabled ≡ true
      → r.attempts ≤ recovery_attempts
      → pairing_recovery d.db ≡ ok (reserved n r)
      → Spends (started_at n (begin_reserved n r d).0) r (begin_reserved n r d).1
  unfolding begin_reserved started_at
  Spends-begin_reserved n r d on w h =
      let Done : Result (Bool × ℕ) × Desk env → Type 0 = λ q. Spends (started_at n q.0) r q.1 in
      elim (Bool-cases (is_due n r)) [
        | inr c ↦
            let same_state : reserved n r ≡ r = unfold reserved in ground arith in
            subst Done {x = (ok (false, due_in n r), d)} (ground arith)
              (keeps r d on w (h ∙ ap ok same_state))
        | inl c ↦ elim (Bool-cases (is_empty r.phone_number)) [
          | inl none_set ↦
              subst Done {x = (ok (false, due_in n r), d)} (ground arith)
                (reserves [] r n d c h (inl refl))
          | inr set ↦
              let begun = begin_whatsapp r.phone_number true d in
              let kept = recovery-begin_whatsapp r.phone_number true d ∙ h in
              elim (Result-cases begun.0) [
                | inl (s, e) ↦
                    subst Done {x = (ok (true, 0), begun.1)} (ground arith)
                      (reserves (n ∷ []) r n begun.1 c kept (inr refl))
                | inr (x, e) ↦
                    subst Done {x = (err x, begun.1)} (ground arith)
                      (reserves [] r n begun.1 c kept (inl refl))
              ]
        ]
      ]

  Spends-recover_pairing :
      (r : PairingRecovery) (d : Desk env)
      → pairing_recovery d.db ≡ ok r
      → r.enabled ≡ true
      → r.attempts ≤ recovery_attempts
      → Spends (started_at d.db.now (recover_pairing d).0) r (recover_pairing d).1
  unfolding recover_pairing started_at
  Spends-recover_pairing r d h on w =
      let Done : Result (Bool × ℕ) × Desk env → Type 0 =
        λ q. Spends (started_at d.db.now q.0) r q.1 in
      elim (Bool-cases
        (not d.whatsapp || (not (not d.offline_only && recovery_eligible d.status) || is_busy d))) [
          | inl c ↦ subst Done {x = (ok (false, 0), d)} (ground arith) (keeps r d on w h)
          | inr c ↦
              let change = reserved d.db.now in
              let now = (update_on_desk change d).1 in
              subst Done {x = begin_reserved d.db.now r now} (ground arith)
                (Spends-begin_reserved d.db.now r now on w (recovery-update_on_desk change r d h))
        ]

  recovery-pause_recovery :
      (r : PairingRecovery) (d : Desk env)
      → pairing_recovery d.db ≡ ok r
      → pairing_recovery (pause_recovery d).1.db ≡ ok (if d.whatsapp then halted r else r)
  unfolding pause_recovery notify_desk
  recovery-pause_recovery r d h = ground (arith, recovery-update_on_desk halted r d h)

  Spends-halted :
      (r : PairingRecovery) (d : Desk env) (whatsapp : Bool)
      → r.enabled ≡ true
      → r.attempts ≤ recovery_attempts
      → pairing_recovery d.db ≡ ok (if whatsapp then halted r else r)
      → Spends [] r d
  unfolding halted
  Spends-halted r d whatsapp on w h = record {
    left = if whatsapp then halted r else r;
    stored = h;
    enabled = ground arith;
    phone = ground arith;
    counted = ground arith;
    within = ground arith;
    spaced = λ more s. ground arith;
  }

  Spends-cancel_by_user :
      (r : PairingRecovery) (d : Desk env)
      → pairing_recovery d.db ≡ ok r
      → r.enabled ≡ true
      → r.attempts ≤ recovery_attempts
      → Spends [] r (cancel_by_user d)
  unfolding cancel_by_user
  Spends-cancel_by_user r d h on w =
      let p = recovery-pause_recovery r d h in
      Spends-halted r (cancel_by_user d) d.whatsapp on w
        (ground (arith, p, recovery-cancel_and_clear (pause_recovery d).1))

  Spends-configure_again :
      (phone : Text) (r : PairingRecovery) (d : Desk env)
      → pairing_recovery d.db ≡ ok r
      → r.enabled ≡ true
      → r.attempts ≤ recovery_attempts
      → r.phone_number ≡ phone
      → Spends [] r (configure_recovery true phone false d).1
  unfolding configure_recovery notify_desk
  Spends-configure_again phone r d h on w e =
      let same_state : configured true phone false r ≡ r =
        unfold configured in ground (arith, text_eq_refl phone) in
      let u = recovery-update_on_desk (configured true phone false) r d h in
      keeps r _ on w (ground arith)

  pub Spends-budget_step :
      (s : BudgetStep env) (r : PairingRecovery) (d : Desk env)
      → pairing_recovery d.db ≡ ok r
      → r.enabled ≡ true
      → r.attempts ≤ recovery_attempts
      → ((phone : Text) → s ≡ configures_again phone → phone ≡ r.phone_number)
      → Spends (starts_of s d) r (budget_step s d)
  unfolding starts_of budget_step
  Spends-budget_step polls r d h on w e = Spends-recover_pairing r d h on w
  Spends-budget_step pauses_recovery r d h on w e = Spends-cancel_by_user r d h on w
  Spends-budget_step (configures_again phone) r d h on w e =
      Spends-configure_again phone r d h on w (sym (e phone refl))
  Spends-budget_step clears r d h on w e =
      keeps r _ on w (unfold clear_attempt in recovery-clear_pairing_attempt d.db ∙ h)
  Spends-budget_step (becomes other_desk) r d h on w e =
      keeps r _ on w (recovery-same d.db (record (other_desk.db) { meta = d.db.meta }) refl ∙ h)
