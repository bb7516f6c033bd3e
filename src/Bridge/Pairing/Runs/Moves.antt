-- ===== src/Bridge/Pairing/Runs/Moves.antt =====
-- What one step does to a pairing (internal/bridge/pairing.go): it is the same generation, and has not
-- come back to life if it had ended; or a new generation begins.

-- The number of the generation is the same, and an ended pairing stands as it ended.
use Prim.Native.Char.{code}
use google_messages_multidev.Bridge.Pairing.{
  Desk, Outside, PairingState, Phase, cancel_and_clear, cancel_pairing, clear_attempt,
  close_pairing, commit_session, expire_pairing, fail_desk, finish_pairing, is_active, notify_desk,
  pairing_failed, storage_failure,
}
use google_messages_multidev.Bridge.Pairing.Attempt.{
  conclude, end_attempt, pause_after, report_attempt, show_code, show_emoji, start_attempt,
  was_canceled,
}
use google_messages_multidev.Bridge.Pairing.Begin.{
  begin_any, begin_login, begin_pairing, begin_repairing, begin_whatsapp, begin_whatsapp_by,
  login_pairing, next_attempt_number, open_pairing, pairing_status, request_reconnect,
  reused_pairing, saved_cookies, submit_cookies, whatsapp_pairing,
}
use google_messages_multidev.Bridge.Pairing.Recovery.{
  begin_reserved, cancel_by_user, configure_recovery, configured, halted, pause_recovery,
  recover_pairing, reserved, update_on_desk,
}
use google_messages_multidev.Bridge.Pairing.Runs.{
  DeskStep, asks_status, begins, cancels_pairing, commits, configures, desk_step, links,
  recovers_link, repairs, reports, returns, shows_code, shows_emoji, starts, stops, stores, submits,
}
use google_messages_multidev.Platform.{PairingRecovery, Platform}
use google_messages_multidev.Prelude.Assoc.{Table}
use google_messages_multidev.Prelude.Bytes.{uint64_bound}
use google_messages_multidev.Prelude.Core.{
  Bool, Option, [], arith, false, inl, inr, none, refl, some, subst, true, ℕ, ◌%◌, ◌+◌, ◌||◌, ◌∙◌,
  ◌∷◌, ◌≡◌, ◌⊎◌,
}
use google_messages_multidev.Prelude.Tests.{Bool-cases, if◌then◌else◌}
use google_messages_multidev.Prelude.Text.{Text, txt}
use google_messages_multidev.Result.{Result, Result-cases, err, is_storage, ok}
use google_messages_multidev.Store.Pairing.{begin_pairing_attempt, pairing_recovery}

pub record Stands (s s' : PairingState) : Type 0 where
  pub numbered : s'.generation ≡ s.generation
  pub ended : is_active s.phase ≡ false → s'.phase ≡ s.phase

pub Stands-refl : (s : PairingState) → Stands s s
Stands-refl s = record { numbered = refl; ended = λ h. refl }

pub Stands-trans : {a b c : PairingState} → Stands a b → Stands b c → Stands a c
Stands-trans p q = record {
  numbered = q.numbered ∙ p.numbered;
  ended = λ h. q.ended (rw (p.ended h) h) ∙ p.ended h;
}

-- Or a new generation was begun.
abbrev pub Moves : PairingState → PairingState → Type 0
Moves s s' = Stands s s' ⊎ (s'.generation ≡ (s.generation + 1) % uint64_bound)

module _ {env : Platform} where
  storage_failure-pairing : (d : Desk env) → (storage_failure d).pairing ≡ d.pairing
  unfolding storage_failure fail_desk notify_desk
  storage_failure-pairing d = ground arith

  Stands-expire_pairing : (d : Desk env) → Stands d.pairing (expire_pairing d).pairing
  unfolding expire_pairing close_pairing clear_attempt
  Stands-expire_pairing d = ground arith

  Stands-cancel_and_clear : (d : Desk env) → Stands d.pairing (cancel_and_clear d).pairing
  unfolding cancel_and_clear cancel_pairing close_pairing clear_attempt
  Stands-cancel_and_clear d = ground arith

  Stands-finish_pairing :
      (phase : Phase) (reason detail : Text) (g : ℕ) (d : Desk env)
      → Stands d.pairing (finish_pairing phase reason detail g d).pairing
  unfolding finish_pairing close_pairing clear_attempt notify_desk
  Stands-finish_pairing phase reason detail g d = ground arith

  Stands-commit_session :
      (over : Bool) (g : ℕ) (session : env.Bytes) (d : Desk env)
      → Stands d.pairing (commit_session over g session d).1.pairing
  unfolding commit_session close_pairing
  Stands-commit_session over g session d = ground (arith, storage_failure-pairing d)

  Moves-open_pairing :
      (s : PairingState) (cookies : Option (Table Text)) (d : Desk env)
      → s.generation ≡ (d.pairing.generation + 1) % uint64_bound
      → Moves d.pairing (open_pairing s cookies d).1.pairing
  unfolding open_pairing request_reconnect notify_desk
  Moves-open_pairing s cookies d h =
      elim (Result-cases (begin_pairing_attempt d.db.now s.expires d.db)) [
        | inl ((u, db'), e) ↦ inr (ground arith)
        | inr (x, e) ↦ inl (ground (arith, storage_failure-pairing d))
      ]

  Moves-begin_login :
      (outside : Outside env) (reuse new_phone : Bool) (d : Desk env)
      → Moves d.pairing (begin_login outside reuse new_phone d).1.pairing
  unfolding begin_login login_pairing reused_pairing next_attempt_number
  Moves-begin_login outside reuse new_phone d =
      elim (Result-cases (if reuse then saved_cookies outside d.db else ok [])) [
        | inr (x, e) ↦ inl (ground arith)
        | inl (saved, e) ↦ elim (Result-cases (outside.new_ticket (next_attempt_number d))) [
          | inr (x, r) ↦ inl (ground arith)
          | inl (ticket, r) ↦ elim (Bool-cases reuse) [
            | inl b ↦
                subst (Moves d.pairing) (ground arith)
                  (Moves-open_pairing (reused_pairing new_phone d) (some saved) d refl)
            | inr b ↦
                subst (Moves d.pairing) (ground arith)
                  (Moves-open_pairing (login_pairing ticket new_phone d) d.cookies d refl)
          ]
        ]
      ]

  Moves-begin_pairing :
      (outside : Outside env) (reuse new_phone : Bool) (d : Desk env)
      → Moves d.pairing (begin_pairing outside reuse new_phone d).1.pairing
  unfolding begin_pairing
  Moves-begin_pairing outside reuse new_phone d =
      let m = Moves-begin_login outside reuse new_phone d in ground (arith, Stands-refl d.pairing)

  Moves-begin_whatsapp :
      (phone : Text) (automatic : Bool) (d : Desk env)
      → Moves d.pairing (begin_whatsapp phone automatic d).1.pairing
  unfolding begin_whatsapp whatsapp_pairing next_attempt_number
  Moves-begin_whatsapp phone automatic d =
      let m =
        Moves-open_pairing (whatsapp_pairing automatic d) (some ((txt "phone", phone) ∷ [])) d
          refl in
      ground (arith, Stands-refl d.pairing)

  Moves-begin_whatsapp_by :
      (phone : Text) (d : Desk env) → Moves d.pairing (begin_whatsapp_by phone d).1.pairing
  unfolding begin_whatsapp_by
  Moves-begin_whatsapp_by phone d =
      let m = Moves-begin_whatsapp phone false d in ground (arith, Stands-refl d.pairing)

  Stands-submit_cookies :
      (ticket : Text) (cookies : Table Text) (d : Desk env)
      → Stands d.pairing (submit_cookies ticket cookies d).1.pairing
  unfolding submit_cookies
  Stands-submit_cookies ticket cookies d = ground arith

  Stands-pairing_status :
      (outside : Outside env) (d : Desk env) → Stands d.pairing (pairing_status outside d).1.pairing
  unfolding pairing_status
  Stands-pairing_status outside d =
      ground (arith, Stands-expire_pairing d, storage_failure-pairing (expire_pairing d))

  update_on_desk-pairing :
      (change : PairingRecovery → PairingRecovery) (d : Desk env)
      → (update_on_desk change d).1.pairing ≡ d.pairing
  unfolding update_on_desk
  update_on_desk-pairing change d = ground (arith, storage_failure-pairing d)

  pause_recovery-pairing : (d : Desk env) → (pause_recovery d).1.pairing ≡ d.pairing
  unfolding pause_recovery notify_desk
  pause_recovery-pairing d = ground (arith, update_on_desk-pairing halted d)

  Stands-cancel_by_user : (d : Desk env) → Stands d.pairing (cancel_by_user d).pairing
  unfolding cancel_by_user
  Stands-cancel_by_user d = ground (
    arith,
    pause_recovery-pairing d,
    Stands-cancel_and_clear (pause_recovery d).1,
    Stands-refl d.pairing,
  )

  Stands-configure_recovery :
      (enabled : Bool) (phone : Text) (resume : Bool) (d : Desk env)
      → Stands d.pairing (configure_recovery enabled phone resume d).1.pairing
  unfolding configure_recovery notify_desk
  Stands-configure_recovery enabled phone resume d =
      let changed = update_on_desk (configured enabled phone resume) d in
      ground (
        arith,
        update_on_desk-pairing (configured enabled phone resume) d,
        Stands-cancel_and_clear changed.1,
        Stands-refl d.pairing,
      )

  Moves-recover_pairing : (d : Desk env) → Moves d.pairing (recover_pairing d).1.pairing
  unfolding recover_pairing begin_reserved
  Moves-recover_pairing d = elim (Result-cases (pairing_recovery d.db)) [
    | inr (x, e) ↦ inl (ground (arith, storage_failure-pairing d))
    | inl (state, e) ↦
        let now = (update_on_desk (reserved d.db.now) d).1 in
        ground (
          arith,
          update_on_desk-pairing (reserved d.db.now) d,
          Stands-refl d.pairing,
          Moves-begin_whatsapp state.phone_number true now,
        )
  ]

  Stands-starts :
      (outside : Outside env) (g : ℕ) (d : Desk env)
      → Stands d.pairing (desk_step outside (starts g) d).pairing
  unfolding desk_step start_attempt
  Stands-starts outside g d = ground arith

  Stands-show_emoji :
      (g : ℕ) (emoji : Text) (d : Desk env) → Stands d.pairing (show_emoji g emoji d).pairing
  unfolding show_emoji
  Stands-show_emoji g emoji d = ground arith

  Stands-show_code :
      (g : ℕ) (scans : Bool) (code : Text) (d : Desk env)
      → Stands d.pairing (show_code g scans code d).pairing
  unfolding show_code notify_desk
  Stands-show_code g scans code d = ground arith

  pause_after-pairing :
      (s : PairingState) (r : Result (Unit {0})) (d : Desk env)
      → (pause_after s r d).1.pairing ≡ d.pairing
  unfolding pause_after
  pause_after-pairing s r d = ground (arith, pause_recovery-pairing d)

  Stands-report_attempt :
      (outside : Outside env) (s : PairingState) (over : Bool) (r : Result (Unit {0}))
      (d : Desk env)
      → Stands d.pairing (report_attempt outside s over r d).pairing
  unfolding report_attempt
  Stands-report_attempt outside s over r d = grind (arith, Stands-finish_pairing)

  Stands-conclude :
      (outside : Outside env) (s : PairingState) (over : Bool) (r : Result (Unit {0}))
      (d : Desk env)
      → Stands d.pairing (conclude outside s over r d).1.pairing
  unfolding conclude
  Stands-conclude outside s over (ok u) d = Stands-report_attempt outside s over (ok u) d
  Stands-conclude outside s over (err e) d =
      let detail = txt "Could not save pairing" in
      elim (Bool-cases (is_storage e)) [
        | inl c ↦
            subst (λ q. Stands d.pairing q) (ground arith)
              (Stands-finish_pairing pairing_failed [] detail s.generation d)
        | inr c ↦
            subst (λ q. Stands d.pairing q) (ground arith)
              (Stands-report_attempt outside s over (err e) d)
      ]

  Stands-end_attempt :
      (outside : Outside env) (s : PairingState) (over : Bool) (r : Result (Unit {0}))
      (d : Desk env)
      → Stands d.pairing (end_attempt outside s over r d).1.pairing
  unfolding end_attempt
  Stands-end_attempt outside s over r d =
      let settled = pause_after s r d in
      subst (λ p. Stands p (end_attempt outside s over r d).1.pairing) (pause_after-pairing s r d)
        (Stands-conclude outside s (over || was_canceled settled.1.running) settled.0
          (record (settled.1) { running = none }))

  pub Moves-desk_step :
      (outside : Outside env) (s : DeskStep env) (d : Desk env)
      → Moves d.pairing (desk_step outside s d).pairing
  unfolding desk_step begin_any begin_repairing
  Moves-desk_step outside (begins new_phone) d =
      ground (arith, Moves-begin_whatsapp_by [] d, Moves-begin_pairing outside false new_phone d)
  Moves-desk_step outside (repairs new_phone) d =
      ground (arith, Stands-refl d.pairing, Moves-begin_pairing outside true new_phone d)
  Moves-desk_step outside (links phone) d = Moves-begin_whatsapp_by phone d
  Moves-desk_step outside (submits ticket cookies) d = inl (Stands-submit_cookies ticket cookies d)
  Moves-desk_step outside cancels_pairing d = inl (Stands-cancel_by_user d)
  Moves-desk_step outside stops d = inl (Stands-cancel_and_clear d)
  Moves-desk_step outside asks_status d = inl (Stands-pairing_status outside d)
  Moves-desk_step outside (configures enabled phone resume) d =
      inl (Stands-configure_recovery enabled phone resume d)
  Moves-desk_step outside recovers_link d = Moves-recover_pairing d
  Moves-desk_step outside (starts g) d = inl (Stands-starts outside g d)
  Moves-desk_step outside (shows_emoji g emoji) d = inl (Stands-show_emoji g emoji d)
  Moves-desk_step outside (shows_code g scans code) d = inl (Stands-show_code g scans code d)
  Moves-desk_step outside (commits over g session) d = inl (Stands-commit_session over g session d)
  Moves-desk_step outside (returns s over r) d = inl (Stands-end_attempt outside s over r d)
  Moves-desk_step outside (reports status) d = inl (Stands-refl d.pairing)
  Moves-desk_step outside (stores db) d = inl (Stands-refl d.pairing)
