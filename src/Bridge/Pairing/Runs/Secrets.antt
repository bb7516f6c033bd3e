-- ===== src/Bridge/Pairing/Runs/Secrets.antt =====
-- Over any run, a pairing that is over keeps no secret (internal/bridge/pairing.go).
use Prim.Native.Char.{code}
use google_messages_multidev.Bridge.Pairing.{
  Desk, Outside, PairingState, expired_detail, notify_desk, now_paired, paired_detail,
  pairing_failed,
}
use google_messages_multidev.Bridge.Pairing.Attempt.{
  conclude, end_attempt, failure_detail, pause_after, report_attempt, show_code, show_emoji,
  start_attempt, was_canceled,
}
use google_messages_multidev.Bridge.Pairing.Begin.{begin_any, begin_repairing}
use google_messages_multidev.Bridge.Pairing.Runs.{
  DeskStep, asks_status, begins, cancels_pairing, commits, configures, desk_run, desk_step, links,
  recovers_link, repairs, reports, returns, shows_code, shows_emoji, starts, stops, stores, submits,
}
use google_messages_multidev.Bridge.Pairing.Runs.Tidy.{
  SameSecrets, SameSecrets-pause_recovery, Tidy, Tidy-begin_pairing, Tidy-begin_whatsapp_by,
  Tidy-cancel_and_clear, Tidy-cancel_by_user, Tidy-commit_session, Tidy-configure_recovery,
  Tidy-finish_pairing, Tidy-pairing_status, Tidy-recover_pairing, Tidy-same, Tidy-submit_cookies,
}
use google_messages_multidev.Platform.{Platform}
use google_messages_multidev.Prelude.Core.{
  Bool, List, [], arith, false, inl, inr, none, refl, subst, true, ℕ, ◌||◌, ◌∷◌,
}
use google_messages_multidev.Prelude.Tests.{Bool-cases, leb}
use google_messages_multidev.Prelude.Text.{Text, txt}
use google_messages_multidev.Result.{Result, Result-cases, err, is_storage, ok}

module _ {env : Platform} where
  Tidy-starts :
      (outside : Outside env) (g : ℕ) (d : Desk env)
      → Tidy d
      → Tidy (desk_step outside (starts g) d)
  unfolding desk_step start_attempt
  Tidy-starts outside g d t = ground arith

  Tidy-show_emoji : (g : ℕ) (emoji : Text) (d : Desk env) → Tidy d → Tidy (show_emoji g emoji d)
  unfolding show_emoji
  Tidy-show_emoji g emoji d t = ground arith

  Tidy-show_code :
      (g : ℕ) (scans : Bool) (code : Text) (d : Desk env) → Tidy d → Tidy (show_code g scans code d)
  unfolding show_code notify_desk
  Tidy-show_code g scans code d t = ground arith

  Tidy-report_attempt :
      (outside : Outside env) (s : PairingState) (over : Bool) (r : Result (Unit {0}))
      (d : Desk env)
      → Tidy d
      → Tidy (report_attempt outside s over r d)
  unfolding report_attempt
  Tidy-report_attempt outside s over r d t = elim (Bool-cases (leb s.expires d.db.now)) [
    | inl c ↦
        subst Tidy (ground arith) (
          Tidy-finish_pairing pairing_failed (txt "ticket_expired") expired_detail s.generation d t)
    | inr c ↦ elim (Result-cases r) [
      | inr (x, e) ↦ subst Tidy (ground arith) (
          Tidy-finish_pairing pairing_failed (txt "provider_failure") (failure_detail outside x d)
            s.generation d t)
      | inl (u, e) ↦ elim (Bool-cases over) [
        | inl o ↦ subst Tidy (ground arith) (
            Tidy-finish_pairing pairing_failed [] (txt "Pairing was canceled before completion")
              s.generation d t)
        | inr o ↦
            subst Tidy (ground arith)
              (Tidy-finish_pairing now_paired [] paired_detail s.generation d t)
      ]
    ]
  ]

  Tidy-conclude :
      (outside : Outside env) (s : PairingState) (over : Bool) (r : Result (Unit {0}))
      (d : Desk env)
      → Tidy d
      → Tidy (conclude outside s over r d).1
  unfolding conclude
  Tidy-conclude outside s over (ok u) d t = Tidy-report_attempt outside s over (ok u) d t
  Tidy-conclude outside s over (err e) d t = elim (Bool-cases (is_storage e)) [
    | inl c ↦
        subst Tidy (ground arith)
          (Tidy-finish_pairing pairing_failed [] (txt "Could not save pairing") s.generation d t)
    | inr c ↦ subst Tidy (ground arith) (Tidy-report_attempt outside s over (err e) d t)
  ]

  SameSecrets-pause_after :
      (s : PairingState) (r : Result (Unit {0})) (d : Desk env)
      → SameSecrets d (pause_after s r d).1
  unfolding pause_after
  SameSecrets-pause_after s r d = let p = SameSecrets-pause_recovery d in ground arith

  Tidy-end_attempt :
      (outside : Outside env) (s : PairingState) (over : Bool) (r : Result (Unit {0}))
      (d : Desk env)
      → Tidy d
      → Tidy (end_attempt outside s over r d).1
  unfolding end_attempt
  Tidy-end_attempt outside s over r d t =
      let settled = pause_after s r d in
      let u = Tidy-same d settled.1 (SameSecrets-pause_after s r d) t in
      let idle = record (settled.1) { running = none } in
      let same_desk : SameSecrets settled.1 idle = record { pairing = refl; cookies = refl } in
      Tidy-conclude outside s (over || was_canceled settled.1.running) settled.0 idle
        (Tidy-same settled.1 idle same_desk u)

  Tidy-desk_step :
      (outside : Outside env) (s : DeskStep env) (d : Desk env)
      → Tidy d
      → Tidy (desk_step outside s d)
  unfolding desk_step begin_any begin_repairing
  Tidy-desk_step outside (begins new_phone) d t = elim (Bool-cases d.whatsapp) [
    | inl c ↦ subst Tidy (ground arith) (Tidy-begin_whatsapp_by [] d t)
    | inr c ↦ subst Tidy (ground arith) (Tidy-begin_pairing outside false new_phone d t)
  ]
  Tidy-desk_step outside (repairs new_phone) d t = elim (Bool-cases d.whatsapp) [
    | inl c ↦ subst Tidy (ground arith) t
    | inr c ↦ subst Tidy (ground arith) (Tidy-begin_pairing outside true new_phone d t)
  ]
  Tidy-desk_step outside (links phone) d t = Tidy-begin_whatsapp_by phone d t
  Tidy-desk_step outside (submits ticket cookies) d t = Tidy-submit_cookies ticket cookies d t
  Tidy-desk_step outside cancels_pairing d t = Tidy-cancel_by_user d t
  Tidy-desk_step outside stops d t = Tidy-cancel_and_clear d t
  Tidy-desk_step outside asks_status d t = Tidy-pairing_status outside d t
  Tidy-desk_step outside (configures enabled phone resume) d t =
      Tidy-configure_recovery enabled phone resume d t
  Tidy-desk_step outside recovers_link d t = Tidy-recover_pairing d t
  Tidy-desk_step outside (starts g) d t = Tidy-starts outside g d t
  Tidy-desk_step outside (shows_emoji g emoji) d t = Tidy-show_emoji g emoji d t
  Tidy-desk_step outside (shows_code g scans code) d t = Tidy-show_code g scans code d t
  Tidy-desk_step outside (commits over g session) d t = Tidy-commit_session over g session d t
  Tidy-desk_step outside (returns s over r) d t = Tidy-end_attempt outside s over r d t
  Tidy-desk_step outside (reports status) d t = ground arith
  Tidy-desk_step outside (stores db) d t = ground arith

  -- Whatever clients, callbacks and the store do: if no cookies, ticket, emoji or code stand in the
  -- bridge while no pairing is active, this stays so; a pairing that was canceled, failed, expired or
  -- was saved keeps none of them.
  pub desk_run-Tidy :
      (outside : Outside env) (steps : List (DeskStep env)) (d : Desk env)
      → Tidy d
      → Tidy (desk_run outside steps d)
  unfolding desk_run
  desk_run-Tidy outside [] d t = t
  desk_run-Tidy outside (s ∷ ss) d t =
      desk_run-Tidy outside ss (desk_step outside s d) (Tidy-desk_step outside s d t)
