-- ===== src/Bridge/Pairing/Runs/Tidy.antt =====
-- A pairing that is over keeps no secret (internal/bridge/pairing.go): the operations on it.
use google_messages_multidev.Bridge.Pairing.{
  Desk, Outside, PairingState, Phase, cancel_and_clear, cancel_pairing, clear_attempt,
  close_pairing, commit_session, expire_pairing, fail_desk, finish_pairing, is_active, notify_desk,
  storage_failure,
}
use google_messages_multidev.Bridge.Pairing.Begin.{
  begin_login, begin_pairing, begin_whatsapp, begin_whatsapp_by, is_phone_number, login_pairing,
  next_attempt_number, open_pairing, pairing_status, request_reconnect, reused_pairing,
  saved_cookies, submit_cookies, whatsapp_pairing,
}
use google_messages_multidev.Bridge.Pairing.Recovery.{
  begin_reserved, cancel_by_user, configure_recovery, configured, halted, is_busy, is_due,
  pause_recovery, recover_pairing, recovery_eligible, reserved, update_on_desk,
}
use google_messages_multidev.Platform.{PairingRecovery, Platform}
use google_messages_multidev.Prelude.Assoc.{Table}
use google_messages_multidev.Prelude.Core.{
  Bool, Option, [], arith, false, inl, inr, none, not, refl, some, subst, true, ℕ, ◌&&◌, ◌||◌, ◌∷◌,
  ◌≡◌,
}
use google_messages_multidev.Prelude.Tests.{Bool-cases, if◌then◌else◌}
use google_messages_multidev.Prelude.Text.{Text, is_empty, txt}
use google_messages_multidev.Result.{Result-cases, ok}
use google_messages_multidev.Store.Pairing.{begin_pairing_attempt, pairing_recovery}

module _ {env : Platform} where
  -- No cookies, ticket, emoji or code outlive the pairing that they were for.
  pub record Tidy (d : Desk env) : Type 0 where
    pub no_cookies : is_active d.pairing.phase ≡ false → d.cookies ≡ none
    pub no_ticket : is_active d.pairing.phase ≡ false → d.pairing.ticket ≡ []
    pub no_emoji : is_active d.pairing.phase ≡ false → d.pairing.emoji ≡ []
    pub no_qr : is_active d.pairing.phase ≡ false → d.pairing.qr ≡ []
    pub no_code : is_active d.pairing.phase ≡ false → d.pairing.pairing_code ≡ []

  pub record SameSecrets (d d' : Desk env) : Type 0 where
    pub pairing : d'.pairing ≡ d.pairing
    pub cookies : d'.cookies ≡ d.cookies

  pub Tidy-same : (d d' : Desk env) → SameSecrets d d' → Tidy d → Tidy d'
  Tidy-same d d' s t = ground (arith, s.pairing, s.cookies)

  SameSecrets-storage_failure : (d : Desk env) → SameSecrets d (storage_failure d)
  unfolding storage_failure fail_desk notify_desk
  SameSecrets-storage_failure d = ground arith

  Tidy-expire_pairing : (d : Desk env) → Tidy d → Tidy (expire_pairing d)
  unfolding expire_pairing close_pairing clear_attempt
  Tidy-expire_pairing d t = ground arith

  pub Tidy-cancel_and_clear : (d : Desk env) → Tidy d → Tidy (cancel_and_clear d)
  unfolding cancel_and_clear cancel_pairing close_pairing clear_attempt
  Tidy-cancel_and_clear d t = ground arith

  pub Tidy-finish_pairing :
      (phase : Phase) (reason detail : Text) (g : ℕ) (d : Desk env)
      → Tidy d
      → Tidy (finish_pairing phase reason detail g d)
  unfolding finish_pairing close_pairing clear_attempt notify_desk
  Tidy-finish_pairing phase reason detail g d t = ground arith

  pub Tidy-commit_session :
      (over : Bool) (g : ℕ) (session : env.Bytes) (d : Desk env)
      → Tidy d
      → Tidy (commit_session over g session d).1
  unfolding commit_session close_pairing
  Tidy-commit_session over g session d t =
      let failed_desk = Tidy-same d (storage_failure d) (SameSecrets-storage_failure d) t in
      ground arith

  Tidy-open_pairing :
      (s : PairingState) (cookies : Option (Table Text)) (d : Desk env)
      → is_active s.phase ≡ true
      → Tidy d
      → Tidy (open_pairing s cookies d).1
  unfolding open_pairing request_reconnect notify_desk
  Tidy-open_pairing s cookies d a t =
      let failed_desk = Tidy-same d (storage_failure d) (SameSecrets-storage_failure d) t in
      elim (Result-cases (begin_pairing_attempt d.db.now s.expires d.db)) [
        | inl ((u, db'), e) ↦ ground arith
        | inr (x, e) ↦ ground arith
      ]

  Tidy-begin_login :
      (outside : Outside env) (reuse new_phone : Bool) (d : Desk env)
      → Tidy d
      → Tidy (begin_login outside reuse new_phone d).1
  unfolding begin_login login_pairing reused_pairing
  Tidy-begin_login outside reuse new_phone d t =
      elim (Result-cases (if reuse then saved_cookies outside d.db else ok [])) [
        | inr (x, e) ↦ subst Tidy (ground arith) t
        | inl (saved, e) ↦ elim (Result-cases (outside.new_ticket (next_attempt_number d))) [
          | inr (x, r) ↦ subst Tidy (ground arith) t
          | inl (ticket, r) ↦ elim (Bool-cases reuse) [
            | inl b ↦
                subst Tidy (ground arith)
                  (Tidy-open_pairing (reused_pairing new_phone d) (some saved) d refl t)
            | inr b ↦
                subst Tidy (ground arith)
                  (Tidy-open_pairing (login_pairing ticket new_phone d) d.cookies d refl t)
          ]
        ]
      ]

  pub Tidy-begin_pairing :
      (outside : Outside env) (reuse new_phone : Bool) (d : Desk env)
      → Tidy d
      → Tidy (begin_pairing outside reuse new_phone d).1
  unfolding begin_pairing
  Tidy-begin_pairing outside reuse new_phone d t =
      let m = Tidy-begin_login outside reuse new_phone d t in ground arith

  Tidy-begin_whatsapp :
      (phone : Text) (automatic : Bool) (d : Desk env)
      → Tidy d
      → Tidy (begin_whatsapp phone automatic d).1
  unfolding begin_whatsapp whatsapp_pairing
  Tidy-begin_whatsapp phone automatic d t =
      let m =
        Tidy-open_pairing (whatsapp_pairing automatic d) (some ((txt "phone", phone) ∷ [])) d refl
          t in
      ground arith

  pub Tidy-begin_whatsapp_by :
      (phone : Text) (d : Desk env) → Tidy d → Tidy (begin_whatsapp_by phone d).1
  unfolding begin_whatsapp_by
  Tidy-begin_whatsapp_by phone d t = let m = Tidy-begin_whatsapp phone false d t in ground arith

  pub Tidy-submit_cookies :
      (ticket : Text) (cookies : Table Text) (d : Desk env)
      → Tidy d
      → Tidy (submit_cookies ticket cookies d).1
  unfolding submit_cookies
  Tidy-submit_cookies ticket cookies d t = ground arith

  pub Tidy-pairing_status :
      (outside : Outside env) (d : Desk env) → Tidy d → Tidy (pairing_status outside d).1
  unfolding pairing_status
  Tidy-pairing_status outside d t =
      let now = expire_pairing d in
      let u = Tidy-expire_pairing d t in
      let v = Tidy-same now (storage_failure now) (SameSecrets-storage_failure now) u in
      ground arith

  SameSecrets-update_on_desk :
      (change : PairingRecovery → PairingRecovery) (d : Desk env)
      → SameSecrets d (update_on_desk change d).1
  unfolding update_on_desk
  SameSecrets-update_on_desk change d = let s = SameSecrets-storage_failure d in ground arith

  pub SameSecrets-pause_recovery : (d : Desk env) → SameSecrets d (pause_recovery d).1
  unfolding pause_recovery notify_desk
  SameSecrets-pause_recovery d = let s = SameSecrets-update_on_desk halted d in ground arith

  pub Tidy-cancel_by_user : (d : Desk env) → Tidy d → Tidy (cancel_by_user d)
  unfolding cancel_by_user
  Tidy-cancel_by_user d t =
      let p = Tidy-same d _ (SameSecrets-pause_recovery d) t in
      let q = Tidy-cancel_and_clear (pause_recovery d).1 p in ground arith

  Tidy-notified : (d : Desk env) → Tidy d → Tidy (record (notify_desk d) { reconnect_wake = true })
  unfolding notify_desk
  Tidy-notified d t =
      Tidy-same d (record (notify_desk d) { reconnect_wake = true })
        (record { pairing = refl; cookies = refl }) t

  Tidy-stopped :
      (stops_too : Bool) (d : Desk env)
      → Tidy d
      → Tidy (record (notify_desk (if stops_too then cancel_and_clear d else d)) {
        reconnect_wake = true;
      })
  Tidy-stopped true d t = Tidy-notified (cancel_and_clear d) (Tidy-cancel_and_clear d t)
  Tidy-stopped false d t = Tidy-notified d t

  pub Tidy-configure_recovery :
      (enabled : Bool) (phone : Text) (resume : Bool) (d : Desk env)
      → Tidy d
      → Tidy (configure_recovery enabled phone resume d).1
  unfolding configure_recovery
  Tidy-configure_recovery enabled phone resume d t =
      let changed = update_on_desk (configured enabled phone resume) d in
      let p =
        Tidy-same d changed.1 (SameSecrets-update_on_desk (configured enabled phone resume) d) t in
      elim (Bool-cases (not d.whatsapp || (enabled && not (is_phone_number phone)))) [
        | inl c ↦ subst Tidy (ground arith) t
        | inr c ↦ elim (Bool-cases (enabled && is_busy d)) [
          | inl b ↦ subst Tidy (ground arith) t
          | inr b ↦ elim (Result-cases changed.0) [
            | inr (x, e) ↦ subst Tidy (ground arith) p
            | inl (u, e) ↦
                subst Tidy (ground arith)
                  (Tidy-stopped (not enabled && changed.1.pairing.automatic) changed.1 p)
          ]
        ]
      ]

  Tidy-begin_reserved :
      (n : ℕ) (state : PairingRecovery) (d : Desk env) → Tidy d → Tidy (begin_reserved n state d).1
  unfolding begin_reserved
  Tidy-begin_reserved n state d t =
      elim (Bool-cases (not (is_due n state) || is_empty state.phone_number)) [
        | inl c ↦ subst Tidy (ground arith) t
        | inr c ↦
            let m = Tidy-begin_whatsapp state.phone_number true d t in
            elim (Result-cases (begin_whatsapp state.phone_number true d).0) [
              | inl (s, e) ↦ subst Tidy (ground arith) m
              | inr (x, e) ↦ subst Tidy (ground arith) m
            ]
      ]

  pub Tidy-recover_pairing : (d : Desk env) → Tidy d → Tidy (recover_pairing d).1
  unfolding recover_pairing
  Tidy-recover_pairing d t =
      elim (Bool-cases
        (not d.whatsapp || (not (not d.offline_only && recovery_eligible d.status) || is_busy d))) [
          | inl c ↦ subst Tidy (ground arith) t
          | inr c ↦ elim (Result-cases (pairing_recovery d.db)) [
            | inr (x, e) ↦
                subst Tidy (ground arith) (Tidy-same d _ (SameSecrets-storage_failure d) t)
            | inl (state, e) ↦
                let now = (update_on_desk (reserved d.db.now) d).1 in
                let p = Tidy-same d now (SameSecrets-update_on_desk (reserved d.db.now) d) t in
                subst Tidy (ground arith) (Tidy-begin_reserved d.db.now state now p)
          ]
        ]
