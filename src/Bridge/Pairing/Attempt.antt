-- ===== src/Bridge/Pairing/Attempt.antt =====
-- One attempt of a pairing: `processPairing` of internal/bridge/pairing.go before and after its call
-- of `Run`, what it learns meanwhile, and `whatsappCode` of internal/bridge/whatsapp.go.

-- The failures after which the recovery does not try again by itself.
use Prim.Native.Char.{code}
use google_messages_multidev.Bridge.Pairing.{
  Desk, Outside, PairingState, confirm_on_phone, enter_pairing_code, expired_detail, finish_pairing,
  is_active, is_dialing, notify_desk, now_paired, paired_detail, pairing_failed, scan_qr,
}
use google_messages_multidev.Bridge.Pairing.Recovery.{pause_recovery}
use google_messages_multidev.Platform.{Platform}
use google_messages_multidev.Prelude.Assoc.{Table}
use google_messages_multidev.Prelude.Core.{
  Bool, Option, [], false, none, not, some, ℕ, ◌&&◌, ◌++◌, ◌||◌, ◌∷◌,
}
use google_messages_multidev.Prelude.Tests.{if◌then◌else◌, leb, ◌==◌}
use google_messages_multidev.Prelude.Text.{Text, text_eq, txt}
use google_messages_multidev.Result.{Error, Result, err, is_storage, ok}

unfoldable pub stops_recovery : Text → Bool
stops_recovery reason =
    text_eq reason (txt "account_banned")
    || (text_eq reason (txt "temporary_ban")
        || (text_eq reason (txt "stream_replaced")
            || (text_eq reason (txt "client_outdated") || text_eq reason (txt "invalid_session"))))

-- The arrow between the items of a menu, in UTF-8.
abbrev arrow : Text
arrow = 226 ∷ 134 ∷ 146 ∷ []

abbrev scan_detail : Text
scan_detail = txt "Scan with WhatsApp " ++ arrow ++ txt " Linked devices"

abbrev enter_detail : Text
enter_detail =
    txt "Enter this code in WhatsApp "
    ++ arrow
    ++ txt " Linked devices "
    ++ arrow
    ++ txt " Link with phone number"

unfoldable pub was_canceled : Option Bool → Bool
was_canceled none = false
was_canceled (some over) = over

module _ {env : Platform} where
  -- The attempt is due: its cookies are handed over.
  unfoldable pub start_attempt : ℕ → Desk env → Option (Option (Table Text) × Desk env)
  start_attempt g d =
      if not (d.pairing.generation == g) || not (is_dialing d.pairing.phase)
      then none
      else some (d.cookies, record d { cookies = none; running = some false })

  -- The callback that shows the emoji of a Google pairing.
  unfoldable pub show_emoji : ℕ → Text → Desk env → Desk env
  show_emoji g emoji d =
      if (d.pairing.generation == g) && is_dialing d.pairing.phase
      then record d {
        pairing = record (d.pairing) {
          phase = confirm_on_phone;
          emoji = emoji;
          detail = txt "Choose this emoji in Google Messages on your phone";
        };
      }
      else d

  -- `whatsappCode`, for a code to scan or one to type.
  unfoldable pub show_code : ℕ → Bool → Text → Desk env → Desk env
  unfolding notify_desk
  show_code g scans code d = notify_desk (
      if not (d.pairing.generation == g) || not (is_active d.pairing.phase)
      then d
      else if scans
      then record d {
        pairing = record (d.pairing) {
          qr = code;
          pairing_code = [];
          phase = scan_qr;
          detail = scan_detail;
        };
      }
      else record d {
        pairing = record (d.pairing) {
          qr = [];
          pairing_code = code;
          phase = enter_pairing_code;
          detail = enter_detail;
        };
      })

  -- The pause after a failure that is no use to repeat; its own error replaces that of the attempt.
  unfoldable pub pause_after :
      PairingState → Result (Unit {0}) → Desk env → Result (Unit {0}) × Desk env
  unfolding stops_recovery pause_recovery
  pause_after s result d =
      if s.automatic && stops_recovery d.status.reason
      then elim (pause_recovery d).0 [
        | ok u ↦ (result, (pause_recovery d).1)
        | err e ↦ (err e, (pause_recovery d).1)
      ]
      else (result, d)

  unfoldable pub failure_detail : Outside env → Error → Desk env → Text
  failure_detail outside e d =
      if d.whatsapp
      then txt "Pairing failed; start again"
      else txt "Google pairing failed: " ++ outside.error_text e

  unfoldable pub report_attempt :
      Outside env → PairingState → Bool → Result (Unit {0}) → Desk env → Desk env
  unfolding failure_detail finish_pairing
  report_attempt outside s over result d =
      if leb s.expires d.db.now
      then finish_pairing pairing_failed (txt "ticket_expired") expired_detail s.generation d
      else elim result [
        | err e ↦
            finish_pairing pairing_failed (txt "provider_failure") (failure_detail outside e d)
              s.generation d
        | ok u ↦
            if over
            then finish_pairing pairing_failed [] (txt "Pairing was canceled before completion")
                s.generation d
            else finish_pairing now_paired [] paired_detail s.generation d
      ]

  -- What is reported, by the outcome; an error of the store ends the service.
  unfoldable pub conclude :
      Outside env
      → PairingState
      → Bool
      → Result (Unit {0})
      → Desk env
      → Result (Unit {0}) × Desk env
  unfolding report_attempt finish_pairing
  conclude outside s over (ok u) d = (ok tt, report_attempt outside s over (ok u) d)
  conclude outside s over (err e) d =
      if is_storage e
      then (err e, finish_pairing pairing_failed [] (txt "Could not save pairing") s.generation d)
      else (ok tt, report_attempt outside s over (err e) d)

  -- The attempt has returned; `ended` is whether the service stops.
  unfoldable pub end_attempt :
      Outside env
      → PairingState
      → Bool
      → Result (Unit {0})
      → Desk env
      → Result (Unit {0}) × Desk env
  unfolding pause_after was_canceled conclude
  end_attempt outside s ended result d =
      let settled = pause_after s result d in
      conclude outside s (ended || was_canceled settled.1.running) settled.0
        (record (settled.1) { running = none })
