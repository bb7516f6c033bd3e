-- ===== src/Bridge/Pairing/Runs.antt =====
-- Everything that acts on a pairing (internal/bridge/pairing.go, pairing_recovery.go, whatsapp.go), in
-- any order: the requests of clients, the callbacks of an attempt, old attempts included, and time.
pub mod Moves
pub mod Fence
pub mod Tidy
pub mod Secrets
use Prim.Native.Char.{code}
use google_messages_multidev.Bridge.{Status}
use google_messages_multidev.Bridge.Pairing.{
  Desk, Outside, PairingState, cancel_and_clear, commit_session,
}
use google_messages_multidev.Bridge.Pairing.Attempt.{
  end_attempt, show_code, show_emoji, start_attempt,
}
use google_messages_multidev.Bridge.Pairing.Begin.{
  begin_any, begin_repairing, begin_whatsapp_by, pairing_status, submit_cookies,
}
use google_messages_multidev.Bridge.Pairing.Recovery.{
  cancel_by_user, configure_recovery, recover_pairing,
}
use google_messages_multidev.Platform.{Platform}
use google_messages_multidev.Prelude.Assoc.{Table}
use google_messages_multidev.Prelude.Core.{Bool, List, [], none, some, ℕ, ◌∷◌}
use google_messages_multidev.Prelude.Text.{Text}
use google_messages_multidev.Result.{Result}
use google_messages_multidev.Store.Db.{Db}

pub data DeskStep (env : Platform) : Type 0 where
  begins : Bool → DeskStep env
  repairs : Bool → DeskStep env
  links : Text → DeskStep env
  submits : Text → Table Text → DeskStep env
  cancels_pairing : DeskStep env
  stops : DeskStep env  -- the service's context ends
  asks_status : DeskStep env
  configures : Bool → Text → Bool → DeskStep env
  recovers_link : DeskStep env
  starts : ℕ → DeskStep env
  shows_emoji : ℕ → Text → DeskStep env
  shows_code : ℕ → Bool → Text → DeskStep env
  commits : Bool → ℕ → env.Bytes → DeskStep env
  returns : PairingState → Bool → Result (Unit {0}) → DeskStep env
  reports : Status → DeskStep env  -- the connection's status changes
  stores : Db env → DeskStep env  -- the store changes, and time passes

module _ {env : Platform} (outside : Outside env) where
  unfoldable pub desk_step : DeskStep env → Desk env → Desk env
  unfolding start_attempt
  desk_step (begins new_phone) d = (begin_any outside new_phone d).1
  desk_step (repairs new_phone) d = (begin_repairing outside new_phone d).1
  desk_step (links phone) d = (begin_whatsapp_by phone d).1
  desk_step (submits ticket cookies) d = (submit_cookies ticket cookies d).1
  desk_step cancels_pairing d = cancel_by_user d
  desk_step stops d = cancel_and_clear d
  desk_step asks_status d = (pairing_status outside d).1
  desk_step (configures enabled phone resume) d = (configure_recovery enabled phone resume d).1
  desk_step recovers_link d = (recover_pairing d).1
  desk_step (starts g) d = elim (start_attempt g d) [ none ↦ d | some r ↦ r.1 ]
  desk_step (shows_emoji g emoji) d = show_emoji g emoji d
  desk_step (shows_code g scans code) d = show_code g scans code d
  desk_step (commits ended g session) d = (commit_session ended g session d).1
  desk_step (returns s ended result) d = (end_attempt outside s ended result d).1
  desk_step (reports status) d = record d { status = status }
  desk_step (stores db) d = record d { db = db }

  unfoldable pub desk_run : List (DeskStep env) → Desk env → Desk env
  desk_run [] d = d
  desk_run (s ∷ ss) d = desk_run ss (desk_step s d)
