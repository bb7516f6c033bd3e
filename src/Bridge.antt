-- ===== src/Bridge.antt =====
-- The bridge's view of its connection: `setStateLocked`, `recordConnectionEventLocked` and
-- `connection` of internal/bridge/service.go, with the fields of `Status` (internal/bridge/bridge.go)
-- that they write, and `trackOutage` of internal/bridge/outage.go.
pub mod Hub
pub mod Provider
pub mod Worker
pub mod Sender
pub mod Pairing
pub mod Requests
pub mod Queue
pub mod Push
pub mod Contacts
pub mod Delays
pub mod Imports
pub mod Sync
pub mod Outages
pub mod Reports
use google_messages_multidev.Prelude.Core.{
  Bool, List, Option, [], false, none, not, some, true, ℕ, ◌&&◌, ◌++◌, ◌+◌, ◌-◌, ◌||◌, ◌∷◌,
}
use google_messages_multidev.Prelude.Lists.{drop, length}
use google_messages_multidev.Prelude.Tests.{if◌then◌else◌, leb}
use google_messages_multidev.Prelude.Text.{Text, is_empty, text_eq, txt}

pub record Outage : Type 0 where
  pub since : ℕ
  pub announced : Bool

pub record ConnectionEvent : Type 0 where
  pub at : ℕ
  pub event : Text

pub record Status : Type 0 where
  pub state : Text
  pub reason : Text
  pub detail : Text
  pub updated : ℕ
  pub state_since : ℕ
  pub transport : Bool
  pub phone : Bool
  pub connection_events : List ConnectionEvent
  pub outage : Option Outage
  pub phone_cause : Text  -- of `Bridge`, under the same lock

-- Fifteen minutes and five minutes, in nanoseconds.
abbrev pub outage_notice_after : ℕ
outage_notice_after = 900000000000

abbrev pub outage_settle : ℕ
outage_settle = 300000000000

abbrev pub max_connection_events : ℕ
max_connection_events = 20

unfoldable pub outage_state : Text → Bool
outage_state state =
    text_eq state (txt "degraded")
    || (text_eq state (txt "connecting") || text_eq state (txt "connection_failed"))

-- `setStateLocked`, without its log line.
unfoldable pub set_state : ℕ → Text → Status → Status
set_state now state st =
    record (if text_eq state st.state then st else record st { state_since = now }) {
      state = state;
      updated = now;
    }

-- `recordConnectionEventLocked`.
unfoldable pub record_connection_event : ℕ → Text → Status → Status
record_connection_event now event st =
    let events = st.connection_events in
    let kept =
      if leb max_connection_events (length events)
      then drop (length events - max_connection_events + 1) events
      else events in
    record st { connection_events = kept ++ record { at = now; event = event } ∷ [] }

-- `degradedDetail`; a missing reason reads as the empty text.
unfoldable pub degraded_detail : Text → Text
degraded_detail reason =
    if text_eq reason (txt "transport_interrupted")
    then txt "The connection to Google dropped; reconnecting automatically."
    else if text_eq reason (txt "phone_not_responding")
    then txt "Your phone stopped answering the bridge's pings."
    else if text_eq reason (txt "phone_ping_failed")
    then txt "The bridge could not send pings to your phone."
    else if text_eq reason (txt "awaiting_phone")
    then txt "Waiting for your phone to answer."
    else []

unfoldable pub is_settled_state : Text → Bool
is_settled_state state =
    text_eq state (txt "storage_failed")
    || (text_eq state (txt "authentication_required") || text_eq state (txt "connection_failed"))

unfoldable pub cause_after : Bool → Text → Text → Text
cause_after phone phone_cause known =
    if phone then [] else if not (is_empty phone_cause) then phone_cause else known

unfoldable pub reason_of : Bool → Bool → Text → Text
reason_of transport phone cause =
    if not transport
    then txt "transport_interrupted"
    else if phone
    then []
    else if not (is_empty cause)
    then cause
    else txt "awaiting_phone"

-- `connection`, without its log line and the wake-up of the sender.
unfoldable pub connection : ℕ → Text → Bool → Bool → Text → Status → Status
unfolding is_settled_state cause_after reason_of degraded_detail set_state record_connection_event
connection now event transport phone phone_cause st =
    let noted = record_connection_event now event st in
    if is_settled_state st.state
    then noted
    else let cause = cause_after phone phone_cause noted.phone_cause in
      let reason = reason_of transport phone cause in
      set_state now (if transport && phone then txt "connected" else txt "degraded") (record noted {
        phone_cause = cause;
        transport = transport;
        phone = phone;
        reason = reason;
        detail = degraded_detail reason;
      })

-- What `trackOutage` returns: the outage that was just announced, or the one that just ended and
-- when the connection came up.
pub record Tracked : Type 0 where
  pub announces : Option Outage
  pub ends : Option Outage
  pub restored : ℕ

abbrev pub nothing : Tracked
nothing = record { announces = none; ends = none; restored = 0 }

-- The outage of a connection that is down: `b.status.Outage`, or a new one.
unfoldable pub current_outage : Status → Outage
current_outage st = elim st.outage [
  | none ↦ record { since = st.state_since; announced = false }
  | some o ↦ o
]

unfoldable pub track_down : ℕ → Outage → Tracked × Option Outage
track_down now o =
    if not o.announced && leb (o.since + outage_notice_after) now
    then (
      record nothing { announces = some (record o { announced = true }) },
      some (record o { announced = true }),
    )
    else (nothing, some o)

unfoldable pub track_up : ℕ → Outage → Status → Tracked × Option Outage
track_up now o st =
    if text_eq st.state (txt "connected") && leb (st.state_since + outage_settle) now
    then (record nothing { ends = some o; restored = st.state_since }, none)
    else (nothing, some o)

unfoldable pub tracked : ℕ → Status → Tracked × Option Outage
unfolding outage_state current_outage track_down track_up
tracked now st =
    if outage_state st.state
    then track_down now (current_outage st)
    else elim st.outage [ none ↦ (nothing, none) | some o ↦ track_up now o st ]

-- `trackOutage`.
unfoldable pub track_outage : ℕ → Status → Tracked × Status
unfolding tracked
track_outage now st = ((tracked now st).0, record st { outage = (tracked now st).1 })

-- `setStatusReason`, without its notification.
unfoldable pub set_status_reason : ℕ → Text → Text → Text → Status → Status
unfolding set_state
set_status_reason now state reason detail st =
    let stated = record (set_state now state st) { reason = reason; detail = detail } in
    if text_eq state (txt "connected") || text_eq state (txt "degraded")
    then stated
    else record stated { transport = false; phone = false }
