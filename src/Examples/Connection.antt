-- ===== src/Examples/Connection.antt =====
-- An outage at concrete inputs: the connection drops, is looked at, recovers, and is looked at again.
use google_messages_multidev.Bridge.{
  Status, cause_after, connection, current_outage, degraded_detail, is_settled_state,
  max_connection_events, outage_state, reason_of, record_connection_event, set_state, track_down,
  track_outage, track_up, tracked, ConnectionEvent,
}
use google_messages_multidev.Bridge.Outages.{
  Step, after, announced_at_most_once, announcements, connects, endings, follow, sets, ticks,
}
use google_messages_multidev.Bridge.Reports.{
  connection-reason, last_of, note_events, note_events-keeps_last,
}
use google_messages_multidev.Prelude.Core.{
  List, [], false, none, refl, some, true, ◌+◌, ◌∷◌, ◌≡◌, ◌≤◌, ◌++◌, arith,
}
use google_messages_multidev.Prelude.Lists.{length}
use google_messages_multidev.Prelude.Text.{is_empty, text_eq, txt}

abbrev pub started : Status
started = record {
  state = txt "connected";
  reason = [];
  detail = [];
  updated = 0;
  state_since = 0;
  transport = true;
  phone = true;
  connection_events = [];
  outage = none;
  phone_cause = [];
}

abbrev drop_and_recover : List Step
drop_and_recover =
    connects 1000 (txt "transport_lost") false true []
    ∷ ticks 2000
    ∷ ticks 900000002000
    ∷ ticks 900000003000
    ∷ connects 900000004000 (txt "phone_responding") true true []
    ∷ ticks 900000005000
    ∷ ticks 1200000005000
    ∷ []

unfoldable outages : Unit {0}
unfolding announcements endings follow after connection record_connection_event is_settled_state
    cause_after reason_of degraded_detail set_state track_outage tracked current_outage track_down
    track_up outage_state text_eq
outages = tt

-- One announcement, and one end.
drop_and_recover-counts :
    (announcements drop_and_recover started ≡ 1) × (endings drop_and_recover started ≡ 1)
unfolding outages
drop_and_recover-counts = (refl, refl)

announced_at_most_once_example :
    announcements drop_and_recover started + 0 ≤ endings drop_and_recover started + 1
announced_at_most_once_example = announced_at_most_once drop_and_recover started

abbrev down : Status
down = record started {
  state = txt "degraded";
  outage = some (record { since = 7; announced = false });
}

abbrev brief_recovery : List Step
brief_recovery =
    connects 5000 (txt "phone_responding") true true []
    ∷ ticks 6000
    ∷ sets 7000 (txt "connecting")
    ∷ ticks 8000
    ∷ []

abbrev pings : List ConnectionEvent
pings = record { at = 5; event = txt "ping" } ∷ record { at = 6; event = txt "ping" } ∷ []

note_events-keeps_last_example :
    ((note_events pings started).connection_events
      ≡ last_of max_connection_events (started.connection_events ++ pings))
    × (length (note_events pings started).connection_events ≤ max_connection_events)
note_events-keeps_last_example = note_events-keeps_last pings started (omega arith)

started-unsettled : is_settled_state started.state ≡ false
unfolding is_settled_state text_eq
started-unsettled = refl

connection-reason_example :
    (text_eq
        (connection 5 (txt "ping_failed") true false (txt "phone_ping_failed") started).state
        (txt "connected")
      ≡ false)
    × (is_empty
          (connection 5 (txt "ping_failed") true false (txt "phone_ping_failed") started).reason
        ≡ false)
connection-reason_example =
    connection-reason 5 (txt "ping_failed") true false (txt "phone_ping_failed") started
      started-unsettled
