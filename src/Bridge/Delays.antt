-- ===== src/Bridge/Delays.antt =====
-- How long the bridge waits after failures: the reconnection of `supervise` in
-- internal/bridge/supervisor.go, and the synchronisation of `syncLoop` in internal/bridge/service.go.

use google_messages_multidev.Bridge.{Status}
use google_messages_multidev.Prelude.Core.{
  Bool, List, Option, [], ap, arith, false, inl, inr, none, not, refl, some, suc, true, ℕ, ◌&&◌,
  ◌*◌, ◌+◌, ◌-◌, ◌^◌, ◌||◌, ◌∙◌, ◌∷◌, ◌≡◌, ◌≤◌,
}
use google_messages_multidev.Prelude.Tests.{Bool-cases, if◌then◌else◌, ltb}
use google_messages_multidev.Prelude.Text.{text_eq, txt}
use native.Mathlib.Nat.{mul_assoc, pow-suc}

-- Five minutes, in nanoseconds.
abbrev pub max_reconnect_delay : ℕ
max_reconnect_delay = 300000000000

-- Thirty minutes, in nanoseconds.
abbrev pub max_sync_backoff : ℕ
max_sync_backoff = 1800000000000

-- The delay is doubled once it was waited, up to the maximum.
unfoldable pub doubled : ℕ → ℕ
doubled delay =
    if ltb delay max_reconnect_delay
    then (if ltb max_reconnect_delay (delay * 2) then max_reconnect_delay else delay * 2)
    else delay

abbrev pub one_minute : ℕ
one_minute = 60000000000

-- A connection that ended: the status it left, and how long it lived.
pub record Ending : Type 0 where
  pub status : Status
  pub lived : ℕ

-- Whether `supervise` goes on to `waitForAuthentication`.
unfoldable pub needs_pairing : Status → Bool
needs_pairing st =
    text_eq st.state (txt "authentication_required")
    || (text_eq st.reason (txt "stream_replaced")
        || (text_eq st.reason (txt "temporary_ban") || text_eq st.reason (txt "client_outdated")))

-- The timer that is set after a connection, if any, and the delay from then on.
unfoldable pub after_ending : ℕ → Ending → ℕ → Option ℕ × ℕ
unfolding needs_pairing doubled
after_ending reconnect_delay e delay =
    if needs_pairing e.status
    then (none, delay)
    else let now = if ltb one_minute e.lived then reconnect_delay else delay in
      (some now, doubled now)

-- The timers that the loop sets after the connections of a run.
unfoldable pub timers_of : ℕ → ℕ → List Ending → List (Option ℕ)
unfolding after_ending
timers_of reconnect_delay delay [] = []
timers_of reconnect_delay delay (e ∷ rest) =
    let next = after_ending reconnect_delay e delay in
    next.0 ∷ timers_of reconnect_delay next.1 rest

abbrev pub smaller : ℕ → ℕ → ℕ
smaller a b = if ltb a b then a else b

-- Doubling from a delay for each short connection since the last long one. One that ended for a
-- pairing sets no timer, and does not count.
unfoldable pub expected_timers : ℕ → ℕ → ℕ → List Ending → List (Option ℕ)
expected_timers reconnect_delay start short [] = []
expected_timers reconnect_delay start short (e ∷ rest) = elim (needs_pairing e.status) [
  | true ↦ none ∷ expected_timers reconnect_delay start short rest
  | false ↦ elim (ltb one_minute e.lived) [
    | true ↦ some reconnect_delay ∷ expected_timers reconnect_delay reconnect_delay 1 rest
    | false ↦
        some (smaller (start * 2 ^ short) max_reconnect_delay)
        ∷ expected_timers reconnect_delay start (suc short) rest
  ]
]

doubled-smaller :
    (a : ℕ) → doubled (smaller a max_reconnect_delay) ≡ smaller (a * 2) max_reconnect_delay
unfolding doubled
doubled-smaller a = ground arith

power_step : (start short : ℕ) → start * 2 ^ short * 2 ≡ start * 2 ^ suc short
power_step start short = rw (pow-suc 2 short) (mul_assoc start (2 ^ short) 2)

-- With a first delay of at most five minutes: a connection that ended for a pairing or for what a
-- retry cannot mend sets no timer and leaves the delay as it is. After any other one the timer, which
-- a wake-up may cut short, is set to the first delay, doubled once for every such connection since the
-- last one that lived for more than a minute, but to five minutes at most.
pub timers_of-expected :
    (reconnect_delay start short : ℕ) (endings : List Ending)
    → reconnect_delay ≤ max_reconnect_delay
    → timers_of reconnect_delay (smaller (start * 2 ^ short) max_reconnect_delay) endings
      ≡ expected_timers reconnect_delay start short endings
unfolding timers_of after_ending expected_timers
timers_of-expected r start short [] h = refl
timers_of-expected r start short (e ∷ rest) h = elim (Bool-cases (needs_pairing e.status)) [
  | inl c ↦ ground (arith, timers_of-expected r start short rest h)
  | inr c ↦ elim (Bool-cases (ltb one_minute e.lived)) [
    | inl d ↦
        let once : doubled r ≡ smaller (r * 2 ^ 1) max_reconnect_delay =
          unfold doubled in ground arith in
        let later = timers_of-expected r r 1 rest h in
        let same : timers_of r (doubled r) rest ≡ expected_timers r r 1 rest = rw once later in
        ground (arith, same)
    | inr d ↦
        let first = smaller (start * 2 ^ short) max_reconnect_delay in
        let twice : doubled first ≡ smaller (start * 2 ^ suc short) max_reconnect_delay =
          doubled-smaller (start * 2 ^ short)
          ∙ ap (λ (k : ℕ). smaller k max_reconnect_delay) (power_step start short) in
        let later = timers_of-expected r start (suc short) rest h in
        let same : timers_of r (doubled first) rest ≡ expected_timers r start (suc short) rest =
          rw twice later in
        ground (arith, same)
  ]
]

-- The delay before the next synchronisation, after so many failures in a row.
unfoldable pub sync_backoff : ℕ → ℕ → ℕ
sync_backoff sync_every failures =
    smaller (sync_every * 2 ^ smaller (failures - 1) 8) max_sync_backoff

-- The variables of `syncLoop`, and the flag of a requested full synchronisation.
pub record SyncState : Type 0 where
  pub failures : ℕ
  pub retry_at : ℕ
  pub full : Bool

-- Whether a wake-up of the loop is passed over.
unfoldable pub sync_waits : Bool → ℕ → SyncState → Bool
sync_waits phone started s =
    ltb 0 s.failures && (not phone && (ltb started s.retry_at && not s.full))

unfoldable pub after_sync : ℕ → ℕ → Bool → SyncState → SyncState
unfolding sync_backoff
after_sync sync_every started succeeded s =
    if succeeded then record s { failures = 0; full = false } else record s {
      failures = s.failures + 1;
      retry_at = started + sync_backoff sync_every (s.failures + 1);
      full = false;
    }
