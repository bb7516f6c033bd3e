-- ===== src/Bridge/Outages.antt =====
-- Outages over a run of the bridge (internal/bridge/outage.go): the provider's connection events, other
-- state changes, and the ticks of `WatchConnection`, in any order.
use google_messages_multidev.Bridge.{
  Outage, Status, connection, current_outage, is_settled_state, outage_state,
  record_connection_event, set_state, track_down, track_outage, track_up, tracked,
}
use google_messages_multidev.Prelude.Core.{
  Bool, List, Option, [], arith, false, inl, inr, none, some, ℕ, ◌&&◌, ◌+◌, ◌∷◌, ◌≡◌, ◌≤◌,
}
use google_messages_multidev.Prelude.Tests.{Bool-cases, Option-cases, if◌then◌else◌}
use google_messages_multidev.Prelude.Text.{Text, txt}

pub data Step : Type 0 where
  connects : ℕ → Text → Bool → Bool → Text → Step
  sets : ℕ → Text → Step
  ticks : ℕ → Step

unfoldable pub follow : Step → Status → Status
follow (connects now event transport phone cause) st = connection now event transport phone cause st
follow (sets now state) st = set_state now state st
follow (ticks now) st = (track_outage now st).1

abbrev count {ℓ} : {A : Type ℓ} → Option A → ℕ
count none = 0
count (some a) = 1

abbrev announced_by : Step → Status → ℕ
announced_by (ticks now) st = count (track_outage now st).0.announces
announced_by _ st = 0

abbrev ended_by : Step → Status → ℕ
ended_by (ticks now) st = count (track_outage now st).0.ends
ended_by _ st = 0

unfoldable pub after : List Step → Status → Status
after [] st = st
after (s ∷ ss) st = after ss (follow s st)

-- How many outages were announced, and how many ended.
unfoldable pub announcements : List Step → Status → ℕ
announcements [] st = 0
announcements (s ∷ ss) st = announced_by s st + announcements ss (follow s st)

unfoldable pub endings : List Step → Status → ℕ
endings [] st = 0
endings (s ∷ ss) st = ended_by s st + endings ss (follow s st)

-- 1 if the outage in progress has been announced.
abbrev told : Option Outage → ℕ
told none = 0
told (some o) = if o.announced then 1 else 0

-- Only a tick touches the outage.
set_state-outage :
    (now : ℕ) (state : Text) (st : Status) → (set_state now state st).outage ≡ st.outage
unfolding set_state
set_state-outage now state st = ground arith

connection-outage :
    (now : ℕ) (event : Text) (transport phone : Bool) (cause : Text) (st : Status)
    → (connection now event transport phone cause st).outage ≡ st.outage
unfolding connection record_connection_event
connection-outage now event transport phone cause st =
    elim (Bool-cases (is_settled_state st.state)) [
      | inl e ↦ ground arith
      | inr e ↦
          rw e (
            set_state-outage now (if transport && phone then txt "connected" else txt "degraded") _)
    ]

-- An announcement tells the outage, and it stays told until it ends.
track_down-told :
    (now : ℕ) (o : Outage)
    → (count (track_down now o).0.announces + told (some o) ≡ told (track_down now o).1)
      × ((track_down now o).0.ends ≡ none)
unfolding track_down
track_down-told now o = ground arith

track_up-told :
    (now : ℕ) (o : Outage) (st : Status)
    → (count (track_up now o st).0.announces ≡ 0)
      × (told (some o) ≤ told (track_up now o st).1 + count (track_up now o st).0.ends)
unfolding track_up
track_up-told now o st = ground arith

tracked-told :
    (now : ℕ) (st : Status)
    → count (tracked now st).0.announces + told st.outage
      ≤ told (tracked now st).1 + count (tracked now st).0.ends
unfolding tracked current_outage
tracked-told now st = elim (Bool-cases (outage_state st.state)) [
  | inl down ↦ elim (Option-cases st.outage) [
    | inl e ↦
        ground (arith, track_down-told now (record { since = st.state_since; announced = false }))
    | inr (o, e) ↦ ground (arith, track_down-told now o)
  ]
  | inr up ↦ elim (Option-cases st.outage) [
    | inl e ↦ ground arith
    | inr (o, e) ↦ ground (arith, track_up-told now o st)
  ]
]

told_le : (o : Option Outage) → told o ≤ 1
told_le none = omega arith
told_le (some o) = ground arith

track_outage-told :
    (now : ℕ) (st : Status)
    → count (track_outage now st).0.announces + told st.outage
      ≤ told (track_outage now st).1.outage + count (track_outage now st).0.ends
unfolding track_outage
track_outage-told now st = tracked-told now st

follow-told :
    (s : Step) (st : Status)
    → announced_by s st + told st.outage ≤ told (follow s st).outage + ended_by s st
unfolding follow
follow-told (connects now event transport phone cause) st =
    rw (connection-outage now event transport phone cause st) (omega arith)
follow-told (sets now state) st = rw (set_state-outage now state st) (omega arith)
follow-told (ticks now) st = track_outage-told now st

-- Over any run, an outage is announced at most once: there is at most one announcement more than
-- outages that ended, and none more if the outage at the start was already announced.
pub announced_at_most_once :
    (steps : List Step) (st : Status)
    → announcements steps st + told st.outage ≤ endings steps st + 1
unfolding announcements endings
announced_at_most_once [] st = omega (arith, told_le st.outage)
announced_at_most_once (s ∷ steps) st =
    omega (arith, follow-told s st, announced_at_most_once steps (follow s st))

-- The outage goes on, from the same start.
abbrev pub Continues : Outage → Option Outage → Type 0
Continues o none = ⊥
Continues o (some later) = later.since ≡ o.since
