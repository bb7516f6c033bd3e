-- ===== src/Bridge/Reports.antt =====
-- What the bridge tells its clients about the connection (internal/bridge/service.go).
use google_messages_multidev.Bridge.{
  ConnectionEvent, Status, cause_after, connection, is_settled_state, max_connection_events,
  reason_of, record_connection_event, set_state,
}
use google_messages_multidev.Prelude.Core.{
  Bool, List, [], ap, arith, false, inl, inr, refl, suc, sym, true, zero, ℕ, ◌&&◌, ◌++◌, ◌+◌, ◌-◌,
  ◌<◌, ◌∙◌, ◌∷◌, ◌≡◌, ◌≤◌,
}
use google_messages_multidev.Prelude.Lists.{drop, drop-drop, length, length-append}
use google_messages_multidev.Prelude.Tests.{Bool-cases, if◌then◌else◌, leb, leb→le}
use google_messages_multidev.Prelude.Text.{Text, is_empty, text_eq, txt}
use mathlib.Core.List.{append_assoc, append-nil}

length-drop : {A : Type 0} (n : ℕ) (xs : List A) → length (drop n xs) ≡ length xs - n
length-drop zero xs = omega arith
length-drop (suc n) [] = omega arith
length-drop (suc n) (x ∷ xs) = omega (arith, length-drop n xs)

not_leb : (a b : ℕ) → leb a b ≡ false → b < a
not_leb a b h = ground arith

drop-append :
    {A : Type 0} (n : ℕ) (xs ys : List A) → n ≤ length xs → drop n (xs ++ ys) ≡ drop n xs ++ ys
drop-append zero xs ys h = refl
drop-append (suc n) [] ys h = absurd (omega arith)
drop-append (suc n) (x ∷ xs) ys h = drop-append n xs ys (omega arith)

-- The last elements of a list, so many of them.
abbrev pub last_of {ℓ} : {A : Type ℓ} → ℕ → List A → List A
last_of n xs = drop (length xs - n) xs

-- Connection events that come in one after the other.
unfoldable pub note_events : List ConnectionEvent → Status → Status
note_events [] st = st
note_events (e ∷ es) st = note_events es (record_connection_event e.at e.event st)

record_connection_event-last :
    (e : ConnectionEvent) (all : List ConnectionEvent) (st : Status)
    → st.connection_events ≡ last_of max_connection_events all
    → (record_connection_event e.at e.event st).connection_events
      ≡ last_of max_connection_events (all ++ e ∷ [])
unfolding record_connection_event
record_connection_event-last e all st h =
    let n = length all in
    let m = n - max_connection_events in
    let kept : length st.connection_events ≡ n - m = ap length h ∙ length-drop m all in
    let after : length (all ++ e ∷ []) ≡ n + 1 = length-append all (e ∷ []) in
    elim (Bool-cases (leb max_connection_events (length st.connection_events))) [
      | inl full ↦
          let le = leb→le max_connection_events (length st.connection_events) full in
          let one : length st.connection_events - max_connection_events + 1 ≡ 1 =
            omega (arith, le, kept) in
          let at : m + 1 ≡ length (all ++ e ∷ []) - max_connection_events =
            omega (arith, le, kept, after) in
          rw full (
            ap (λ (k : ℕ). drop k st.connection_events ++ e ∷ []) one
            ∙ ap (λ l. drop 1 l ++ e ∷ []) h
            ∙ ap (λ l. l ++ e ∷ []) (drop-drop m 1 all)
            ∙ sym (drop-append (m + 1) all (e ∷ []) (omega (arith, le, kept)))
            ∙ ap (λ (k : ℕ). drop k (all ++ e ∷ [])) at)
      | inr room ↦
          let lt = not_leb max_connection_events (length st.connection_events) room in
          let none_out : m ≡ 0 = omega (arith, lt, kept) in
          let none_out' : 0 ≡ length (all ++ e ∷ []) - max_connection_events =
            omega (arith, lt, kept, after) in
          rw room (
            ap (λ l. l ++ e ∷ []) (h ∙ ap (λ (k : ℕ). drop k all) none_out)
            ∙ ap (λ (k : ℕ). drop k (all ++ e ∷ [])) none_out')
    ]

note_events-last :
    (es all : List ConnectionEvent) (st : Status)
    → st.connection_events ≡ last_of max_connection_events all
    → (note_events es st).connection_events ≡ last_of max_connection_events (all ++ es)
unfolding note_events
note_events-last [] all st h = h ∙ ap (last_of max_connection_events) (sym (append-nil all))
note_events-last (e ∷ es) all st h =
    note_events-last es (all ++ e ∷ []) (record_connection_event e.at e.event st)
      (record_connection_event-last e all st h)
    ∙ ap (last_of max_connection_events) (append_assoc all (e ∷ []) es)

-- From a status within the limit and after any connection events: the bridge keeps exactly the
-- last ones of all, in their order, 20 at most.
pub note_events-keeps_last :
    (es : List ConnectionEvent) (st : Status)
    → length st.connection_events ≤ max_connection_events
    → ((note_events es st).connection_events
        ≡ last_of max_connection_events (st.connection_events ++ es))
      × (length (note_events es st).connection_events ≤ max_connection_events)
note_events-keeps_last es st h =
    let all = st.connection_events ++ es in
    let none_out : 0 ≡ length st.connection_events - max_connection_events = omega (arith, h) in
    let kept =
      note_events-last es st.connection_events st
        (ap (λ (k : ℕ). drop k st.connection_events) none_out) in
    let counted = ap length kept ∙ length-drop (length all - max_connection_events) all in
    (kept, omega (arith, counted))

set_state-fields :
    (now : ℕ) (state : Text) (st : Status)
    → ((set_state now state st).state ≡ state) × ((set_state now state st).reason ≡ st.reason)
unfolding set_state
set_state-fields now state st = ground arith

connected_text :
    (b : Bool) → text_eq (if b then txt "connected" else txt "degraded") (txt "connected") ≡ b
unfolding text_eq
connected_text true = refl
connected_text false = refl

reason_of-is_empty :
    (transport phone : Bool) (cause : Text)
    → is_empty (reason_of transport phone cause) ≡ transport && phone
unfolding reason_of
reason_of-is_empty false phone cause = refl
reason_of-is_empty true true cause = refl
reason_of-is_empty true false [] = refl
reason_of-is_empty true false (c ∷ cause) = refl

-- A provider event, where the bridge is not waiting for storage, authentication or a reconnect, leaves
-- it connected exactly where both the transport and the phone answer, and gives a reason exactly where not.
pub connection-reason :
    (now : ℕ) (event : Text) (transport phone : Bool) (cause : Text) (st : Status)
    → is_settled_state st.state ≡ false
    → let next = connection now event transport phone cause st in
      (text_eq next.state (txt "connected") ≡ transport && phone)
      × (is_empty next.reason ≡ transport && phone)
unfolding connection record_connection_event
connection-reason now event transport phone cause st h =
    let f = set_state-fields now (if transport && phone then txt "connected" else txt "degraded") in
    rw h (
      rw (f _).0 (connected_text (transport && phone)),
      rw (f _).1 (reason_of-is_empty transport phone (cause_after phone cause st.phone_cause)),
    )
