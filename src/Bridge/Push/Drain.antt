-- ===== src/Bridge/Push/Drain.antt =====
-- The inner loop of `WatchForPush` (internal/bridge/push.go) ends, with every event handled once.
use google_messages_multidev.Bridge.Push.{
  Watch, announce, drain, push_page, remember, watch_event, watch_events, watch_message,
}
use google_messages_multidev.Event.{Event}
use google_messages_multidev.Platform.{Platform}
use google_messages_multidev.Prelude.Assoc.{Table}
use google_messages_multidev.Prelude.Bytes.{uint64_bound}
use google_messages_multidev.Prelude.Core.{
  List, [], ap, arith, inl, inr, refl, some, subst, suc, sym, zero, ℕ, ◌++◌, ◌+◌, ◌<◌, ◌∙◌, ◌∷◌,
  ◌≡◌, ◌≤◌,
}
use google_messages_multidev.Prelude.Lists.{
  List-cases, drop, drop-drop, drop-length-take, length, length-drop, length-drop_add, length-take,
  take, take-append-drop,
}
use google_messages_multidev.Result.{ok}
use google_messages_multidev.Store.Db.{Db}
use google_messages_multidev.Store.Events.{list_events}
use google_messages_multidev.Store.Events.Log.{Holds, IsLog}
use google_messages_multidev.Store.Events.Paging.{list_events-page}

-- The events of a log are numbered from `suc n`.
unfoldable Numbered : {A : Type 0} → ℕ → List (Event A) → Type 0
Numbered n [] = Unit
Numbered n (e ∷ log) = (e.id ≡ suc n) × Numbered (suc n) log

Numbered-drop :
    {A : Type 0} (n d : ℕ) (log : List (Event A)) → Numbered n log → Numbered (n + d) (drop d log)
unfolding Numbered
Numbered-drop n zero log h = subst (λ (k : ℕ). Numbered k log) (omega arith) h
Numbered-drop n (suc d) [] h = tt
Numbered-drop n (suc d) (e ∷ log) h =
    subst (λ (k : ℕ). Numbered k (drop d log)) (omega arith) (Numbered-drop (suc n) d log h.1)

Numbered-take :
    {A : Type 0} (n d : ℕ) (log : List (Event A)) → Numbered n log → Numbered n (take d log)
unfolding Numbered
Numbered-take n zero log h = tt
Numbered-take n (suc d) [] h = tt
Numbered-take n (suc d) (e ∷ log) h = (h.0, Numbered-take (suc n) d log h.1)

length-drop_page :
    {A : Type 0} (fuel k : ℕ) (xs : List A)
    → 0 < length xs
    → length xs < suc fuel
    → length (drop (suc k) xs) < fuel
length-drop_page fuel k [] p h = absurd (omega arith)
length-drop_page fuel k (x ∷ xs) p h = omega (arith, length-drop k xs)

module _ (env : Platform) where
  open env use {Bytes}

  Holds-Numbered :
      (n : ℕ) (t : Table Bytes) (log : List (Event Bytes)) → Holds env n t log → Numbered n log
  unfolding Numbered
  Holds-Numbered n [] [] h = tt
  Holds-Numbered n [] (e ∷ log) h = absurd h
  Holds-Numbered n (x ∷ t) [] h = tt
  Holds-Numbered n ((k, v) ∷ t) (e ∷ log) h = (h.0.1, Holds-Numbered (suc n) t log h.1)

module _ {env : Platform} where
  open env use {Bytes, bolt}

  watch_event-cursor :
      (event : Event Bytes) (db : Db env) (w : Watch) → (watch_event event db w).cursor ≡ event.id
  unfolding watch_event watch_message announce remember
  watch_event-cursor event db w = ground arith

  watch_events-append :
      (xs ys : List (Event Bytes)) (db : Db env) (w : Watch)
      → watch_events (xs ++ ys) db w ≡ watch_events ys db (watch_events xs db w)
  unfolding watch_events
  watch_events-append [] ys db w = refl
  watch_events-append (x ∷ xs) ys db w = watch_events-append xs ys db (watch_event x db w)

  -- After numbered events the cursor stands behind them.
  watch_events-cursor :
      (n : ℕ) (log : List (Event Bytes)) (db : Db env) (w : Watch)
      → Numbered n log
      → w.cursor ≡ n
      → (watch_events log db w).cursor ≡ n + length log
  unfolding watch_events Numbered
  watch_events-cursor n [] db w h c = omega (arith, c)
  watch_events-cursor n (e ∷ log) db w h c =
      watch_events-cursor (suc n) log db (watch_event e db w) h.1 (watch_event-cursor e db w ∙ h.0)
      ∙ omega arith

  page-cursor :
      (k : ℕ) (log : List (Event Bytes)) (db : Db env) (w : Watch)
      → Numbered 0 log
      → (watch_events (take k (drop w.cursor log)) db w).cursor
        ≡ w.cursor + length (take k (drop w.cursor log))
  page-cursor k log db w h =
      let rest = drop w.cursor log in
      watch_events-cursor w.cursor (take k rest) db w
        (Numbered-take w.cursor k rest
          (subst (λ (i : ℕ). Numbered i rest) (omega arith) (Numbered-drop 0 w.cursor log h)))
        refl

  -- The rest of the log behind a page, from the cursor behind the page.
  drop-page :
      (k : ℕ) (log : List (Event Bytes)) (db : Db env) (w : Watch)
      → Numbered 0 log
      → drop (watch_events (take k (drop w.cursor log)) db w).cursor log
        ≡ drop k (drop w.cursor log)
  drop-page k log db w h =
      let rest = drop w.cursor log in
      rw (page-cursor k log db w h)
        (sym (drop-drop w.cursor (length (take k rest)) log) ∙ drop-length-take k rest)

  -- On a database that holds a log of fewer than 256 ^ 8 events, from a cursor within the log: with
  -- fuel above the number of events behind the cursor, the loop that reads pages of a hundred ends,
  -- and has handled every event behind the cursor, once each and in order.
  pub drain-follows :
      (fuel : ℕ) (db : Db env) (log : List (Event Bytes)) (w : Watch)
      → IsLog db log
      → length log < uint64_bound
      → w.cursor ≤ length log
      → length (drop w.cursor log) < fuel
      → drain fuel db w ≡ some (watch_events (drop w.cursor log) db w)
  unfolding drain
  drain-follows zero db log w l b c f = absurd (omega arith)
  drain-follows (suc fuel) db log w l b c f =
      let rest = drop w.cursor log in
      let page : list_events w.cursor push_page db ≡ ok (take 100 rest) =
        list_events-page w.cursor push_page db log l b (omega arith) in
      elim (List-cases rest) [
        | inl e ↦
            let nothing_left : watch_events rest db w ≡ w =
              unfold watch_events in ground (arith, e) in
            ground (arith, page, e)
        | inr (x, xs, e) ↦
            let next = watch_events (take 100 rest) db w in
            let numbers = Holds-Numbered env 0 (bolt.entries db.events) log l.holds in
            let left : drop next.cursor log ≡ drop 100 rest = drop-page 100 log db w numbers in
            let goes_on : drain (suc fuel) db w ≡ drain fuel db next = ground (arith, page, e) in
            let pos : 0 < length rest = rw e (omega arith) in
            let few : length (drop next.cursor log) < fuel =
              rw left (length-drop_page fuel 99 rest pos f) in
            let inside : next.cursor ≤ length log = omega (
              arith,
              page-cursor 100 log db w numbers,
              length-take 100 rest,
              length-drop_add w.cursor log c,
            ) in
            let all_rest : watch_events (drop next.cursor log) db next ≡ watch_events rest db w =
              ap (λ l. watch_events l db next) left
              ∙ sym (watch_events-append (take 100 rest) (drop 100 rest) db w)
              ∙ ap (λ l. watch_events l db w) (take-append-drop 100 rest) in
            goes_on ∙ drain-follows fuel db log next l b inside few ∙ ap some all_rest
      ]
