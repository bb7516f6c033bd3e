-- ===== src/Store/Events/Paging.antt =====
-- `Events` of internal/store/store.go returns the page of the log that its cursor stands before.
use google_messages_multidev.Bridge.Outages.{after}
use google_messages_multidev.Event.{Event}
use google_messages_multidev.Platform.{Platform}
use google_messages_multidev.Prelude.Assoc.{Table, seek}
use google_messages_multidev.Prelude.Bytes.{from_bytes, uint64_bound}
use google_messages_multidev.Prelude.Core.{
  List, [], ap, arith, inl, inr, refl, subst, suc, zero, ℕ, ◌+◌, ◌-◌, ◌<◌, ◌||◌, ◌∙◌, ◌∷◌, ◌≡◌, ◌≢◌,
}
use google_messages_multidev.Prelude.Lists.{
  drop, drop-long, length, length-drop_add, take, take-nil,
}
use google_messages_multidev.Prelude.Tests.{==_iff, Bool-cases, if◌then◌else◌, ltb, ◌==◌}
use google_messages_multidev.Prelude.Text.{text_lt_irrefl}
use google_messages_multidev.Result.{err, invalid_limit, ok}
use google_messages_multidev.Store.Db.{Db, from_bytes-sequence, sequence, text_lt-sequence}
use google_messages_multidev.Store.Events.{collect_events, list_events, page_behind}
use google_messages_multidev.Store.Events.Log.{Holds, IsLog}
use native.Mathlib.Decide.{dec_le}
use native.Mathlib.Numerals.{add-one}

module _ (env : Platform) where
  open env use {Bytes, bolt, json}

  -- What is left of a suffix of the log is a suffix.
  Holds-drop :
      (n d : ℕ) (t : Table Bytes) (log : List (Event Bytes))
      → Holds env n t log
      → Holds env (n + d) (drop d t) (drop d log)
  Holds-drop n zero t log h = subst (λ (k : ℕ). Holds env k t log) (omega arith) h
  Holds-drop n (suc d) [] [] h = tt
  Holds-drop n (suc d) [] (e ∷ log) h = absurd h
  Holds-drop n (suc d) (x ∷ t) [] h = absurd h
  Holds-drop n (suc d) ((k, v) ∷ t) (e ∷ log) h =
      subst (λ (m : ℕ). Holds env m (drop d t) (drop d log)) (omega arith)
        (Holds-drop (suc n) d t log h.1)

  -- Seeking the key behind `n + d` passes over `d` entries.
  seek-Holds :
      (n d id : ℕ) (t : Table Bytes) (log : List (Event Bytes))
      → Holds env n t log
      → id ≡ suc (n + d)
      → id < uint64_bound
      → seek (sequence id) t ≡ drop d t
  unfolding seek
  seek-Holds n zero id [] log h e b = refl
  seek-Holds n (suc d) id [] log h e b = refl
  seek-Holds n d id ((k, v) ∷ t) [] h e b = absurd h
  seek-Holds n zero id ((k, v) ∷ t) (x ∷ log) h e b =
      let at_key : k ≡ sequence id = h.0.0 ∙ ap sequence (omega arith) in
      ground (arith, at_key, text_lt_irrefl (sequence id))
  seek-Holds n (suc d) id ((k, v) ∷ t) (x ∷ log) h e b = ground (
    arith,
    h.0.0,
    text_lt-sequence (suc n) id (omega arith) b,
    seek-Holds (suc n) d id t log h.1 (omega arith) b,
  )

  -- The loop reads the events that the entries hold, as many as there is room for.
  collect_events-Holds :
      (room n : ℕ) (t : Table Bytes) (log : List (Event Bytes))
      → Holds env n t log
      → n + length log < uint64_bound
      → collect_events env room t ≡ ok (take room log)
  unfolding collect_events
  collect_events-Holds zero n t log h b = refl
  collect_events-Holds (suc room) n [] [] h b = refl
  collect_events-Holds (suc room) n [] (e ∷ log) h b = absurd h
  collect_events-Holds (suc room) n (x ∷ t) [] h b = absurd h
  collect_events-Holds (suc room) n ((k, v) ∷ t) (e ∷ log) h b =
      let numbered : from_bytes k ≡ suc n =
        ap from_bytes h.0.0 ∙ from_bytes-sequence (suc n) (omega arith) in
      ground (
        arith,
        numbered,
        h.0.2,
        json.event_codec.unmarshal-marshal e,
        collect_events-Holds room (suc n) t log h.1 (omega arith),
      )

  page :
      (after room : ℕ) (t : Table Bytes) (log : List (Event Bytes))
      → Holds env 0 t log
      → length log < uint64_bound
      → suc after < uint64_bound
      → collect_events env room (seek (sequence (suc after)) t) ≡ ok (take room (drop after log))
  page after room t log h b a = rw (seek-Holds 0 after (suc after) t log h (omega arith) a) (
      collect_events-Holds room (0 + after) (drop after t) (drop after log)
        (Holds-drop 0 after t log h)
        (elim (dec_le after (length log)) [
          | yes p ↦ omega (arith, length-drop_add after log p)
          | no p ↦ omega (arith, ap length (drop-long after log (omega arith)))
        ]))

module _ {env : Platform} where
  open env use {Bytes, bolt}

  page_behind-drop :
      (after limit : ℕ) (db : Db env) (log : List (Event Bytes))
      → IsLog db log
      → length log < uint64_bound
      → after < uint64_bound
      → page_behind after limit db ≡ ok (take limit (drop after log))
  unfolding page_behind
  page_behind-drop after limit db log l b a = elim (Bool-cases (after == uint64_bound - 1)) [
    | inl last ↦
        let e : after ≡ uint64_bound - 1 = (==_iff after (uint64_bound - 1)).0 last in
        rw (last, drop-long after log (omega arith), take-nil limit)
    | inr more ↦
        let e : after ≢ uint64_bound - 1 = λ q. cc ((==_iff after (uint64_bound - 1)).1 q) in
        rw (more, add-one after)
          (page env after limit (bolt.entries db.events) log l.holds b (omega arith))
  ]

  -- On a database that holds a list of fewer than 256 ^ 8 events, whatever the cursor of 64 bits: a limit outside 1..1000 is
  -- refused, and any other is answered by the events behind the cursor, oldest first and without a
  -- gap, as many as the limit lets through.
  pub list_events-page :
      (after limit : ℕ) (db : Db env) (log : List (Event Bytes))
      → IsLog db log
      → length log < uint64_bound
      → after < uint64_bound
      → list_events after limit db ≡ (
          if ltb limit 1 || ltb 1000 limit
          then err invalid_limit
          else ok (take limit (drop after log)))
  unfolding list_events
  list_events-page after limit db log l b a = rw (page_behind-drop after limit db log l b a)
