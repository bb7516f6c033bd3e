-- ===== src/Store/Apply/Fence.antt =====
-- A live observation outdates a history request that began before it (`Apply` of
-- internal/store/store.go).
use google_messages_multidev.Event.{Event}
use google_messages_multidev.Platform.{Platform}
use google_messages_multidev.Prelude.Assoc.{Table}
use google_messages_multidev.Prelude.Bytes.{uint64_bound}
use google_messages_multidev.Prelude.Core.{
  Bool, Option, arith, false, inl, inr, none, refl, some, subst, suc, sym, true, ℕ, ◌<◌, ◌∙◌, ◌≡◌,
  ◌≤◌,
}
use google_messages_multidev.Prelude.Tests.{Bool-cases, if◌then◌else◌, ltb, lt→ltb}
use google_messages_multidev.Prelude.Text.{Text, text_eq, text_eq_refl, txt}
use google_messages_multidev.Result.{ok}
use google_messages_multidev.Store.Apply.{apply, confirm_event, is_stale}
use google_messages_multidev.Store.Apply.Revisions.{OneMore, apply-OneMore, touched}
use google_messages_multidev.Store.Conversations.{conversation_key}
use google_messages_multidev.Store.Db.{Db, counter, read_counter, read_counter-counter}
use google_messages_multidev.Store.Events.{event_key, history_watermark, next_sequence}
use google_messages_multidev.Store.Laws.{get-put, get-set_sequence}

module _ (env : Platform) where
  open env use {Bytes, bolt}

  -- Whether a stored revision is past the watermark.
  outdates : ℕ → Option Bytes → Bool
  outdates mark v = elim (read_counter env v) [ none ↦ false | some version ↦ ltb mark version ]

  -- The entity was observed after the watermark, and the revisions are past it.
  record Fenced (mark : ℕ) (key : Text) (b : bolt.Bucket) : Type 0 where
    outdated : outdates mark (bolt.get b key) ≡ true
    ahead : mark < bolt.sequence_of b

  next_sequence-suc :
      (b : bolt.Bucket)
      → suc (bolt.sequence_of b) < uint64_bound
      → next_sequence env b ≡ suc (bolt.sequence_of b)
  unfolding next_sequence
  next_sequence-suc b h = omega arith

  sequence_of-touched :
      (key : Text) (b : bolt.Bucket)
      → suc (bolt.sequence_of b) < uint64_bound
      → bolt.sequence_of (touched env key b) ≡ suc (bolt.sequence_of b)
  unfolding touched
  sequence_of-touched key b h =
      rw (bolt.sequence_of-put, bolt.sequence_of-set) (next_sequence-suc b h)

  get-touched :
      (key j : Text) (b : bolt.Bucket)
      → bolt.get (touched env key b) j
        ≡ (if text_eq key j then some (counter env (next_sequence env b)) else bolt.get b j)
  unfolding touched
  get-touched key j b =
      rw
        (
          get-put env (bolt.set_sequence b (next_sequence env b)) key j
              (counter env (next_sequence env b)),
          get-set_sequence env b (next_sequence env b) j,
        )
        refl

  outdates-counter :
      (mark : ℕ) (v : Option Bytes) (n : ℕ)
      → read_counter env v ≡ some n
      → outdates mark v ≡ ltb mark n
  unfolding outdates
  outdates-counter mark v n e = ground (arith, e)

  outdates-next :
      (mark : ℕ) (b : bolt.Bucket)
      → mark ≤ bolt.sequence_of b
      → suc (bolt.sequence_of b) < uint64_bound
      → outdates mark (some (counter env (next_sequence env b))) ≡ true
  unfolding outdates
  outdates-next mark b m h =
      let n = next_sequence-suc b h in
      outdates-counter mark (some (counter env (next_sequence env b))) (next_sequence env b)
        (read_counter-counter env (next_sequence env b) (rw n h))
      ∙ lt→ltb mark (next_sequence env b) (rw n (omega arith))

  -- An observation of the entity fences it.
  Fenced-touched :
      (mark : ℕ) (key : Text) (b : bolt.Bucket)
      → mark ≤ bolt.sequence_of b
      → suc (bolt.sequence_of b) < uint64_bound
      → Fenced mark key (touched env key b)
  Fenced-touched mark key b m h = record {
    outdated = rw (get-touched key key b, text_eq_refl key) (outdates-next mark b m h);
    ahead = rw (sequence_of-touched key b h) (omega arith);
  }

  -- A later observation, of whatever entity, keeps the fence.
  Fenced-again :
      (mark : ℕ) (key other_key : Text) (b : bolt.Bucket)
      → suc (bolt.sequence_of b) < uint64_bound
      → Fenced mark key b
      → Fenced mark key (touched env other_key b)
  Fenced-again mark key other_key b h f = record {
    outdated = rw (get-touched other_key key b) (elim (Bool-cases (text_eq other_key key)) [
      | inl e ↦ rw e (outdates-next mark b (omega (arith, f.ahead)) h)
      | inr e ↦ rw e (f.outdated)
    ]);
    ahead = rw (sequence_of-touched other_key b h) (omega (arith, f.ahead));
  }

module _ {env : Platform} where
  open env use {Bytes, bolt}

  Fenced-OneMore :
      (event : Event Bytes) (mark : ℕ) (key : Text) (b b' : bolt.Bucket)
      → suc (bolt.sequence_of b) < uint64_bound
      → Fenced env mark key b
      → OneMore env event b b'
      → Fenced env mark key b'
  Fenced-OneMore event mark key b b' h f (inl e) = subst (Fenced env mark key) (sym e) f
  Fenced-OneMore event mark key b b' h f (inr (m, k, r, e)) =
      subst (Fenced env mark key) (sym e)
        (Fenced-again env mark key (conversation_key m.conversation_id) b h f)

  is_stale-Fenced :
      (mark : ℕ) (key : Text) (db : Db env)
      → Fenced env mark key db.versions
      → is_stale (some mark) key db ≡ true
  unfolding is_stale outdates
  is_stale-Fenced mark key db f = f.outdated

  apply-Fenced :
      (event : Event Bytes) (historical : Bool) (private : Table Bytes) (mark : ℕ) (db db' : Db env)
      (changed : Bool)
      → mark ≤ history_watermark db
      → suc (suc (history_watermark db)) < uint64_bound
      → apply event historical private none db ≡ ok (changed, db')
      → Fenced env mark (event_key event) db'.versions
  unfolding history_watermark
  apply-Fenced event historical private mark db db' changed m b h =
      Fenced-OneMore event mark (event_key event) (touched env (event_key event) db.versions)
        db'.versions (rw (sequence_of-touched env (event_key event) db.versions (omega arith)) b)
        (Fenced-touched env mark (event_key event) db.versions m (omega arith))
        (apply-OneMore event historical private db db' changed h)

  -- History does not overwrite what was seen live: once a live event was applied, with two revisions
  -- left, a record of the same entity from a history request that began before it is not recorded.
  -- All that its message can still do is to confirm a send; a record of another kind changes nothing.
  pub live-fences_history :
      (live replay : Event Bytes) (historical : Bool) (private old_private : Table Bytes) (mark : ℕ)
      (db db' : Db env) (changed : Bool)
      → mark ≤ history_watermark db
      → suc (suc (history_watermark db)) < uint64_bound
      → apply live historical private none db ≡ ok (changed, db')
      → event_key replay ≡ event_key live
      → (apply replay true old_private (some mark) db' ≡ confirm_event replay false db')
        × (text_eq replay.kind (txt "message") ≡ false
            → apply replay true old_private (some mark) db' ≡ ok (false, db'))
  unfolding apply
  live-fences_history live replay historical private old_private mark db db' changed m b h k =
      let stale : is_stale (some mark) (event_key replay) db' ≡ true =
        is_stale-Fenced mark (event_key replay) db'
          (rw k (apply-Fenced live historical private mark db db' changed m b h)) in
      (rw stale refl, λ n. rw stale (unfold confirm_event in rw n refl))
