-- ===== src/Bridge/Pairing/Runs/Fence.antt =====
-- The fence of `commitPairedSession` (internal/bridge/pairing.go): over any run, the number of a
-- generation and the end of a pairing decide what may be saved.
use google_messages_multidev.Bridge.Pairing.{
  Desk, Outside, close_pairing, commit_session, is_active, now_paired,
}
use google_messages_multidev.Bridge.Pairing.Runs.{DeskStep, desk_run, desk_step}
use google_messages_multidev.Bridge.Pairing.Runs.Moves.{
  Stands, Stands-refl, Stands-trans, Moves-desk_step,
}
use google_messages_multidev.Platform.{Platform}
use google_messages_multidev.Prelude.Bytes.{uint64_bound}
use google_messages_multidev.Prelude.Core.{
  Bool, List, [], arith, false, inl, inr, not, refl, true, ℕ, ◌%◌, ◌&&◌, ◌+◌, ◌<◌, ◌∙◌, ◌∷◌, ◌≡◌,
  ◌≤◌, ◌⊎◌,
}
use google_messages_multidev.Prelude.Lists.{length}
use google_messages_multidev.Prelude.Tests.{◌==◌}
use google_messages_multidev.Result.{Result-cases, canceled_call, err, ok}
use google_messages_multidev.Store.Pairing.{save_paired_session}

module _ {env : Platform} where
  -- After any number of steps: the pairing is held, or a later generation was begun.
  run_moves :
      (outside : Outside env) (steps : List (DeskStep env)) (d : Desk env)
      → d.pairing.generation + length steps < uint64_bound
      → Stands d.pairing (desk_run outside steps d).pairing
        ⊎ ((d.pairing.generation < (desk_run outside steps d).pairing.generation)
            × ((desk_run outside steps d).pairing.generation ≤ d.pairing.generation + length steps))
  unfolding desk_run
  run_moves outside [] d b = inl (Stands-refl d.pairing)
  run_moves outside (s ∷ ss) d b =
      let next = desk_step outside s d in
      let n = d.pairing.generation in
      let wrap : n + 1 < uint64_bound → (n + 1) % uint64_bound ≡ n + 1 = λ h. omega arith in
      elim (Moves-desk_step outside s d) [
        | inl m ↦ elim (run_moves outside ss next (ground (arith, m.numbered))) [
          | inl later ↦ inl (Stands-trans m later)
          | inr l ↦ inr (ground (arith, m.numbered))
        ]
        | inr e ↦
            let up : next.pairing.generation ≡ n + 1 = ground arith in
            elim (run_moves outside ss next (ground arith)) [
              | inl later ↦ inr (ground (arith, later.numbered))
              | inr l ↦ inr (ground arith)
            ]
      ]

  -- A pairing that is not active, whose generation g was (or an earlier one): after anything that
  -- clients, callbacks of old and new attempts, time and the store do, fewer than 2 ^ 64 generations
  -- in all, a commit for g is refused with context.Canceled, and changes nothing.
  pub stale_commit-refused :
      (outside : Outside env) (steps : List (DeskStep env)) (d : Desk env) (g : ℕ) (over : Bool)
      (session : env.Bytes)
      → is_active d.pairing.phase ≡ false
      → 0 < g
      → g ≤ d.pairing.generation
      → d.pairing.generation + length steps < uint64_bound
      → commit_session over g session (desk_run outside steps d)
        ≡ (err canceled_call, desk_run outside steps d)
  unfolding commit_session
  stale_commit-refused outside steps d g over session off pos old b =
      elim (run_moves outside steps d b) [
        | inl m ↦ ground (arith, m.ended off, m.numbered)
        | inr l ↦ ground arith
      ]

  commit_session-closes :
      (over : Bool) (g : ℕ) (session : env.Bytes) (d d' : Desk env)
      → 0 < g
      → commit_session over g session d ≡ (ok tt, d')
      → (is_active d.pairing.phase ≡ true)
        × (d'.pairing.generation ≡ g)
        × (d'.pairing.phase ≡ now_paired)
  unfolding commit_session close_pairing
  commit_session-closes over g session d d' pos h =
      let named : Bool = not (g == 0) && d.pairing.new_phone in
      elim (Result-cases (save_paired_session session named d.db)) [
        | inl ((u, db'), e) ↦ ground arith
        | inr (x, e) ↦ absurd (ground arith)
      ]

  -- The commit of a generation succeeds only while its pairing is active, and from then on, whatever
  -- else happens, cancellations and the reports of its own attempt included, the state says "paired"
  -- until a later generation is begun, fewer than 2 ^ 64 in all.
  pub commit_session-stays_paired :
      (outside : Outside env) (steps : List (DeskStep env)) (d d' : Desk env) (g : ℕ) (over : Bool)
      (session : env.Bytes)
      → 0 < g
      → commit_session over g session d ≡ (ok tt, d')
      → g + length steps < uint64_bound
      → (is_active d.pairing.phase ≡ true)
        × ((((desk_run outside steps d').pairing.generation ≡ g)
              × ((desk_run outside steps d').pairing.phase ≡ now_paired))
            ⊎ (g < (desk_run outside steps d').pairing.generation))
  commit_session-stays_paired outside steps d d' g over session pos h b =
      let (active, numbered, closed) = commit_session-closes over g session d d' pos h in
      elim (run_moves outside steps d' (ground arith)) [
        | inl m ↦
            let off : is_active d'.pairing.phase ≡ false = rw closed refl in
            (active, inl (m.numbered ∙ numbered, m.ended off ∙ closed))
        | inr l ↦ (active, inr (ground arith))
      ]
