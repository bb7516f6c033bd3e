-- ===== src/Bridge/Imports/First.antt =====
-- The job that `historyOne` (internal/bridge/history.go) works on.

use google_messages_multidev.Bridge.Imports.{due_jobs, first_job, is_due_job}
use google_messages_multidev.Model.{HistoryJob, is_pending}
use google_messages_multidev.Platform.{Platform}
use google_messages_multidev.Prelude.Core.{
  List, Option, [], arith, inl, inr, none, refl, some, subst, sym, true, ℕ, ◌∷◌, ◌≡◌, ◌≤◌,
}
use google_messages_multidev.Prelude.Lists.{All}
use google_messages_multidev.Prelude.Tests.{Bool-cases, Option-cases, if◌then◌else◌, ltb}
use google_messages_multidev.Result.{Result-cases, ok}
use mathlib.Core.List.{Memᴰ}

-- A job of the list, or the best one before it, that none of both was written before.
record Earliest (best : Option HistoryJob) (jobs : List HistoryJob) (j : HistoryJob) : Type 0 where
  before_all : All (λ k. j.updated ≤ k.updated) jobs
  before_best : (b : HistoryJob) → best ≡ some b → j.updated ≤ b.updated

first_job-Earliest :
    (best : Option HistoryJob) (jobs : List HistoryJob) (j : HistoryJob)
    → first_job best jobs ≡ some j
    → Earliest best jobs j
unfolding first_job
first_job-Earliest best [] j h = record { before_all = tt; before_best = λ b e. ground arith }
first_job-Earliest none (k ∷ ks) j h =
    let rest = first_job-Earliest (some k) ks j h in
    record {
      before_all = (rest.before_best k refl, rest.before_all);
      before_best = λ b e. absurd (cc);
    }
first_job-Earliest (some c) (k ∷ ks) j h =
    let next = if ltb k.updated c.updated then k else c in
    let rest = first_job-Earliest (some next) ks j (ground arith) in
    let low = rest.before_best next refl in
    record { before_all = (ground arith, rest.before_all); before_best = λ b e. ground arith }

first_job-All :
    (P : HistoryJob → Type 0) (best : Option HistoryJob) (jobs : List HistoryJob) (j : HistoryJob)
    → All P jobs
    → ((b : HistoryJob) → best ≡ some b → P b)
    → first_job best jobs ≡ some j
    → P j
unfolding first_job
first_job-All P best [] j a p h = p j h
first_job-All P none (k ∷ ks) j a p h =
    first_job-All P (some k) ks j a.1 (λ b e. subst P (ground (arith, e)) a.0) h
first_job-All P (some c) (k ∷ ks) j a p h = elim (Bool-cases (ltb k.updated c.updated)) [
  | inl l ↦
      first_job-All P (some k) ks j a.1 (λ b e. subst P (ground (arith, e)) a.0) (ground arith)
  | inr l ↦ first_job-All P (some c) ks j a.1 (λ b e. p b e) (ground arith)
]

first_job-some :
    (b : HistoryJob) (jobs : List HistoryJob)
    → (j : HistoryJob) × (first_job (some b) jobs ≡ some j)
unfolding first_job
first_job-some b [] = (b, refl)
first_job-some b (k ∷ ks) = elim (Bool-cases (ltb k.updated b.updated)) [
  | inl l ↦ let (j, e) = first_job-some k ks in (j, rw l e)
  | inr l ↦ let (j, e) = first_job-some b ks in (j, rw l e)
]

first_job-found :
    (k : HistoryJob) (jobs : List HistoryJob)
    → Memᴰ k jobs
    → (j : HistoryJob) × (first_job none jobs ≡ some j)
unfolding first_job
first_job-found k [] m = elim m [ ]
first_job-found k (b ∷ jobs) m = first_job-some b jobs

All-Memᴰ :
    (P : HistoryJob → Type 0) (k : HistoryJob) (jobs : List HistoryJob)
    → All P jobs
    → Memᴰ k jobs
    → P k
All-Memᴰ P k [] a m = elim m [ ]
All-Memᴰ P k (b ∷ jobs) a (Memᴰ.head e) = subst P (sym e) a.0
All-Memᴰ P k (b ∷ jobs) a (Memᴰ.tail m) = All-Memᴰ P k jobs a.1 m

All-map :
    (P Q : HistoryJob → Type 0) (jobs : List HistoryJob)
    → ((j : HistoryJob) → P j → Q j)
    → All P jobs
    → All Q jobs
All-map P Q [] f a = tt
All-map P Q (b ∷ jobs) f a = (f b a.0, All-map P Q jobs f a.1)

-- A job that is queued and may be tried, stored among these snapshots.
record IsWaiting (env : Platform) (now : ℕ) (plains : List env.Bytes) (j : HistoryJob)
    : Type 0 where
  queued : is_pending j.state ≡ true
  in_time : j.retry_at ≤ now
  snapshot : env.Bytes
  stored : Memᴰ snapshot plains
  reads : env.json.history_codec.unmarshal snapshot ≡ some j

IsWaiting-tail :
    (env : Platform) (now : ℕ) (plain : env.Bytes) (plains : List env.Bytes) (j : HistoryJob)
    → IsWaiting env now plains j
    → IsWaiting env now (plain ∷ plains) j
IsWaiting-tail env now plain plains j w = record {
  queued = w.queued;
  in_time = w.in_time;
  snapshot = w.snapshot;
  stored = Memᴰ.tail w.stored;
  reads = w.reads;
}

due_jobs-All :
    (env : Platform) (now : ℕ) (plains : List env.Bytes) (jobs : List HistoryJob)
    → due_jobs env now plains ≡ ok jobs
    → All (IsWaiting env now plains) jobs
unfolding due_jobs is_due_job
due_jobs-All env now [] jobs h = subst (All (IsWaiting env now [])) {x = []} (ground arith) tt
due_jobs-All env now (plain ∷ rest) jobs h =
    let Waiting : HistoryJob → Type 0 = IsWaiting env now (plain ∷ rest) in
    elim (Option-cases (env.json.history_codec.unmarshal plain)) [
      | inl e ↦ absurd (ground arith)
      | inr (job, e) ↦ elim (Result-cases (due_jobs env now rest)) [
        | inr (x, r) ↦ absurd (ground arith)
        | inl (js, r) ↦
            let later =
              All-map (IsWaiting env now rest) Waiting js (IsWaiting-tail env now plain rest)
                (due_jobs-All env now rest js r) in
            elim (Bool-cases (is_due_job now job)) [
              | inl d ↦
                  let w : Waiting job = record {
                    queued = ground arith;
                    in_time = ground arith;
                    snapshot = plain;
                    stored = Memᴰ.head refl;
                    reads = e;
                  } in
                  subst (All Waiting) {x = job ∷ js} (ground arith) (w, later)
              | inr d ↦ subst (All Waiting) {x = js} (ground arith) later
            ]
      ]
    ]

due_jobs-complete :
    (env : Platform) (now : ℕ) (plains : List env.Bytes) (jobs : List HistoryJob)
    (plain : env.Bytes) (k : HistoryJob)
    → due_jobs env now plains ≡ ok jobs
    → Memᴰ plain plains
    → env.json.history_codec.unmarshal plain ≡ some k
    → is_pending k.state ≡ true
    → k.retry_at ≤ now
    → Memᴰ k jobs
unfolding due_jobs is_due_job
due_jobs-complete env now [] jobs plain k h m u q t = elim m [ ]
due_jobs-complete env now (first ∷ rest) jobs plain k h m u q t =
    elim (Option-cases (env.json.history_codec.unmarshal first)) [
      | inl e ↦ absurd (ground arith)
      | inr (job, e) ↦ elim (Result-cases (due_jobs env now rest)) [
        | inr (x, r) ↦ absurd (ground arith)
        | inl (js, r) ↦ elim m [
          | Memᴰ.head s ↦
              let same : k ≡ job = ground (arith, s, u, e) in
              subst (Memᴰ k) {x = job ∷ js} (ground (arith, same, q, t)) (Memᴰ.head same)
          | Memᴰ.tail n ↦
              let later = due_jobs-complete env now rest js plain k r n u q t in
              elim (Bool-cases (is_due_job now job)) [
                | inl d ↦ subst (Memᴰ k) {x = job ∷ js} (ground arith) (Memᴰ.tail later)
                | inr d ↦ subst (Memᴰ k) {x = js} (ground arith) later
              ]
        ]
      ]
    ]

-- Where all the stored jobs unmarshal, and one of them is queued and its time to retry has come, the
-- worker chooses a job: one that is stored, is queued, may be tried by now, and was not written after
-- that one.
pub first_job-due :
    (env : Platform) (now : ℕ) (plains : List env.Bytes) (jobs : List HistoryJob)
    (plain : env.Bytes) (k : HistoryJob)
    → due_jobs env now plains ≡ ok jobs
    → Memᴰ plain plains
    → env.json.history_codec.unmarshal plain ≡ some k
    → is_pending k.state ≡ true
    → k.retry_at ≤ now
    → (j : HistoryJob) × (first_job none jobs ≡ some j)
      × (is_pending j.state ≡ true)
      × (j.retry_at ≤ now)
      × (j.updated ≤ k.updated)
      × ((stored : env.Bytes) × Memᴰ stored plains
          × (env.json.history_codec.unmarshal stored ≡ some j))
first_job-due env now plains jobs plain k h m u q t =
    let n = due_jobs-complete env now plains jobs plain k h m u q t in
    let (j, f) = first_job-found k jobs n in
    let w =
      first_job-All (IsWaiting env now plains) none jobs j (due_jobs-All env now plains jobs h)
        (λ b e. absurd (cc)) f in
    let first =
      All-Memᴰ (λ i. j.updated ≤ i.updated) k jobs (first_job-Earliest none jobs j f).before_all
        n in
    (j, f, w.queued, w.in_time, first, (w.snapshot, w.stored, w.reads))
