-- ===== src/Executor/Fetch/Ranges.antt =====
-- Which jobs QueueExecutions schedules.
use scheduler.Base.{
  ℕ, zero, suc, ◌+◌, ◌-◌, ◌%◌, ◌^◌, ◌≤◌, ◌<◌, ◌≡◌, ◌≢◌, refl, sym, ◌∙◌, ap, subst, inl, inr, true,
  false, List, [], ◌∷◌, Option, some, arith, All, if◌then◌else◌, leb, ltb, Bool-cases,
  comparable_uint, get_elem?, ◌⊎◌,
}
use scheduler.Base.Words.{slt, slt-ltb, add64, sub64}
use scheduler.Base.Floats.{float_min_exact}
use scheduler.Models.{Job, JobQueueLog}
use scheduler.NextRun.First.{IsTimed}
use scheduler.Executor.{JobExecutor, Context}
use scheduler.Executor.Schedule.{schedule_jobs, job_ids}
use scheduler.Executor.Schedule.Rounds.{IsReady}
use scheduler.Executor.Schedule.Future.{HasKnownState, schedule_jobs-IsReady}
use scheduler.Executor.Fetch.{
  GetJobs, bounds, next_upper, fetch_loop, fetch_once, fetch, queue_executions,
}

pub sub64-minus : (a b : ℕ) → a < 2 ^ 63 → b ≤ a → sub64 a b ≡ a - b
sub64-minus a b small le = omega arith

near_bound :
    (upper current : ℕ)
    → current < upper
    → ltb (upper - current) 5461 ≡ true
    → upper ≡ (if leb (current + 5462) upper then current + 5462 else upper)
near_bound upper current lt near = ground (arith, near)

-- The upper bound of the next batch.
pub next_upper-least :
    (upper current : ℕ)
    → upper < 2 ^ 52
    → current < upper
    → next_upper upper current ≡ (if leb (current + 5462) upper then current + 5462 else upper)
unfolding next_upper
next_upper-least upper current small lt =
    let sum : add64 (add64 current 1) 5461 ≡ current + 5462 = ground arith in
    let exact =
      float_min_exact (add64 (add64 current 1) 5461) upper (omega (arith, sum)) (omega arith) in
    let test : slt (sub64 upper current) 5461 ≡ ltb (upper - current) 5461 =
      rw (sub64-minus upper current (omega arith) (omega arith))
        (slt-ltb (upper - current) 5461 (omega arith) (omega arith)) in
    elim (Bool-cases (ltb (upper - current) 5461)) [
      | inl near ↦ rw (test ∙ near) (near_bound upper current lt near)
      | inr far ↦ rw (test ∙ far) (exact ∙ ap (λ n. if leb n upper then n else upper) sum)
    ]

-- Each query of the database is answered with jobs that can be scheduled, and with all that are
-- stored under the ids that it asks for.
abbrev pub Serves : Context → GetJobs → (ℕ → Type 0) → Type 0
Serves c get stored =
    (lower upper : ℕ)
    → (jobs : List Job) × (get lower upper ≡ some jobs)
      × All (IsTimed c.world) jobs
      × All (HasKnownState (c.last_logs (job_ids jobs))) jobs
      × ((i : ℕ)
          → stored i
          → lower ≤ i
          → i ≤ upper
          → (k : ℕ) × (get_elem? (job_ids jobs) k ≡ some i))

-- The stored jobs between two ids are ready, and what was ready still is.
abbrev Covers : Context → (ℕ → Type 0) → ℕ → ℕ → JobExecutor → Option JobExecutor → Type 0
Covers c stored lower upper e r =
    (e' : JobExecutor) × (r ≡ some e')
    × ((i : ℕ) → stored i → lower ≤ i → i ≤ upper → IsReady c.world i e')
    × ((i : ℕ) → IsReady c.world i e → IsReady c.world i e')

All-get_elem? : (P : ℕ → Type 0) (xs : List ℕ) (k i : ℕ) → All P xs → get_elem? xs k ≡ some i → P i
All-get_elem? P [] k i all at = absurd (cc)
All-get_elem? P (x ∷ xs) zero i all at = let same : x ≡ i = cc in subst P same all.0
All-get_elem? P (x ∷ xs) (suc k) i all at = All-get_elem? P xs k i all.1 at

schedule_jobs-Covers :
    (c : Context) (get : GetJobs) (stored : ℕ → Type 0) (lower upper : ℕ) (e : JobExecutor)
    → Serves c get stored
    → (jobs : List Job) × (get lower upper ≡ some jobs)
      × Covers c stored lower upper e (schedule_jobs c jobs e)
schedule_jobs-Covers c get stored lower upper e serves =
    let (jobs, answer, timed, known, complete) = serves lower upper in
    let (e', done, ready, keep) = schedule_jobs-IsReady c jobs e timed known in
    (
      jobs,
      answer,
      (
        e',
        done,
        λ i s l u.
            let (k, at) = complete i s l u in
            All-get_elem? (λ k. IsReady c.world k e') (job_ids jobs) k i ready at,
        keep,
      ),
    )

-- Two batches one after the other.
Covers-step :
    (c : Context) (stored : ℕ → Type 0) (lower middle upper : ℕ) (e e' : JobExecutor)
    (r : Option JobExecutor)
    → ((i : ℕ) → stored i → lower ≤ i → i ≤ middle → IsReady c.world i e')
    → ((i : ℕ) → IsReady c.world i e → IsReady c.world i e')
    → Covers c stored (middle + 1) upper e' r
    → Covers c stored lower upper e r
Covers-step c stored lower middle upper e e' r first keep (e'', done, later, keep') = (
  e'',
  done,
  λ i s l u. elim (Bool-cases (leb i middle)) [
    | inl early ↦ keep' i (first i s l (ground (arith, early)))
    | inr late ↦ later i s (ground (arith, late)) u
  ],
  λ i k. keep' i (keep i k),
)

pub fetch_loop_done :
    (c : Context) (get : GetJobs) (rounds lower upper current : ℕ) (e : JobExecutor)
    → slt lower upper ≡ false
    → fetch_loop rounds c get upper lower current e ≡ some e
unfolding fetch_loop
fetch_loop_done c get zero lower upper current e stop = refl
fetch_loop_done c get (suc rounds) lower upper current e stop = rw stop

-- The end of a batch.
abbrev pub IsEnd : ℕ → ℕ → ℕ → Type 0
IsEnd lower upper current = (current ≡ upper) ⊎ ((current ≡ lower + 5461) × (current < upper))

pub next_upper-IsEnd :
    (upper current : ℕ)
    → upper < 2 ^ 52
    → current < upper
    → IsEnd (current + 1) upper (next_upper upper current)
next_upper-IsEnd upper current small lt =
    rw (next_upper-least upper current small lt) (elim (Bool-cases (ltb (current + 5462) upper)) [
      | inl more ↦ inr (ground (arith, more))
      | inr last ↦ inl (ground (arith, last))
    ])

-- The loop, from the batch that starts at `lower`.
fetch_loop-Covers :
    (c : Context) (get : GetJobs) (stored : ℕ → Type 0) (rounds lower upper current : ℕ)
    (e : JobExecutor)
    → Serves c get stored
    → upper < 2 ^ 52
    → upper ≤ lower + rounds
    → lower < upper
    → (upper - lower) % 5462 ≢ 0
    → IsEnd lower upper current
    → Covers c stored lower upper e (fetch_loop rounds c get upper lower current e)
unfolding fetch_loop
fetch_loop-Covers c get stored zero lower upper current e serves small enough lt odd end =
    absurd (omega arith)
fetch_loop-Covers c get stored (suc rounds) lower upper current e serves small enough lt odd end =
    let go : slt lower upper ≡ true =
      slt-ltb lower upper (omega arith) (omega arith) ∙ ground arith in
    let (jobs, answer, (e', done, first, keep)) =
      schedule_jobs-Covers c get stored lower current e serves in
    rw go (
      rw (answer, fetch_loop)
        (rw done (
          Covers-step c stored lower current upper e e' _ first keep (elim end [
            | inl last ↦
                let stop : slt (add64 current 1) upper ≡ false = ground (arith, last) in
                (
                  e',
                  fetch_loop_done c get rounds (add64 current 1) upper _ e' stop,
                  λ i s l u. absurd (omega (arith, last)),
                  λ i k. k,
                )
            | inr (batch, more) ↦
                let next : add64 current 1 ≡ current + 1 = omega arith in
                subst
                  (λ (n : ℕ).
                    Covers c stored (current + 1) upper e'
                      (fetch_loop rounds c get upper n (next_upper upper current) e'))
                  (sym next)
                  (fetch_loop-Covers c get stored rounds (current + 1) upper
                    (next_upper upper current) e' serves small (omega arith) (omega arith)
                    (λ h. odd (omega (arith, h, batch)))
                    (next_upper-IsEnd upper current small more))
          ]))))

not_multiple :
    (lower upper : ℕ)
    → ltb 5461 (upper - lower) ≡ true
    → (upper - lower ≤ 5461) ⊎ ((upper - lower) % 5462 ≢ 0)
    → (upper - lower) % 5462 ≢ 0
not_multiple lower upper far (inl near) = absurd (ground (arith, far, near))
not_multiple lower upper far (inr odd) = odd

fetch-Covers :
    (c : Context) (get : GetJobs) (stored : ℕ → Type 0) (lower upper : ℕ) (e : JobExecutor)
    → Serves c get stored
    → upper < 2 ^ 52
    → lower ≤ upper
    → (upper - lower ≤ 5461) ⊎ ((upper - lower) % 5462 ≢ 0)
    → Covers c stored lower upper e (fetch c get lower upper e)
unfolding fetch fetch_once
fetch-Covers c get stored lower upper e serves small le end =
    let difference = sub64-minus upper lower (omega arith) le in
    let test : slt 5461 (sub64 upper lower) ≡ ltb 5461 (upper - lower) =
      rw difference (slt-ltb 5461 (upper - lower) (omega arith) (omega arith)) in
    let start : add64 lower 5461 ≡ lower + 5461 = omega arith in
    elim (Bool-cases (ltb 5461 (upper - lower))) [
      | inl far ↦ rw (test ∙ far) (
          subst
            (λ (n : ℕ).
              Covers c stored lower upper e (fetch_loop n c get upper lower (add64 lower 5461) e))
            (sym difference)
            (fetch_loop-Covers c get stored (upper - lower) lower upper (add64 lower 5461) e serves
              small (omega arith) (ground (arith, far)) (not_multiple lower upper far end)
              (inr (start, ground (arith, far, start)))))
      | inr near ↦
          let (jobs, answer, covers) = schedule_jobs-Covers c get stored lower upper e serves in
          rw (test ∙ near) (rw (answer, fetch_once) covers)
    ]

-- With the log of one range [lower, upper] of ids below 2^52, and a database that answers each
-- query, with all stored jobs of the ids asked for, and with jobs whose specs parse, whose zones
-- exist, and whose last logs, if any, are in one of the three states: QueueExecutions returns, and
-- every stored job of the range is scheduled, at a time not in the past, if upper - lower is at
-- most 5461 or not a multiple of 5462. Whatever was scheduled so before still is.
pub queue_executions-IsReady :
    (c : Context) (get : GetJobs) (stored : ℕ → Type 0) (log : JobQueueLog) (e : JobExecutor)
    → Serves c get stored
    → log.upper_bound_job_id < 2 ^ 52
    → log.lower_bound_job_id ≤ log.upper_bound_job_id
    → (log.upper_bound_job_id - log.lower_bound_job_id ≤ 5461)
      ⊎ ((log.upper_bound_job_id - log.lower_bound_job_id) % 5462 ≢ 0)
    → (e' : JobExecutor) × (queue_executions c get (log ∷ []) e ≡ some e')
      × ((i : ℕ)
          → stored i
          → log.lower_bound_job_id ≤ i
          → i ≤ log.upper_bound_job_id
          → IsReady c.world i e')
      × ((i : ℕ) → IsReady c.world i e → IsReady c.world i e')
unfolding queue_executions bounds
queue_executions-IsReady c get stored log e serves small le end =
    let low : ltb log.lower_bound_job_id (2 ^ 63 - 1) ≡ true = ground arith in
    let high : ltb log.upper_bound_job_id (2 ^ 63) ≡ true = ground arith in
    rw (low, high)
      (fetch-Covers c get stored log.lower_bound_job_id log.upper_bound_job_id e serves small le
        end)
