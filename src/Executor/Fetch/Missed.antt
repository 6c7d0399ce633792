-- ===== src/Executor/Fetch/Missed.antt =====
-- Which jobs QueueExecutions never asks for.
use scheduler.Base.{
  ℕ, zero, suc, ◌+◌, ◌-◌, ◌*◌, ◌^◌, ◌<◌, ◌≡◌, refl, sym, ◌∙◌, subst₂, inl, inr, true, false, [],
  ◌∷◌, arith, leb, ltb, Bool-cases, Option-cases,
}
use scheduler.Base.Words.{slt, slt-ltb, add64, sub64}
use scheduler.Models.{JobQueueLog}
use scheduler.Executor.{JobExecutor, Context}
use scheduler.Executor.Schedule.{schedule_jobs}
use scheduler.Executor.Fetch.{GetJobs, bounds, next_upper, fetch_loop, fetch, queue_executions}
use scheduler.Executor.Fetch.Ranges.{next_upper-least, sub64-minus, fetch_loop_done}

-- The two databases answer alike each query that ends below `upper`.
abbrev pub AgreeBelow : ℕ → GetJobs → GetJobs → Type 0
AgreeBelow upper get get' = (l u : ℕ) → u < upper → get l u ≡ get' l u

-- A round whose query is answered alike.
loop_alike :
    (c : Context) (get get' : GetJobs) (rounds lower upper current : ℕ) (e : JobExecutor)
    → get lower current ≡ get' lower current
    → ((e' : JobExecutor)
        → fetch_loop rounds c get upper (add64 current 1) (next_upper upper current) e'
          ≡ fetch_loop rounds c get' upper (add64 current 1) (next_upper upper current) e')
    → fetch_loop (suc rounds) c get upper lower current e
      ≡ fetch_loop (suc rounds) c get' upper lower current e
unfolding fetch_loop
loop_alike c get get' rounds lower upper current e same rest = elim (Bool-cases (slt lower upper)) [
  | inr stop ↦ rw stop
  | inl go ↦
      rw (go, same, fetch_loop)
        (elim (Option-cases (get' lower current)) [
          | inl failed ↦ rw (failed, fetch_loop)
          | inr (jobs, answer) ↦
              rw (answer, fetch_loop)
                (elim (Option-cases (schedule_jobs c jobs e)) [
                  | inl panic ↦ rw panic
                  | inr (e', done) ↦ rw done (rest e')
                ])
        ])
]

-- `suc k` batches of 5462 ids are left before the last id.
loop_misses :
    (c : Context) (get get' : GetJobs) (k rounds lower upper : ℕ) (e : JobExecutor)
    → AgreeBelow upper get get'
    → upper < 2 ^ 52
    → upper ≡ lower + 5462 * suc k
    → fetch_loop rounds c get upper lower (lower + 5461) e
      ≡ fetch_loop rounds c get' upper lower (lower + 5461) e
unfolding fetch_loop
loop_misses c get get' k zero lower upper e agree small left = refl
loop_misses c get get' zero (suc rounds) lower upper e agree small left =
    loop_alike c get get' rounds lower upper (lower + 5461) e
      (agree lower (lower + 5461) (omega (arith, left)))
      (λ e'.
        let stop : slt (add64 (lower + 5461) 1) upper ≡ false = ground (arith, left) in
        fetch_loop_done c get rounds _ upper _ e' stop
        ∙ sym (fetch_loop_done c get' rounds _ upper _ e' stop))
loop_misses c get get' (suc k) (suc rounds) lower upper e agree small left =
    let next : add64 (lower + 5461) 1 ≡ lower + 5462 = omega (arith, left) in
    let more : leb (lower + 5461 + 5462) upper ≡ true = ground (arith, left) in
    let end : next_upper upper (lower + 5461) ≡ lower + 5462 + 5461 =
      next_upper-least upper (lower + 5461) small (omega (arith, left)) ∙ rw more (omega arith) in
    loop_alike c get get' rounds lower upper (lower + 5461) e
      (agree lower (lower + 5461) (omega (arith, left)))
      (λ e'.
        subst₂
          (λ (n m : ℕ).
            fetch_loop rounds c get upper n m e' ≡ fetch_loop rounds c get' upper n m e')
          (sym next) (sym end)
          (loop_misses c get get' k rounds (lower + 5462) upper e' agree small
            (omega (arith, left))))

fetch_misses :
    (c : Context) (get get' : GetJobs) (k lower upper : ℕ) (e : JobExecutor)
    → AgreeBelow upper get get'
    → upper < 2 ^ 52
    → upper ≡ lower + 5462 * suc k
    → fetch c get lower upper e ≡ fetch c get' lower upper e
unfolding fetch
fetch_misses c get get' k lower upper e agree small left =
    let start : add64 lower 5461 ≡ lower + 5461 = omega (arith, left) in
    let far : slt 5461 (sub64 upper lower) ≡ true =
      rw (sub64-minus upper lower (omega arith) (omega (arith, left)))
        (slt-ltb 5461 (upper - lower) (omega arith) (omega arith) ∙ ground (arith, left)) in
    rw (far, start) (loop_misses c get get' k (sub64 upper lower) lower upper e agree small left)

-- If upper - lower is a positive multiple of 5462 (ids below 2^52), QueueExecutions with the log of
-- that range never asks for the job with the last id: what the database answers to a query that
-- reaches it makes no difference.
pub queue_executions-misses_last :
    (c : Context) (get get' : GetJobs) (k : ℕ) (log : JobQueueLog) (e : JobExecutor)
    → AgreeBelow log.upper_bound_job_id get get'
    → log.upper_bound_job_id < 2 ^ 52
    → log.upper_bound_job_id ≡ log.lower_bound_job_id + 5462 * suc k
    → queue_executions c get (log ∷ []) e ≡ queue_executions c get' (log ∷ []) e
unfolding queue_executions bounds
queue_executions-misses_last c get get' k log e agree small left =
    let lower = log.lower_bound_job_id in
    let upper = log.upper_bound_job_id in
    let low : ltb lower (2 ^ 63 - 1) ≡ true = ground (arith, left) in
    let high : ltb upper (2 ^ 63) ≡ true = ground arith in
    rw (low, high) (fetch_misses c get get' k lower upper e agree small left)
