-- ===== src/NextRun/First.antt =====
-- GetNextExecutionTime finds the first activation that is not in the past.
use scheduler.Base.{
  ℕ, zero, suc, ◌+◌, ◌-◌, ◌≤◌, ◌<◌, ◌≡◌, refl, inl, inr, true, ◌&&◌, String, some, arith, ltb,
  Bool-cases,
}
use scheduler.Models.{Job}
use scheduler.NextRun.{Schedule, World, rounds_to_past, advance, start_of, get_next_execution_time}

-- The n-th activation from `t`.
abbrev pub activation : (ℕ → ℕ) → ℕ → ℕ → ℕ
activation next zero t = t
activation next (suc n) t = activation next n (next t)

-- `r` is the first of t, next t, next (next t), … that is not before `now`.
abbrev pub IsFirst : (ℕ → ℕ) → ℕ → ℕ → ℕ → Type 0
IsFirst next now t r =
    (n : ℕ) × (r ≡ activation next n t) × (now ≤ r) × ((k : ℕ) → k < n → activation next k t < now)

IsFirst-now : (next : ℕ → ℕ) (now t : ℕ) → now ≤ t → IsFirst next now t t
IsFirst-now next now t h = (0, refl, h, λ k lt. absurd (omega arith))

IsFirst-later :
    (next : ℕ → ℕ) (now t r : ℕ) → t < now → IsFirst next now (next t) r → IsFirst next now t r
IsFirst-later next now t r h (n, e, le, before) = (suc n, e, le, earlier)
  where
    earlier : (k : ℕ) → k < suc n → activation next k t < now
    earlier zero lt = h
    earlier (suc k) lt = before k (omega arith)

-- The two tests of the loop come to the second one.
test_past : (now t : ℕ) → (rounds_to_past now t && ltb t now) ≡ ltb t now
test_past now t = ground arith

advance-IsFirst :
    (s : Schedule) (zone : String) (now rounds t : ℕ)
    → now ≤ t + rounds
    → IsFirst (s.next zone) now t (advance rounds (s.next zone) now t)
unfolding advance
advance-IsFirst s zone now zero t h = IsFirst-now (s.next zone) now t (omega arith)
advance-IsFirst s zone now (suc rounds) t h = rw (test_past now t) (elim (Bool-cases (ltb t now)) [
  | inl past ↦ rw past (
      IsFirst-later (s.next zone) now t _ (ground (arith, past))
        (advance-IsFirst s zone now rounds (s.next zone t) (omega (arith, s.later zone t))))
  | inr done ↦ rw done (IsFirst-now (s.next zone) now t (ground (arith, done)))
])

-- For a spec that parses and a zone that exists, GetNextExecutionTime returns, of the last execution
-- (or the creation, for a job that never ran) and the activations after it in the zone of the job, the
-- first that is not before now.
pub get_next_execution_time-IsFirst :
    (w : World) (job : Job) (s : Schedule)
    → w.parse job.spec ≡ some s
    → w.has_location job.timezone ≡ true
    → (r : ℕ) × (get_next_execution_time w job ≡ some r)
      × IsFirst (s.next job.timezone) w.now (start_of job) r
unfolding get_next_execution_time
get_next_execution_time-IsFirst w job s parsed located = (
  advance (w.now - start_of job) (s.next job.timezone) w.now (start_of job),
  rw (parsed, located),
  advance-IsFirst s job.timezone w.now (w.now - start_of job) (start_of job) (omega arith),
)

-- A job that can be timed: its spec parses and its zone exists.
abbrev pub IsTimed : World → Job → Type 0
IsTimed w job = (s : Schedule) × (w.parse job.spec ≡ some s) × (w.has_location job.timezone ≡ true)

-- Whatever date of a last execution it is given, a job that can be timed gets a time not before now.
pub get_next_execution_time-IsTimed :
    (w : World) (job : Job)
    → IsTimed w job
    → (r : ℕ) × (get_next_execution_time w job ≡ some r) × (w.now ≤ r)
get_next_execution_time-IsTimed w job (s, parsed, located) =
    let (r, e, first) = get_next_execution_time-IsFirst w job s parsed located in (r, e, first.2)
