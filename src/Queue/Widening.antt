-- ===== src/Queue/Widening.antt =====
-- The loop of `Queue` that widens the bounds to the ids of the jobs.
use scheduler.Base.{
  ℕ, ◌^◌, ◌≤◌, ◌≡◌, refl, sym, ◌∙◌, subst, List, [], ◌∷◌, arith, if◌then◌else◌, comparable_uint,
  All, ◌⊎◌,
}
use scheduler.Base.Words.{max_int64, min_int64, min_int16, slt, word64}
use scheduler.Models.{Job}
use scheduler.Queue.{JobQueue, widen}

-- The bounds as NewJobQueue or an earlier call of Queue leaves them.
abbrev pub IsReset : JobQueue → Type 0
IsReset q = (q.min_id ≡ max_int64) × ((q.max_id ≡ min_int64) ⊎ (q.max_id ≡ min_int16))

abbrev pub IsSmall : Job → Type 0
IsSmall j = j.id ≤ 2 ^ 52

abbrev pub IsWithin : ℕ → ℕ → Job → Type 0
IsWithin lo hi j = (lo ≤ j.id) × (j.id ≤ hi)

-- What the widening loop leaves: bounds around all jobs seen, and the rest of the state as it was.
pub record Widened (jobs : List Job) (q w : JobQueue) : Type 0 where
  ordered : w.min_id ≤ w.max_id
  small : w.max_id ≤ 2 ^ 52
  lower : w.min_id ≤ q.min_id
  upper : q.max_id ≤ w.max_id
  around : All (IsWithin w.min_id w.max_id) jobs
  same_mode : w.single_node_mode ≡ q.single_node_mode
  same_map : w.allocations ≡ q.allocations

Widened-cons :
    (j : Job) (js : List Job) (q r w : JobQueue)
    → IsWithin r.min_id r.max_id j
    → r.min_id ≤ q.min_id
    → q.max_id ≤ r.max_id
    → r.single_node_mode ≡ q.single_node_mode
    → r.allocations ≡ q.allocations
    → Widened js r w
    → Widened (j ∷ js) q w
Widened-cons j js q r w within lo hi mode same d = record {
  ordered = d.ordered;
  small = d.small;
  lower = omega (arith, d.lower);
  upper = omega (arith, d.upper);
  around = ((omega (arith, d.lower), omega (arith, d.upper)), d.around);
  same_mode = d.same_mode ∙ mode;
  same_map = d.same_map ∙ same;
}

-- One round of the widening loop.
abbrev pub widen_one : Job → JobQueue → JobQueue
widen_one job q = record q {
  max_id = if slt q.max_id (word64 job.id) then word64 job.id else q.max_id;
  min_id = if slt (word64 job.id) q.min_id then word64 job.id else q.min_id;
}

pub widen-Widened :
    (jobs : List Job) (q : JobQueue)
    → q.min_id ≤ q.max_id
    → q.max_id ≤ 2 ^ 52
    → All IsSmall jobs
    → Widened jobs q (widen jobs q)
unfolding widen
widen-Widened [] q le top all = record {
  ordered = le;
  small = top;
  lower = omega arith;
  upper = omega arith;
  around = tt;
  same_mode = refl;
  same_map = refl;
}
widen-Widened (j ∷ js) q le top all =
    Widened-cons j js q (widen_one j q) _ (ground arith) (ground arith) (ground arith) refl refl
      (widen-Widened js (widen_one j q) (ground arith) (ground arith) all.1)

-- The first job replaces both bounds of a reset queue.
pub widen_one_reset :
    (j : Job) (q : JobQueue)
    → IsReset q
    → IsSmall j
    → widen_one j q ≡ record q { max_id = j.id; min_id = j.id }
widen_one_reset j q (lo, hi) small = ground arith

abbrev pub Surrounds : List Job → JobQueue → JobQueue → Type 0
Surrounds jobs q w =
    (w.min_id ≤ w.max_id)
    × (w.max_id ≤ 2 ^ 52)
    × All (IsWithin w.min_id w.max_id) jobs
    × (w.single_node_mode ≡ q.single_node_mode)
    × (w.allocations ≡ q.allocations)

pub widen-Surrounds :
    (j : Job) (js : List Job) (q : JobQueue)
    → IsReset q
    → All IsSmall (j ∷ js)
    → Surrounds (j ∷ js) q (widen (j ∷ js) q)
unfolding widen
widen-Surrounds j js q reset all =
    subst (λ r. Surrounds (j ∷ js) q (widen js r)) (sym (widen_one_reset j q reset all.0))
      (let d =
          widen-Widened js (record q { max_id = j.id; min_id = j.id }) (omega arith) all.0 all.1 in
        (d.ordered, d.small, ((d.lower, d.upper), d.around), d.same_mode, d.same_map))
