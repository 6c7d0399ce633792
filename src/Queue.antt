-- ===== src/Queue.antt =====
-- pkg/service/queue/queue.go: the leader splits a range of job ids between the other nodes.
-- `minId` and `maxId` are int64, as bit patterns; `allocations` is a Go map.
pub mod Ranges
pub mod Servers
pub mod Widening
pub mod Logs
pub mod Balance
mod Examples
use scheduler.Base.{
  ℕ, zero, suc, ◌+◌, ◌-◌, Bool, true, false, not, ◌&&◌, List, [], ◌∷◌, ◌++◌, Option, none, some,
  ltb, leb, if◌then◌else◌, ◌==◌, comparable_uint, length,
}
use scheduler.Base.Words.{
  max_int64, min_int64, min_int16, add64, sub64, word64, slt, sle, sdiv64, is_negative,
}
use scheduler.Base.Floats.{float_of_int64, float_min, int64_of_float}
use scheduler.Base.Maps.{Map, lookup, store, delete}
use scheduler.Models.{Job, JobQueueLog}

pub record JobQueue : Type 0 where
  pub single_node_mode : Bool
  pub allocations : Map ℕ ℕ
  pub min_id : ℕ
  pub max_id : ℕ

-- NewJobQueue
unfoldable pub new_job_queue : JobQueue
new_job_queue = record {
  single_node_mode = false;
  allocations = [];
  min_id = max_int64;
  max_id = min_int64;
}

abbrev pub store_zeros : List ℕ → Map ℕ ℕ → Map ℕ ℕ
store_zeros [] m = m
store_zeros (n ∷ ns) m = store_zeros ns (store n 0 m)

unfoldable pub add_servers : List ℕ → JobQueue → JobQueue
add_servers node_ids q = record q { allocations = store_zeros node_ids q.allocations }

abbrev pub delete_all : List ℕ → Map ℕ ℕ → Map ℕ ℕ
delete_all [] m = m
delete_all (n ∷ ns) m = delete_all ns (delete n m)

unfoldable pub remove_servers : List ℕ → JobQueue → JobQueue
remove_servers node_ids q = record q { allocations = delete_all node_ids q.allocations }

-- The inner `if`: a slot for the current server.
abbrev pub ensure_slot : List (List ℕ) → ℕ → List (List ℕ)
ensure_slot sa current = if leb (length sa) current then sa ++ [] ∷ [] else sa

-- serverAllocations[i] = append(serverAllocations[i], lower, upper)
unfoldable pub append_at : ℕ → ℕ → ℕ → List (List ℕ) → List (List ℕ)
append_at i lower upper [] = []
append_at zero lower upper (s ∷ ss) = (s ++ lower ∷ upper ∷ []) ∷ ss
append_at (suc i) lower upper (s ∷ ss) = s ∷ append_at i lower upper ss

-- int64(math.Min(float64(epoc+cycle), float64(maxId)))
unfoldable pub upper_of : ℕ → ℕ → ℕ → ℕ
upper_of epoc cycle max_id =
    int64_of_float (float_min (float_of_int64 (add64 epoc cycle)) (float_of_int64 max_id))

-- The `for epoc <= maxId` loop. `none`: the rounds given were not enough.
-- (The assignment to upperBound under `maxId-upperBound < cycle` is dead: it is declared afresh.)
unfoldable pub assign_loop : ℕ → ℕ → ℕ → ℕ → ℕ → ℕ → List (List ℕ) → Option (List (List ℕ))
assign_loop zero servers cycle max_id epoc current sa = none
assign_loop (suc rounds) servers cycle max_id epoc current sa =
    let upper = upper_of epoc cycle max_id in
    let rest =
      assign_loop rounds servers cycle max_id (add64 upper 1)
        (if current + 1 == servers then 0 else current + 1)
        (append_at current epoc upper (ensure_slot sa current)) in
    if sle epoc max_id then rest else some sa

-- assignJobRangeToServers. `allocations` has `count` keys; with none of them `len - 1` is negative
-- and no branch is taken. math.Ceil of an integer quotient is that quotient,
-- and a quotient above 2 ^ 53, which a float64 may round, is exact here.
unfoldable pub assign_job_range_to_servers : ℕ → ℕ → ℕ → Option (List (List ℕ))
unfolding assign_loop
assign_job_range_to_servers zero min_id max_id = some []
assign_job_range_to_servers (suc zero) min_id max_id = some ((min_id ∷ max_id ∷ []) ∷ [])
assign_job_range_to_servers (suc (suc n)) min_id max_id =
    assign_loop (suc (suc (sub64 max_id min_id))) (suc n) (sdiv64 (sub64 max_id min_id) (suc n))
      max_id min_id 0 []

-- getNextServerToQueue: the scan over the map, in the order of the list.
unfoldable pub next_server : ℕ → ℕ → ℕ → Map ℕ ℕ → ℕ
next_server self least server [] = server
next_server self least server ((s, a) ∷ m) =
    let better = ltb a least && not (s == self) in
    next_server self (if better then a else least) (if better then s else server) m

unfoldable pub get_next_server_to_queue : ℕ → Map ℕ ℕ → ℕ
unfolding next_server
get_next_server_to_queue self m = next_server self max_int64 0 m

-- What a call reads from outside: the verdict of VerifyLeader, its node id, GetLastVersion, and the
-- order in which the k-th iteration visits the map.
pub record Outside : Type 0 where
  pub is_leader : Bool
  pub node_id : ℕ
  pub last_version : ℕ
  pub visit : ℕ → Map ℕ ℕ → Map ℕ ℕ

abbrev pub queue_log : ℕ → ℕ → ℕ → ℕ → JobQueueLog
queue_log node lower upper version = record {
  id = 0;
  node_id = node;
  lower_bound_job_id = lower;
  upper_bound_job_id = upper;
  version = version;
  date_created = 0;
}

abbrev pub or_zero : Option ℕ → ℕ
or_zero none = 0
or_zero (some n) = n

-- allocations[server] += upper - lower, on uint64
unfoldable pub charge : ℕ → ℕ → ℕ → Map ℕ ℕ → Map ℕ ℕ
charge server lower upper m = store server (add64 (or_zero (lookup server m)) (sub64 upper lower)) m

-- The `for j < len(serverAllocations)` loop: a log for each range, and the charged map. (A range
-- always has its two bounds; the last clause is never reached.)
unfoldable pub hand_out : Outside → ℕ → List (List ℕ) → Map ℕ ℕ → List JobQueueLog × Map ℕ ℕ
hand_out o j [] m = ([], m)
hand_out o j ((lower ∷ upper ∷ _) ∷ rs) m =
    let server = get_next_server_to_queue o.node_id (o.visit j m) in
    let r = hand_out o (j + 1) rs (charge server lower upper m) in
    (queue_log server lower upper o.last_version ∷ r.0, r.1)
hand_out o j (_ ∷ rs) m = ([], m)

-- `queue`: the logs that are handed to InsertJobQueueLogs, and the new state.
unfoldable pub queue : Outside → ℕ → ℕ → JobQueue → Option (List JobQueueLog × JobQueue)
unfolding hand_out assign_job_range_to_servers
queue o min_id max_id q =
    if not o.is_leader
    then some ([], q)
    else elim (assign_job_range_to_servers (length q.allocations) min_id max_id) [
      | none ↦ none
      | some ranges ↦
          if q.single_node_mode
          then some (queue_log o.node_id min_id max_id o.last_version ∷ [], q)
          else (let r = hand_out o 0 ranges q.allocations in
              some (r.0, record q { allocations = r.1 }))
    ]

-- The loop of `Queue` that widens [minId, maxId] to the ids of the jobs.
unfoldable pub widen : List Job → JobQueue → JobQueue
widen [] q = q
widen (job ∷ jobs) q =
    let id = word64 job.id in
    widen jobs (record q {
      max_id = if slt q.max_id id then id else q.max_id;
      min_id = if slt id q.min_id then id else q.min_id;
    })

-- The end of `Queue`: the bounds are reset, the upper one to math.MinInt16.
abbrev pub reset_bounds :
    Option (List JobQueueLog × JobQueue) → Option (List JobQueueLog × JobQueue)
reset_bounds none = none
reset_bounds (some (logs, q)) = some (logs, record q { min_id = max_int64; max_id = min_int16 })

-- `Queue`
unfoldable pub queue_jobs : Outside → List Job → JobQueue → Option (List JobQueueLog × JobQueue)
unfolding queue widen
queue_jobs o [] q = some ([], q)
queue_jobs o (job ∷ jobs) q =
    let w = widen (job ∷ jobs) q in reset_bounds (queue o w.min_id w.max_id w)
