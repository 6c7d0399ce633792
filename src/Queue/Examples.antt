-- ===== src/Queue/Examples.antt =====
-- Small inputs to the job queue, and its theorems at them.
use mathlib.Core.List.Perm
use scheduler.Base.{
  ℕ, ◌-◌, ◌≤◌, ◌^◌, ◌≡◌, refl, inl, true, false, List, [], ◌∷◌, Option, none, some, arith, length,
  All, map, comparable_uint,
}
use scheduler.Base.Maps.{lookup, store, delete}
use scheduler.Base.Floats.{float64}
use scheduler.Models.{Job, JobQueueLog}
use scheduler.Queue.{
  JobQueue, Outside, new_job_queue, add_servers, queue, queue_jobs, widen, hand_out, charge,
  get_next_server_to_queue, assign_job_range_to_servers, upper_of, append_at,
}
use scheduler.Queue.Ranges.{IsPartition, assign-IsPartition}
use scheduler.Queue.Widening.{IsReset}
use scheduler.Queue.Logs.{IsCluster, VisitsAll, holders, IsAddressed, queue_jobs-holders}

-- Node 1 leads a cluster with nodes 2, 3 and 4; version 7 is the last.
abbrev outside : Outside
outside = record { is_leader = true; node_id = 1; last_version = 7; visit = λ k m. m }

abbrev cluster : JobQueue
cluster = record {
  single_node_mode = false;
  allocations = (1, 0) ∷ (2, 5) ∷ (3, 0) ∷ (4, 2) ∷ [];
  min_id = 2 ^ 63 - 1;
  max_id = 2 ^ 63;
}

abbrev job : ℕ → Job
job n = record {
  id = n;
  project_id = 1;
  spec = "@every 1h";
  callback_url = "";
  data_text = "";
  execution_type = "http";
  start_date = 0;
  end_date = 0;
  last_execution_date = 0;
  timezone = "UTC";
  timezone_offset = 0;
  execution_id = "";
  date_created = 0;
}

-- Everything that a run of the queue computes with.
run_queue : Unit {0}
unfolding queue_jobs queue widen hand_out charge get_next_server_to_queue
    assign_job_range_to_servers upper_of append_at float64 lookup store delete new_job_queue
    add_servers
run_queue = tt

new_queue : JobQueue
unfolding add_servers new_job_queue store
new_queue = add_servers (1 ∷ 2 ∷ 3 ∷ []) new_job_queue

assign_ten :
    assign_job_range_to_servers 4 1 10 ≡ some ((1 ∷ 4 ∷ []) ∷ (5 ∷ 8 ∷ []) ∷ (9 ∷ 10 ∷ []) ∷ [])
unfolding run_queue
assign_ten = refl

assign_no_servers : assign_job_range_to_servers 0 1 10 ≡ some []
unfolding run_queue
assign_no_servers = refl

abbrev ranges : Option (List JobQueueLog × JobQueue) → List (List ℕ)
ranges none = []
ranges (some (logs, q)) =
    map (λ l. l.node_id ∷ l.lower_bound_job_id ∷ l.upper_bound_job_id ∷ []) logs

queue_jobs_ten :
    ranges (queue_jobs outside (job 10 ∷ job 1 ∷ job 4 ∷ []) cluster)
    ≡ (3 ∷ 1 ∷ 4 ∷ []) ∷ (4 ∷ 5 ∷ 8 ∷ []) ∷ (3 ∷ 9 ∷ 10 ∷ []) ∷ []
unfolding run_queue
queue_jobs_ten = refl

cluster-IsCluster : IsCluster outside 3 3 0 cluster
unfolding lookup
cluster-IsCluster = record {
  leads = refl;
  clustered = refl;
  known = refl;
  some_server = omega arith;
  few_servers = omega arith;
  listed = refl;
  different = λ e. omega (arith, e);
  room = omega arith;
}

outside-VisitsAll : VisitsAll outside
outside-VisitsAll k m = Perm.refl m

cluster-IsReset : IsReset cluster
cluster-IsReset = (refl, inl refl)

assign-IsPartition_example :
    (rs : List (List ℕ)) × (assign_job_range_to_servers 4 1 10 ≡ some rs)
    × IsPartition 3 1 10 rs
    × (length rs ≤ 3)
assign-IsPartition_example =
    assign-IsPartition 3 1 10 (omega arith) (omega arith) (omega arith) (omega arith)

queue_jobs-holders_example :
    (logs : List JobQueueLog) × (q' : JobQueue) × (queue_jobs outside
        (job 10 ∷ job 1 ∷ job 4 ∷ [])
        cluster
      ≡ some (logs, q'))
    × All (λ k. holders k.id logs ≡ 1) (job 10 ∷ job 1 ∷ job 4 ∷ [])
    × All (IsAddressed outside cluster.allocations) logs
    × (length logs ≤ 3)
    × IsReset q'
queue_jobs-holders_example =
    queue_jobs-holders outside 3 3 0 (job 10) (job 1 ∷ job 4 ∷ []) cluster outside-VisitsAll
      cluster-IsCluster cluster-IsReset (omega arith)
