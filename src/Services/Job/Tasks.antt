-- ===== src/Services/Job/Tasks.antt =====
-- The work that BatchInsertJobs of pkg/service/job/job.go queues, to its end.
use scheduler.Base.{
  ℕ, ◌<◌, ◌≡◌, refl, sym, ap, true, List, [], ◌∷◌, ◌++◌, map, length, ◌≤◌, ◌^◌, subst, some, String,
  All, ◌||◌, Bool-cases, inl, inr, arith, comparable_uint,
}
use scheduler.Base.Maps.{lookup, lookup-store_self}
use scheduler.Models.{Job, JobQueueLog, AsyncTask, async_task_in_progress, async_task_success}
use scheduler.AsyncTasks.{AsyncTaskService, Result, put_task, update_tasks_by_id}
use scheduler.AsyncTasks.{ok as done}
use scheduler.Queue.{JobQueue}
use scheduler.Queue.Widening.{IsReset, IsSmall}
use scheduler.Queue.Logs.{IsCluster, VisitsAll, IsAddressed, holders, queue_jobs-holders}
use scheduler.Sql.{Store, ok}
use scheduler.Repository.Job.{batch_insert_jobs}
use scheduler.Services.Job.{
  told, inserted, JobService, Outside, Insertion, with_ids, queued, run_insertion,
}

-- The repository takes every new state of a task.
pub record Agrees (o : scheduler.AsyncTasks.Outside) : Type 0 where
  pub by_leader :
      (t : AsyncTask) (state : ℕ) (output : String) → o.raft_update_task_state t state output ≡ true
  pub by_follower :
      (t : AsyncTask) (state : ℕ) (output : String) → o.update_task_state t state output ≡ true

update_tasks_by_id-lookup :
    (o : scheduler.AsyncTasks.Outside) (id state : ℕ) (output : String) (m : AsyncTaskService)
    (t : AsyncTask)
    → Agrees o
    → lookup id m.task ≡ some t
    → (m' : AsyncTaskService) × (update_tasks_by_id o id state output m ≡ (done tt, m'))
      × (lookup id m'.task ≡ some (record t { state = state }))
unfolding update_tasks_by_id
update_tasks_by_id-lookup o id state output m t agrees h =
    let t' : AsyncTask = record t { state = state } in
    let m' : AsyncTaskService = put_task id t' m in
    let known : lookup id m'.task ≡ some t' = lookup-store_self id t' m.task in
    elim (Bool-cases (m.single_node_mode || o.is_leader)) [
      | inl leads ↦ (
        record m' { notifications = m.notifications ++ t' ∷ [] },
        rw (h, leads, agrees.by_leader t' state output) refl,
        known,
      )
      | inr follows ↦ (
        record m' { notifications = m.notifications ++ t' ∷ [] },
        rw (h, follows, agrees.by_follower t' state output) refl,
        known,
      )
    ]

-- An id for each job leaves the jobs with the ids.
with_ids-ids :
    (now : ℕ) (ids : List ℕ) (jobs : List Job)
    → length ids ≡ length jobs
    → (jobs' : List Job) × (with_ids now ids jobs ≡ some jobs')
      × (map (λ (j : Job). j.id) jobs' ≡ ids)
unfolding with_ids
with_ids-ids now [] [] h = ([], refl, refl)
with_ids-ids now [] (j ∷ jobs) h = absurd (omega (arith, h))
with_ids-ids now (id ∷ ids) [] h = absurd (omega (arith, h))
with_ids-ids now (id ∷ ids) (j ∷ jobs) h =
    let (rest, e, same) = with_ids-ids now ids jobs (omega (arith, h)) in
    (
      record j { id = id; date_created = now; last_execution_date = now } ∷ rest,
      rw e refl,
      ap (λ is. id ∷ is) same,
    )

All-ids :
    (P : ℕ → Type 0) (jobs : List Job)
    → All P (map (λ (j : Job). j.id) jobs)
    → All (λ (j : Job). P j.id) jobs
All-ids P [] all = tt
All-ids P (j ∷ jobs) all = (all.0, All-ids P jobs all.1)

ids-All :
    (P : ℕ → Type 0) (jobs : List Job)
    → All (λ (j : Job). P j.id) jobs
    → All P (map (λ (j : Job). j.id) jobs)
ids-All P [] all = tt
ids-All P (j ∷ jobs) all = (all.0, ids-All P jobs all.1)

-- What a finished insertion leaves when BatchInsertJobs of the repository answers with `ids`, which need
-- not be the ids of the new rows: each of them is in the range of exactly one of the new logs, which
-- are for registered nodes other than the leader, and the task is a success.
pub record IsQueued {D : Type 0} (o : Outside) (id : ℕ) (t : AsyncTask) (ids : List ℕ)
    (s s' : JobService D) : Type 0 where
  pub logs : List JobQueueLog
  pub added : s'.logs ≡ s.logs ++ logs
  pub held : All (λ i. holders i logs ≡ 1) ids
  pub addressed : All (IsAddressed o.queue s.queue.allocations) logs
  pub reset : IsReset s'.queue
  pub succeeds : lookup id s'.tasks.task ≡ some (record t { state = async_task_success })

module _ {D : Type 0} (o : Outside) (servers a b : ℕ) (visits : VisitsAll o.queue) where
  queued-holders :
      (ids : List ℕ) (jobs : List Job) (s : JobService D)
      → 0 < length ids
      → map (λ (j : Job). j.id) jobs ≡ ids
      → All (λ i. i ≤ 2 ^ 52) ids
      → IsCluster o.queue servers a b s.queue
      → IsReset s.queue
      → (logs : List JobQueueLog) × (q : JobQueue) × (queued o jobs s
          ≡ some (record s { queue = q; logs = s.logs ++ logs }))
        × All (λ i. holders i logs ≡ 1) ids
        × All (IsAddressed o.queue s.queue.allocations) logs
        × IsReset q
  unfolding queued
  queued-holders ids [] s some_ids same small cluster reset =
      absurd (omega (arith, some_ids, ap length same))
  queued-holders ids (j ∷ jobs) s some_ids same small cluster reset =
      let few : All IsSmall (j ∷ jobs) =
        All-ids (λ i. i ≤ 2 ^ 52) (j ∷ jobs) (subst (All (λ i. i ≤ 2 ^ 52)) (sym same) small) in
      let (logs, q, e, held, addressed, short, again) =
        queue_jobs-holders o.queue servers a b j jobs s.queue visits cluster reset few in
      (
        logs,
        q,
        rw (e, queued) refl,
        subst (All (λ i. holders i logs ≡ 1)) same
            (ids-All (λ i. holders i logs ≡ 1) (j ∷ jobs) held),
        addressed,
        again,
      )

  -- Once BatchInsertJobs of the repository answers with one id up to 2 ^ 52 for each of at least one job,
  -- the work runs to its end: each answered id, be it the id of a new row or not, is in the range of
  -- exactly one new log, for a registered node that is not the
  -- leader, the queue is ready for the next call, and the task is a success. The task is known, the
  -- repository takes its states, the jobs have a json text, the bounds of the queue are reset, the leader's
  -- cluster has another node with room, and Range visits each server once.
  pub run_insertion-IsQueued :
      (l : Store D) (w : Insertion) (s : JobService D) (t : AsyncTask) (ids : List ℕ) (db' : D)
      → Agrees o.tasks
      → ((jobs : List Job) → (text : String) × (o.jobs_json jobs ≡ some text))
      → lookup w.task_id s.tasks.task ≡ some t
      → batch_insert_jobs l o.now w.jobs s.db ≡ (ok ids, db')
      → length ids ≡ length w.jobs
      → 0 < length ids
      → All (λ i. i ≤ 2 ^ 52) ids
      → IsCluster o.queue servers a b s.queue
      → IsReset s.queue
      → (s' : JobService D) × (run_insertion l o w s ≡ some s')
        × (s'.db ≡ db')
        × IsQueued o w.task_id t ids s s'
  unfolding run_insertion
  run_insertion-IsQueued l w s t ids db' agrees marshals known inserts count some_ids small cluster
        reset =
      let (m1, begun, known1) =
        update_tasks_by_id-lookup o.tasks w.task_id async_task_in_progress "" s.tasks t agrees
          known in
      let s1 : JobService D = record s { tasks = m1; db = db' } in
      let (jobs, with, same) = with_ids-ids o.now ids w.jobs count in
      let (logs, q, e, held, addressed, again) =
        queued-holders ids jobs s1 some_ids same small cluster reset in
      let (output, text) = marshals jobs in
      let (m2, ended, known2) =
        update_tasks_by_id-lookup o.tasks w.task_id async_task_success output m1
          (record t { state = async_task_in_progress }) agrees known1 in
      (
        record s1 { queue = q; logs = s.logs ++ logs; tasks = m2 },
        rw (begun, inserts, inserted, with, e, text, told, ended) refl,
        refl,
        record {
          logs = logs;
          added = refl;
          held = held;
          addressed = addressed;
          reset = again;
          succeeds = known2;
        },
      )
