-- ===== src/Services/Job.antt =====
-- pkg/service/job/job.go. The text of an error of AddTasks is left out of the one that wraps it.
pub mod Tasks
use Prim.Native.String.{◌++◌ as text_append}
use scheduler.Base.{
  ℕ, Bool, true, false, not, ◌||◌, ◌&&◌, List, [], ◌∷◌, ◌++◌, map, Option, none, some, String, ◌==◌,
  ltb, if◌then◌else◌, comparable_string, comparable_uint,
}
use scheduler.Models.{
  Job, Project, JobQueueLog, no_job, async_task_in_progress, async_task_success, async_task_fail,
}
use scheduler.AsyncTasks.{AsyncTaskService, Result, error, panic, add_tasks, update_tasks_by_id}
use scheduler.AsyncTasks.{ok as done}
use scheduler.Queue.{JobQueue, queue_jobs}
use scheduler.Sql.{
  Store, GenericError, http_error, Outcome, ok, err, panics, exits, loops, and_then_ok, and_then_in,
}
use scheduler.Repository.Job.{
  get_one_by_id, get_all_by_project_id, get_jobs_total_count_by_project_id, update_one_by_id,
  delete_one_by_id, batch_insert_jobs,
}
use scheduler.Repository.Project.{get_batch_projects_by_ids}
use scheduler.Services.{Paginated}

-- What the service writes to: the database, the job queue with the logs it made, and the tasks.
pub record JobService (D : Type 0) : Type 0 where
  pub db : D
  pub queue : JobQueue
  pub logs : List JobQueueLog
  pub tasks : AsyncTaskService

-- What it calls: cron.Parse and time.LoadLocation, whether they give no error; json.Marshal; how an id
-- is printed; the order of a map of ids; the clock.
pub record Outside : Type 0 where
  pub parses : String → Bool
  pub loads : String → Bool
  pub jobs_json : List Job → Option String
  pub error_json : GenericError → Option String
  pub decimal : ℕ → String
  pub order : List ℕ → List ℕ
  pub now : ℕ
  pub queue : scheduler.Queue.Outside
  pub tasks : scheduler.AsyncTasks.Outside

-- The work that BatchInsertJobs leaves to the dispatcher.
pub record Insertion : Type 0 where
  pub task_id : ℕ
  pub jobs : List Job

abbrev pub invalid_spec : Job → GenericError
invalid_spec job = http_error 400 (text_append "job spec is not valid " job.spec)

abbrev pub invalid_timezone : Job → GenericError
invalid_timezone job =
    http_error 400 (text_append "job timezone is not valid, provided timezone is " job.timezone)

-- The first loop of BatchInsertJobs.
unfoldable pub validate : Outside → List Job → Outcome GenericError (Unit {0})
validate o [] = ok tt
validate o (job ∷ jobs) =
    let rest = validate o jobs in
    if job.spec == "" || not (o.parses job.spec)
    then err (invalid_spec job)
    else if job.timezone == "" || job.timezone == "Local"
    then err (invalid_timezone job)
    else if not (o.loads job.timezone)
    then err (invalid_timezone job)
    else rest

unfoldable pub is_project : ℕ → List Project → Bool
is_project id [] = false
is_project id (p ∷ ps) = p.id == id || is_project id ps

-- The loop that looks for the project of each job.
unfoldable pub find_projects : Outside → List Project → List Job → Outcome GenericError (Unit {0})
unfolding is_project
find_projects o ps [] = ok tt
find_projects o ps (job ∷ jobs) =
    let rest = find_projects o ps jobs in
    if is_project job.project_id ps
    then rest
    else err (
        http_error 404 (
          text_append "a project in the payload does not exitst. project id "
            (o.decimal job.project_id)))

-- The ids, and the work that is queued; a result without ids has its first one read when the work runs.
abbrev pub task_added :
    {D : Type 0}
    → List Job
    → JobService D
    → Result (List ℕ) × AsyncTaskService
    → Outcome GenericError (List ℕ × List Insertion) × JobService D
task_added jobs s (done [], ts) = (panics, record s { tasks = ts })
task_added jobs s (done (id ∷ ids), ts) =
    (ok (id ∷ ids, record { task_id = id; jobs = jobs } ∷ []), record s { tasks = ts })
task_added jobs s (error status, ts) =
    (err (http_error 500 "failed to create async tasks "), record s { tasks = ts })
task_added jobs s (panic, ts) = (panics, record s { tasks = ts })

-- The loop over the ids of inserted jobs; an id past the jobs is a panic.
unfoldable pub with_ids : ℕ → List ℕ → List Job → Option (List Job)
with_ids now [] jobs = some jobs
with_ids now (id ∷ ids) [] = none
with_ids now (id ∷ ids) (job ∷ jobs) = elim (with_ids now ids jobs) [
  | none ↦ none
  | some rest ↦ some (record job { id = id; date_created = now; last_execution_date = now } ∷ rest)
]

-- QueueJobs
unfoldable pub queued : {D : Type 0} → Outside → List Job → JobService D → Option (JobService D)
unfolding queue_jobs
queued o jobs s = elim (queue_jobs o.queue jobs s.queue) [
  | none ↦ none
  | some (logs, q) ↦ some (record s { queue = q; logs = s.logs ++ logs })
]

-- An update of the task whose error is logged at most.
abbrev pub task_told :
    {D : Type 0} → Result (Unit {0}) × AsyncTaskService → JobService D → Option (JobService D)
task_told (done u, ts) s = some (record s { tasks = ts })
task_told (error status, ts) s = some (record s { tasks = ts })
task_told (panic, ts) s = none

abbrev pub told :
    {D : Type 0} → Outside → ℕ → ℕ → Option String → JobService D → Option (JobService D)
told o id state none s = some s
told o id state (some output) s = task_told (update_tasks_by_id o.tasks id state output s.tasks) s

module _ {D : Type 0} (l : Store D) (o : Outside) where
  unfoldable pub get_jobs_by_project_id :
      ℕ → ℕ → ℕ → String → D → Outcome GenericError (Paginated Job)
  unfolding get_jobs_total_count_by_project_id get_all_by_project_id
  get_jobs_by_project_id project_id offset limit order_by db =
      and_then_ok (get_jobs_total_count_by_project_id l project_id db) (λ count.
        let start = if ltb count offset then count else offset in
        and_then_ok (get_all_by_project_id l project_id start limit order_by db)
          (λ jobs. ok (record { total = count; offset = start; limit = limit; page = jobs })))

  unfoldable pub get_job : Job → D → Outcome GenericError Job
  unfolding get_one_by_id
  get_job job db = get_one_by_id l job db

  -- The fields of a job that an update may change, where they are given.
  abbrev pub changed : Job → Job → Job
  changed job current = record current {
    data_text = if job.data_text == "" then current.data_text else job.data_text;
    callback_url = if job.callback_url == "" then current.callback_url else job.callback_url;
    execution_type =
        if job.execution_type == "" then current.execution_type else job.execution_type;
  }

  unfoldable pub update_job : Job → D → Outcome GenericError Job × D
  unfolding get_one_by_id update_one_by_id
  update_job job db =
      and_then_in (get_one_by_id l (record no_job { id = job.id }) db, db)
        (λ current db'.
          and_then_in (update_one_by_id l (changed job current) db')
            (λ count db''. (get_one_by_id l (changed job current) db'', db'')))

  abbrev pub job_deleted : Outcome GenericError ℕ → Outcome GenericError (Unit {0})
  job_deleted (ok count) =
      if ltb count 1 then err (http_error 500 "could not find and delete job") else ok tt
  job_deleted (err e) = err (http_error 500 e.message)
  job_deleted panics = panics
  job_deleted exits = exits
  job_deleted loops = loops

  unfoldable pub delete_job : Job → D → Outcome GenericError (Unit {0}) × D
  unfolding get_one_by_id delete_one_by_id
  delete_job job db =
      and_then_in (get_one_by_id l job db, db)
        (λ found db'. let r = delete_one_by_id l found db' in (job_deleted r.0, r.1))

  -- BatchInsertJobs, up to the work that it queues.
  unfoldable pub insert_jobs :
      String
      → List Job
      → JobService D
      → Outcome GenericError (List ℕ × List Insertion) × JobService D
  unfolding get_batch_projects_by_ids validate find_projects add_tasks
  insert_jobs request_id [] s = (ok ([], []), s)
  insert_jobs request_id (job ∷ jobs) s =
      let all = job ∷ jobs in
      and_then_in (validate o all, s)
        (λ u s1.
          and_then_in
            (get_batch_projects_by_ids l o.order (map (λ (j : Job). j.project_id) all) s1.db, s1)
            (λ ps s2.
              and_then_in (find_projects o ps all, s2)
                (λ v s3. elim (o.jobs_json all) [
                  | none ↦ (err (http_error 500 "failed to convert json to string"), s3)
                  | some input ↦
                      task_added all s3 (add_tasks o.tasks input request_id "create_job" s3.tasks)
                ])))

  -- The work from the answer of the repository. `none`: a panic, or an end of the process.
  abbrev pub inserted :
      Insertion → Outcome GenericError (List ℕ) → JobService D → Option (JobService D)
  inserted w (ok ids) s = elim (with_ids o.now ids w.jobs) [
    | none ↦ none
    | some jobs ↦ elim (queued o jobs s) [
      | none ↦ none
      | some s' ↦ told o w.task_id async_task_success (o.jobs_json jobs) s'
    ]
  ]
  inserted w (err e) s =
      told o w.task_id async_task_fail
        (o.error_json
          (http_error 500 (text_append "failed to batch insert job repository: " e.message)))
        s
  inserted w panics s = none
  inserted w exits s = none
  inserted w loops s = none

  abbrev pub started :
      Insertion → Result (Unit {0}) × AsyncTaskService → JobService D → Option (JobService D)
  started w (done u, ts) s =
      let r = batch_insert_jobs l o.now w.jobs s.db in
      inserted w r.0 (record s { tasks = ts; db = r.1 })
  started w (error status, ts) s = some (record s { tasks = ts })
  started w (panic, ts) s = none

  -- The function that BatchInsertJobs queues; it ends where the task cannot be updated.
  unfoldable pub run_insertion : Insertion → JobService D → Option (JobService D)
  run_insertion w s =
      started w (update_tasks_by_id o.tasks w.task_id async_task_in_progress "" s.tasks) s
