-- ===== src/AsyncTasks/Examples.antt =====
-- Small runs of the service of async tasks, and its theorems at them.
use scheduler.Base.{
  ℕ, ◌≡◌, refl, true, false, [], ◌∷◌, some, arith, comparable_uint, comparable_string,
}
use scheduler.Base.Maps.{lookup, store}
use scheduler.Models.{AsyncTask}
use scheduler.AsyncTasks.{
  AsyncTaskService, Outside, ok, new_async_task_manager, add_tasks, update_tasks_by_id,
  add_subscriber, receive, new_task, delete_subscriber, update_tasks_by_request_id,
}
use scheduler.AsyncTasks.Tasks.{IsWellFormed}
use scheduler.AsyncTasks.Steps.{Reachable, start, adds, Reachable-IsWellFormed}
use scheduler.AsyncTasks.Delivery.{receive-delivered}

-- Every insertion gives the id 8, every update succeeds.
abbrev outside : Outside
outside = record {
  node_id = 1;
  is_leader = false;
  batch_insert = λ tasks committed. ok (8 ∷ []);
  raft_batch_insert = λ tasks node. ok (8 ∷ []);
  update_task_state = λ t state output. true;
  raft_update_task_state = λ t state output. true;
  get_task = λ id. ok (new_task "" "" "");
}

abbrev task_eight : AsyncTask
task_eight = record (new_task "in" "request" "jobs") { id = 8 }

-- Task 8 is added.
abbrev one_task : AsyncTaskService
one_task = (add_tasks outside "in" "request" "jobs" (new_async_task_manager true)).1

run_tasks : Unit {0}
unfolding add_tasks update_tasks_by_id add_subscriber receive lookup store delete_subscriber
    update_tasks_by_request_id
run_tasks = tt

one_task-Reachable : Reachable one_task
one_task-Reachable = adds outside "in" "request" "jobs" (start true)

one_task_stored : lookup 8 one_task.task ≡ some task_eight
unfolding run_tasks
one_task_stored = refl

one_task_quiet : one_task.notifications ≡ []
unfolding run_tasks
one_task_quiet = refl

-- An update by request id stores the output, an update by id does not.
outputs_differ :
    (lookup 8 (update_tasks_by_request_id outside "request" 2 "out" one_task).1.task
      ≡ some (record task_eight { state = 2; output = "out" }))
    × (lookup 8 (update_tasks_by_id outside 8 2 "out" one_task).1.task
        ≡ some (record task_eight { state = 2 }))
unfolding run_tasks
outputs_differ = (refl, refl)

Reachable-IsWellFormed_example : IsWellFormed one_task
Reachable-IsWellFormed_example = Reachable-IsWellFormed one_task one_task-Reachable

receive-delivered_example :
    (receive 0 (update_tasks_by_id outside 8 2 "out" (add_subscriber 8 5 one_task).1).1).delivered
    ≡ (5, record task_eight { state = 2 }) ∷ []
unfolding run_tasks
receive-delivered_example =
    receive-delivered outside one_task 8 5 2 "out" task_eight one_task-Reachable one_task_stored
      (omega arith) refl one_task_quiet refl

-- Two notifications of task 8 are sent, the first in the state `state`.
abbrev told_twice : ℕ → AsyncTaskService
told_twice state = record (new_async_task_manager true) {
  task = (8, task_eight) ∷ [];
  subscribers = (8, (1, 5) ∷ []) ∷ [];
  notifications = record task_eight { state = state } ∷ record task_eight { state = 2 } ∷ [];
}
