-- ===== src/AsyncTasks/Steps.antt =====
-- The states that the service of async tasks can reach.
use scheduler.Base.{ℕ, ◌+◌, ◌^◌, ◌<◌, refl, Bool, String, comparable_uint, comparable_string}
use scheduler.Base.Maps.{lookup}
use scheduler.AsyncTasks.{
  AsyncTaskService, Outside, new_async_task_manager, add_tasks, update_tasks_by_id,
  update_tasks_by_request_id, add_subscriber, delete_subscriber, receive, or_zero,
}
use scheduler.AsyncTasks.Tasks.{
  IsWellFormed, add_tasks-IsWellFormed, update_loaded-IsWellFormed, update_by_request-IsWellFormed,
}
use scheduler.AsyncTasks.Subscribers.{
  subscribe-IsWellFormed, unsubscribe-IsWellFormed, receive-IsWellFormed,
}

-- The states that calls of the service and receipts of the listener lead to, while no id of a
-- subscriber overflows.
pub data Reachable : AsyncTaskService → Type 0 where
  start : (single : Bool) → Reachable (new_async_task_manager single)
  adds :
      (o : Outside) (input request_id service : String) {m : AsyncTaskService}
      → Reachable m
      → Reachable (add_tasks o input request_id service m).1
  updates :
      (o : Outside) (id state : ℕ) (output : String) {m : AsyncTaskService}
      → Reachable m
      → Reachable (update_tasks_by_id o id state output m).1
  updates_requested :
      (o : Outside) (request_id : String) (state : ℕ) (output : String) {m : AsyncTaskService}
      → Reachable m
      → Reachable (update_tasks_by_request_id o request_id state output m).1
  subscribes :
      (id callback : ℕ) {m : AsyncTaskService}
      → or_zero (lookup id m.subscriber_ids) + 1 < 2 ^ 64
      → Reachable m
      → Reachable (add_subscriber id callback m).1
  unsubscribes :
      (id sub : ℕ) {m : AsyncTaskService} → Reachable m → Reachable (delete_subscriber id sub m).1
  receives : (i : ℕ) {m : AsyncTaskService} → Reachable m → Reachable (receive i m)

start-IsWellFormed : (single : Bool) → IsWellFormed (new_async_task_manager single)
unfolding lookup
start-IsWellFormed single = record {
  keyed = λ i t h. absurd (cc);
  bounded = λ i s c h. absurd (cc);
}

-- In every state that the service can reach while no id of a subscriber overflows, each task is
-- stored under its own id, and the ids of the subscribers of a task are at most the last id that
-- was given for it.
pub Reachable-IsWellFormed : (m : AsyncTaskService) → Reachable m → IsWellFormed m
unfolding add_subscriber delete_subscriber update_tasks_by_id
Reachable-IsWellFormed _ (start single) = start-IsWellFormed single
Reachable-IsWellFormed _ (adds o input request_id service {m} r) =
    add_tasks-IsWellFormed o input request_id service m (Reachable-IsWellFormed m r)
Reachable-IsWellFormed _ (updates o id state output {m} r) =
    update_loaded-IsWellFormed o id state output (lookup id m.task) m refl
      (Reachable-IsWellFormed m r)
Reachable-IsWellFormed _ (updates_requested o request_id state output {m} r) =
    update_by_request-IsWellFormed o request_id state output m (Reachable-IsWellFormed m r)
Reachable-IsWellFormed _ (subscribes id callback {m} room r) =
    subscribe-IsWellFormed id callback (lookup id m.task) m refl room (Reachable-IsWellFormed m r)
Reachable-IsWellFormed _ (unsubscribes id sub {m} r) =
    unsubscribe-IsWellFormed id sub (lookup id m.task) m refl (Reachable-IsWellFormed m r)
Reachable-IsWellFormed _ (receives i {m} r) = receive-IsWellFormed i m (Reachable-IsWellFormed m r)
