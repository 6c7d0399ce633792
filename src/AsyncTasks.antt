-- ===== src/AsyncTasks.antt =====
-- pkg/service/async_task/async_task.go: the tasks that run in the background, and who waits for them.
-- A callback is known by a number. The repository and the raft library answer what the parameters
-- say; a sent notification is received later, in any order.
pub mod Tasks
pub mod Subscribers
pub mod Steps
pub mod Delivery
mod Examples
use scheduler.Base.{
  ℕ, zero, suc, ◌+◌, ◌%◌, ◌^◌, Bool, true, false, ◌||◌, ◌&&◌, not, List, [], ◌∷◌, ◌++◌, map, Option,
  none, some, String, nat_beq, if◌then◌else◌, comparable_uint, comparable_string,
}
use scheduler.Base.Maps.{Map, lookup, store, delete}
use scheduler.Models.{
  AsyncTask, async_task_not_stated, async_task_in_progress, async_task_success, async_task_fail,
}

-- asyncTaskService. `notifications` are sent and not received, `delivered` are the calls of callbacks,
-- those of one notification in the order of the list, `listening` says whether the goroutine of
-- ListenForNotifications runs.
pub record AsyncTaskService : Type 0 where
  pub single_node_mode : Bool
  pub task : Map ℕ AsyncTask
  pub task_id_request_id_map : Map String ℕ
  pub subscribers : Map ℕ (Map ℕ ℕ)
  pub subscriber_ids : Map ℕ ℕ
  pub notifications : List AsyncTask
  pub listening : Bool
  pub delivered : List (ℕ × AsyncTask)

-- A value, a GenericError with its status, or a panic.
pub data Result {ℓ} (A : Type ℓ) : Type ℓ where
  ok : A → Result A
  error : ℕ → Result A
  panic : Result A

abbrev pub status_not_found : ℕ
status_not_found = 404

-- NewAsyncTaskManager, once ListenForNotifications was called.
abbrev pub new_async_task_manager : Bool → AsyncTaskService
new_async_task_manager single = record {
  single_node_mode = single;
  task = [];
  task_id_request_id_map = [];
  subscribers = [];
  subscriber_ids = [];
  notifications = [];
  listening = true;
  delivered = [];
}

-- The repository (the ids of inserted tasks, whether an update succeeds), and VerifyLeader.
pub record Outside : Type 0 where
  pub node_id : ℕ
  pub is_leader : Bool
  pub batch_insert : List AsyncTask → Bool → Result (List ℕ)
  pub raft_batch_insert : List AsyncTask → ℕ → Result (List ℕ)
  pub update_task_state : AsyncTask → ℕ → String → Bool
  pub raft_update_task_state : AsyncTask → ℕ → String → Bool
  pub get_task : ℕ → Result AsyncTask

abbrev pub new_task : String → String → String → AsyncTask
new_task input request_id service = record {
  id = 0;
  request_id = request_id;
  input = input;
  output = "";
  service = service;
  state = async_task_not_stated;
  date_created = 0;
}

abbrev pub put_task : ℕ → AsyncTask → AsyncTaskService → AsyncTaskService
put_task id t m = record m { task = store id t m.task }

-- The end of AddTasks; the first id of an empty list panics.
abbrev pub tasks_added :
    AsyncTask → Result (List ℕ) → AsyncTaskService → Result (List ℕ) × AsyncTaskService
tasks_added t (ok []) m = (panic, m)
tasks_added t (ok (id ∷ ids)) m = (
  ok (id ∷ ids),
  record (put_task id (record t { id = id }) m) {
    task_id_request_id_map = store t.request_id id m.task_id_request_id_map;
  },
)
tasks_added t (error status) m = (error status, m)
tasks_added t panic m = (panic, m)

unfoldable pub add_tasks :
    Outside → String → String → String → AsyncTaskService → Result (List ℕ) × AsyncTaskService
add_tasks o input request_id service m =
    let t = new_task input request_id service in
    tasks_added t
      (if m.single_node_mode || o.is_leader
        then o.raft_batch_insert (t ∷ []) o.node_id
        else o.batch_insert (t ∷ []) false)
      m

-- The end of the two updates: the task is stored, then the repository is told, and if it agrees the
-- notification is sent.
abbrev pub commit_update :
    Outside → ℕ → AsyncTask → ℕ → String → AsyncTaskService → Result (Unit {0}) × AsyncTaskService
commit_update o key t state output m =
    let m' = put_task key t m in
    if (if m.single_node_mode || o.is_leader
      then o.raft_update_task_state t state output
      else o.update_task_state t state output)
    then (ok tt, record m' { notifications = m'.notifications ++ t ∷ [] })
    else (error status_not_found, m')

abbrev pub update_loaded :
    Outside
    → ℕ
    → ℕ
    → String
    → Option AsyncTask
    → AsyncTaskService
    → Result (Unit {0}) × AsyncTaskService
update_loaded o id state output none m = (error status_not_found, m)
update_loaded o id state output (some t) m =
    commit_update o id (record t { state = state }) state output m

-- UpdateTasksById
unfoldable pub update_tasks_by_id :
    Outside → ℕ → ℕ → String → AsyncTaskService → Result (Unit {0}) × AsyncTaskService
update_tasks_by_id o id state output m = update_loaded o id state output (lookup id m.task) m

abbrev pub update_requested :
    Outside
    → ℕ
    → String
    → Option AsyncTask
    → AsyncTaskService
    → Result (Unit {0}) × AsyncTaskService
update_requested o state output none m = (error status_not_found, m)
update_requested o state output (some t) m =
    commit_update o t.id (record t { state = state; output = output }) state output m

-- UpdateTasksByRequestId
unfoldable pub update_tasks_by_request_id :
    Outside → String → ℕ → String → AsyncTaskService → Result (Unit {0}) × AsyncTaskService
unfolding lookup
update_tasks_by_request_id o request_id state output m =
    elim (lookup request_id m.task_id_request_id_map) [
      | none ↦ (error status_not_found, m)
      | some id ↦ update_requested o state output (lookup id m.task) m
    ]

abbrev pub or_zero : Option ℕ → ℕ
or_zero none = 0
or_zero (some n) = n

abbrev pub or_no_map : Option (Map ℕ ℕ) → Map ℕ ℕ
or_no_map none = []
or_no_map (some m) = m

abbrev pub subscribe : ℕ → ℕ → Option AsyncTask → AsyncTaskService → Result ℕ × AsyncTaskService
subscribe id callback none m = (error status_not_found, m)
subscribe id callback (some t) m =
    let sub = (or_zero (lookup id m.subscriber_ids) + 1) % 2 ^ 64 in
    (
      ok sub,
      record m {
        subscribers =
            store id (store sub callback (or_no_map (lookup t.id m.subscribers))) m.subscribers;
        subscriber_ids = store id sub m.subscriber_ids;
      },
    )

unfoldable pub add_subscriber : ℕ → ℕ → AsyncTaskService → Result ℕ × AsyncTaskService
add_subscriber id callback m = subscribe id callback (lookup id m.task) m

abbrev pub unsubscribe :
    ℕ → ℕ → Option (Map ℕ ℕ) → AsyncTaskService → Result (Unit {0}) × AsyncTaskService
unsubscribe id sub none m = (error status_not_found, m)
unsubscribe id sub (some subs) m =
    (ok tt, record m { subscribers = store id (delete sub subs) m.subscribers })

abbrev pub unsubscribe_task :
    ℕ → ℕ → Option AsyncTask → AsyncTaskService → Result (Unit {0}) × AsyncTaskService
unsubscribe_task id sub none m = (error status_not_found, m)
unsubscribe_task id sub (some t) m = unsubscribe id sub (lookup t.id m.subscribers) m

unfoldable pub delete_subscriber : ℕ → ℕ → AsyncTaskService → Result (Unit {0}) × AsyncTaskService
delete_subscriber id sub m = unsubscribe_task id sub (lookup id m.task) m

unfoldable pub get_task_id_with_request_id : String → AsyncTaskService → ℕ
get_task_id_with_request_id request_id m = or_zero (lookup request_id m.task_id_request_id_map)

-- GetTaskBlocking: a task that is done is in the channel at once, otherwise `callback` will send it.
-- The first part of the result says whether there is a channel, and what it holds.
abbrev pub blocking_subscribed :
    Result ℕ × AsyncTaskService → Result (Option (Option AsyncTask) × ℕ) × AsyncTaskService
blocking_subscribed (ok sub, m) = (ok (some none, sub), m)
blocking_subscribed (error status, m) = (error status, m)
blocking_subscribed (panic, m) = (panic, m)

abbrev pub blocking :
    ℕ
    → ℕ
    → Result AsyncTask
    → AsyncTaskService
    → Result (Option (Option AsyncTask) × ℕ) × AsyncTaskService
blocking id callback (error status) m = (error status, m)
blocking id callback panic m = (panic, m)
blocking id callback (ok t) m =
    if nat_beq t.state async_task_success
    then (ok (some (some t), 0), m)
    else if not (nat_beq t.state async_task_in_progress)
        && not (nat_beq t.state async_task_not_stated)
    then (ok (none, 0), m)
    else blocking_subscribed (add_subscriber id callback m)

unfoldable pub get_task_blocking :
    Outside → ℕ → ℕ → AsyncTaskService → Result (Option (Option AsyncTask) × ℕ) × AsyncTaskService
unfolding add_subscriber
get_task_blocking o id callback m = blocking id callback (o.get_task id) m

abbrev pub is_final : ℕ → Bool
is_final state = nat_beq state async_task_fail || nat_beq state async_task_success

-- The body of the loop of ListenForNotifications: on an unknown task the goroutine returns.
abbrev pub notify : AsyncTask → Option AsyncTask → AsyncTaskService → AsyncTaskService
notify n none m = record m { listening = false }
notify n (some t) m = record m {
  delivered = m.delivered ++ map (λ p. (p.1, n)) (or_no_map (lookup t.id m.subscribers));
  task = if is_final n.state then delete t.id m.task else m.task;
  subscribers = delete t.id m.subscribers;
}

-- The notification at a position, and the others.
abbrev pub take_at : ℕ → List AsyncTask → Option (AsyncTask × List AsyncTask)
take_at i [] = none
take_at zero (n ∷ ns) = some (n, ns)
take_at (suc i) (n ∷ ns) = elim (take_at i ns) [ none ↦ none | some r ↦ some (r.0, n ∷ r.1) ]

abbrev pub received : Option (AsyncTask × List AsyncTask) → AsyncTaskService → AsyncTaskService
received none m = m
received (some r) m = notify r.0 (lookup r.0.id m.task) (record m { notifications = r.1 })

-- The listener receives one of the sent notifications, while it runs.
unfoldable pub receive : ℕ → AsyncTaskService → AsyncTaskService
receive i m = if m.listening then received (take_at i m.notifications) m else m
