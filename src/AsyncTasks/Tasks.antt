-- ===== src/AsyncTasks/Tasks.antt =====
-- The well-formed states, and the calls that store tasks.
use scheduler.Base.{
  ℕ, ◌≤◌, ◌≡◌, refl, sym, ◌∙◌, ap, inl, inr, false, ◌||◌, List, [], ◌∷◌, Option, none, some, String,
  if◌then◌else◌, comparable_uint, comparable_string, arith, ◌==◌, Bool-cases, Option-cases,
}
use scheduler.Base.Maps.{lookup, lookup-store}
use scheduler.Models.{AsyncTask}
use scheduler.AsyncTasks.{
  AsyncTaskService, Outside, Result, ok, error, panic, add_tasks, tasks_added, new_task, put_task,
  commit_update, update_loaded, update_tasks_by_request_id, update_requested, or_zero, or_no_map,
}

-- A task is stored under its id, and the ids of its subscribers are at most the last one given.
pub record IsWellFormed (m : AsyncTaskService) : Type 0 where
  pub keyed : (i : ℕ) (t : AsyncTask) → lookup i m.task ≡ some t → t.id ≡ i
  pub bounded :
      (i s callback : ℕ)
      → lookup s (or_no_map (lookup i m.subscribers)) ≡ some callback
      → s ≤ or_zero (lookup i m.subscriber_ids)

put_task-IsWellFormed :
    (i : ℕ) (t : AsyncTask) (m : AsyncTaskService)
    → t.id ≡ i
    → IsWellFormed m
    → IsWellFormed (put_task i t m)
put_task-IsWellFormed i t m own wf = record {
  keyed = λ j u e. elim (Bool-cases (i == j)) [
    | inl same ↦
        let eq : i ≡ j = ground (arith, same) in
        let put : t ≡ u = ground (arith, same, lookup-store i j t m.task, e) in
        ap (λ (x : AsyncTask). x.id) (sym put) ∙ own ∙ eq
    | inr other ↦ wf.keyed j u (ground (arith, other, lookup-store i j t m.task, e))
  ];
  bounded = wf.bounded;
}

pub add_tasks-IsWellFormed :
    (o : Outside) (input request_id service : String) (m : AsyncTaskService)
    → IsWellFormed m
    → IsWellFormed (add_tasks o input request_id service m).1
unfolding add_tasks
add_tasks-IsWellFormed o input request_id service m wf = added (
    if m.single_node_mode || o.is_leader
    then o.raft_batch_insert (new_task input request_id service ∷ []) o.node_id
    else o.batch_insert (new_task input request_id service ∷ []) false)
  where
    added :
        (r : Result (List ℕ)) → IsWellFormed (tasks_added (new_task input request_id service) r m).1
    added (ok []) = wf
    added (ok (id ∷ ids)) =
        let w =
          put_task-IsWellFormed id (record (new_task input request_id service) { id = id }) m refl
            wf in
        record { keyed = w.keyed; bounded = w.bounded }
    added (error status) = wf
    added panic = wf

commit_update-IsWellFormed :
    (o : Outside) (key : ℕ) (t : AsyncTask) (state : ℕ) (output : String) (m : AsyncTaskService)
    → t.id ≡ key
    → IsWellFormed m
    → IsWellFormed (commit_update o key t state output m).1
commit_update-IsWellFormed o key t state output m own wf =
    let w = put_task-IsWellFormed key t m own wf in
    elim (Bool-cases (
      if m.single_node_mode || o.is_leader
      then o.raft_update_task_state t state output
      else o.update_task_state t state output)) [
        | inl done ↦ rw done (record { keyed = w.keyed; bounded = w.bounded })
        | inr failed ↦ rw failed w
      ]

pub update_loaded-IsWellFormed :
    (o : Outside) (id state : ℕ) (output : String) (t : Option AsyncTask) (m : AsyncTaskService)
    → lookup id m.task ≡ t
    → IsWellFormed m
    → IsWellFormed (update_loaded o id state output t m).1
update_loaded-IsWellFormed o id state output none m e wf = wf
update_loaded-IsWellFormed o id state output (some t) m e wf =
    commit_update-IsWellFormed o id (record t { state = state }) state output m (wf.keyed id t e) wf

update_requested-IsWellFormed :
    (o : Outside) (state : ℕ) (output : String) (t : Option AsyncTask) (m : AsyncTaskService)
    → IsWellFormed m
    → IsWellFormed (update_requested o state output t m).1
update_requested-IsWellFormed o state output none m wf = wf
update_requested-IsWellFormed o state output (some t) m wf =
    commit_update-IsWellFormed o t.id (record t { state = state; output = output }) state output m
      refl wf

pub update_by_request-IsWellFormed :
    (o : Outside) (request_id : String) (state : ℕ) (output : String) (m : AsyncTaskService)
    → IsWellFormed m
    → IsWellFormed (update_tasks_by_request_id o request_id state output m).1
unfolding update_tasks_by_request_id
update_by_request-IsWellFormed o request_id state output m wf =
    elim (Option-cases (lookup request_id m.task_id_request_id_map)) [
      | inl unknown ↦ rw (unknown, update_tasks_by_request_id) wf
      | inr (id, known) ↦
          rw (known, update_tasks_by_request_id)
            (update_requested-IsWellFormed o state output (lookup id m.task) m wf)
    ]
