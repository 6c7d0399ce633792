-- ===== src/AsyncTasks/Delivery.antt =====
-- Who is told about a task.
use scheduler.Base.{
  ℕ, ◌+◌, ◌%◌, ◌^◌, ◌<◌, ◌≡◌, refl, sym, ◌∙◌, ap, subst, inl, inr, Bool, true, false, ◌||◌, List,
  [], ◌∷◌, ◌++◌, map, none, some, String, if◌then◌else◌, comparable_uint, comparable_string, arith,
  Option-cases, append-nil,
}
use scheduler.Base.Maps.{lookup, store, delete, lookup-store_self, lookup-delete_self}
use scheduler.Models.{AsyncTask}
use scheduler.AsyncTasks.{
  AsyncTaskService, Outside, Result, ok, error, panic, add_tasks, tasks_added, new_task,
  update_loaded, update_tasks_by_id, subscribe, add_subscriber, notify, received, take_at, receive,
  get_task_id_with_request_id, or_zero, or_no_map, is_final,
}
use scheduler.AsyncTasks.Steps.{Reachable, Reachable-IsWellFormed}

-- What the repository, or the raft log, says to an update.
abbrev pub update_succeeds : Outside → AsyncTaskService → AsyncTask → ℕ → String → Bool
update_succeeds o m t state output =
    if m.single_node_mode || o.is_leader
    then o.raft_update_task_state t state output
    else o.update_task_state t state output

-- A task that AddTasks has added is found by its request id, and can be subscribed to.
pub add_tasks-add_subscriber :
    (o : Outside) (input request_id service : String) (callback : ℕ) (m : AsyncTaskService)
    (ids : List ℕ)
    → (add_tasks o input request_id service m).0 ≡ ok ids
    → (id : ℕ) × (rest : List ℕ) × (sub : ℕ) × (ids ≡ id ∷ rest)
      × (get_task_id_with_request_id request_id (add_tasks o input request_id service m).1 ≡ id)
      × ((add_subscriber id callback (add_tasks o input request_id service m).1).0 ≡ ok sub)
unfolding add_tasks add_subscriber get_task_id_with_request_id
add_tasks-add_subscriber o input request_id service callback m ids h =
    added
      (if m.single_node_mode || o.is_leader
        then o.raft_batch_insert (new_task input request_id service ∷ []) o.node_id
        else o.batch_insert (new_task input request_id service ∷ []) false)
      h
  where
    added :
        (r : Result (List ℕ))
        → (tasks_added (new_task input request_id service) r m).0 ≡ ok ids
        → (id : ℕ) × (rest : List ℕ) × (sub : ℕ) × (ids ≡ id ∷ rest)
          × (or_zero (
                lookup request_id
                  (tasks_added (new_task input request_id service) r m).1.task_id_request_id_map)
              ≡ id)
          × ((subscribe id callback
                (lookup id (tasks_added (new_task input request_id service) r m).1.task)
                (tasks_added (new_task input request_id service) r m).1).0
              ≡ ok sub)
    added (ok []) e = absurd (cc)
    added (ok (id ∷ rest)) e = (
      id,
      rest,
      (or_zero (lookup id m.subscriber_ids) + 1) % 2 ^ 64,
      cc,
      ap or_zero (lookup-store_self request_id id m.task_id_request_id_map),
      rw (lookup-store_self id (record (new_task input request_id service) { id = id }) m.task),
    )
    added (error status) e = absurd (cc)
    added panic e = absurd (cc)

-- In a state that can be reached, a task that is known gets a new subscriber under an id that no other
-- subscriber of the task has, while the ids do not overflow; and the others stay.
pub add_subscriber-fresh :
    (m : AsyncTaskService) (id callback : ℕ) (t : AsyncTask)
    → Reachable m
    → lookup id m.task ≡ some t
    → or_zero (lookup id m.subscriber_ids) + 1 < 2 ^ 64
    → (sub : ℕ) × ((add_subscriber id callback m).0 ≡ ok sub)
      × (lookup sub (or_no_map (lookup id m.subscribers)) ≡ none)
      × (or_no_map (lookup id (add_subscriber id callback m).1.subscribers)
          ≡ store sub callback (or_no_map (lookup id m.subscribers)))
unfolding add_subscriber
add_subscriber-fresh m id callback t r here room =
    let wf = Reachable-IsWellFormed m r in
    let sub = (or_zero (lookup id m.subscriber_ids) + 1) % 2 ^ 64 in
    let own : t.id ≡ id = wf.keyed id t here in
    (
      sub,
      rw (here, add_subscriber),
      elim (Option-cases (lookup sub (or_no_map (lookup id m.subscribers)))) [
        | inl fresh ↦ fresh
        | inr (c, taken) ↦
            let below = wf.bounded id sub c taken in absurd (omega (arith, below, room))
      ],
      rw (here, add_subscriber)
          (ap or_no_map (
              lookup-store_self id (store sub callback (or_no_map (lookup t.id m.subscribers)))
                m.subscribers)
            ∙ ap (λ i. store sub callback (or_no_map (lookup i m.subscribers))) own),
    )

receive_first :
    (m : AsyncTaskService) (n u : AsyncTask) (ns : List AsyncTask)
    → m.listening ≡ true
    → m.notifications ≡ n ∷ ns
    → lookup n.id m.task ≡ some u
    → receive 0 m ≡ notify n (some u) (record m { notifications = ns })
unfolding receive
receive_first m n u ns runs sent known =
    ap (λ b. if b then received (take_at 0 m.notifications) m else m) runs
    ∙ ap (λ l. received (take_at 0 l) m) sent
    ∙ ap (λ x. notify n x (record m { notifications = ns })) known

receive_unknown :
    (m : AsyncTaskService) (n : AsyncTask) (ns : List AsyncTask)
    → m.listening ≡ true
    → m.notifications ≡ n ∷ ns
    → lookup n.id m.task ≡ none
    → receive 0 m ≡ record m { notifications = ns; listening = false }
unfolding receive
receive_unknown m n ns runs sent unknown =
    ap (λ b. if b then received (take_at 0 m.notifications) m else m) runs
    ∙ ap (λ l. received (take_at 0 l) m) sent
    ∙ ap (λ x. notify n x (record m { notifications = ns })) unknown

receive_stopped : (i : ℕ) (m : AsyncTaskService) → m.listening ≡ false → receive i m ≡ m
unfolding receive
receive_stopped i m stopped =
    ap (λ b. if b then received (take_at i m.notifications) m else m) stopped

-- The service after a task was subscribed to and updated.
abbrev updated : ℕ → ℕ → AsyncTask → AsyncTask → AsyncTaskService → AsyncTaskService
updated id callback t t' m =
    let s = (subscribe id callback (some t) m).1 in
    record s { task = store id t' s.task; notifications = s.notifications ++ t' ∷ [] }

subscribe_update :
    (o : Outside) (m : AsyncTaskService) (id callback state : ℕ) (output : String) (t : AsyncTask)
    → lookup id m.task ≡ some t
    → update_succeeds o m (record t { state = state }) state output ≡ true
    → (update_tasks_by_id o id state output (add_subscriber id callback m).1).1
      ≡ updated id callback t (record t { state = state }) m
unfolding update_tasks_by_id add_subscriber
subscribe_update o m id callback state output t here success =
    ap
      (λ x.
        (update_loaded o id state output (lookup id (subscribe id callback x m).1.task)
          (subscribe id callback x m).1).1)
      here
    ∙ ap (λ x. (update_loaded o id state output x (subscribe id callback (some t) m).1).1) here
    ∙ rw success

-- Whoever subscribes to a task is told of its next update: in a state that can be reached, in
-- which the listener runs, nothing is left to be received and the ids of the subscribers do not
-- overflow, if a known task gets a subscriber and then an update that the repository accepts, then
-- the receipt of its notification calls each subscriber of the task once, the new one included,
-- with the task in its new state.
pub receive-delivered :
    (o : Outside) (m : AsyncTaskService) (id callback state : ℕ) (output : String) (t : AsyncTask)
    → Reachable m
    → lookup id m.task ≡ some t
    → or_zero (lookup id m.subscriber_ids) + 1 < 2 ^ 64
    → m.listening ≡ true
    → m.notifications ≡ []
    → update_succeeds o m (record t { state = state }) state output ≡ true
    → (receive 0
        (update_tasks_by_id o id state output (add_subscriber id callback m).1).1).delivered
      ≡ m.delivered
        ++ map
            (λ p. (p.1, record t { state = state }))
            (store
              (or_zero (lookup id m.subscriber_ids) + 1)
              callback
              (or_no_map (lookup id m.subscribers)))
receive-delivered o m id callback state output t r here room runs none_sent success =
    let wf = Reachable-IsWellFormed m r in
    let t' = record t { state = state } in
    let own : t.id ≡ id = wf.keyed id t here in
    let m' = updated id callback t t' m in
    let sub = (or_zero (lookup id m.subscriber_ids) + 1) % 2 ^ 64 in
    let next : sub ≡ or_zero (lookup id m.subscriber_ids) + 1 = omega (arith, room) in
    let known : lookup t'.id m'.task ≡ some t' =
      ap (λ i. lookup i m'.task) own ∙ lookup-store_self id t' m.task in
    let subs : or_no_map (lookup t.id m'.subscribers)
        ≡ store sub callback (or_no_map (lookup t.id m.subscribers)) =
      ap (λ i. or_no_map (lookup i m'.subscribers)) own
      ∙ ap or_no_map (
          lookup-store_self id (store sub callback (or_no_map (lookup t.id m.subscribers)))
            m.subscribers) in
    ap (λ (x : AsyncTaskService). (receive 0 x).delivered)
      (subscribe_update o m id callback state output t here success)
    ∙ ap (λ (x : AsyncTaskService). x.delivered)
        (receive_first m' t' t' [] runs (ap (λ l. l ++ t' ∷ []) none_sent) known)
    ∙ ap (λ l. m.delivered ++ map (λ p. (p.1, t')) l) subs
    ∙ ap
        (λ i.
          m.delivered
          ++ map (λ p. (p.1, t')) (store sub callback (or_no_map (lookup i m.subscribers))))
        own
    ∙ ap
        (λ n.
          m.delivered
          ++ map (λ p. (p.1, t')) (store n callback (or_no_map (lookup id m.subscribers))))
        next

-- The first notification of a task takes all its subscribers off, also if the task goes on: if the
-- listener runs, a notification of a known task (stored under its id) in a state that is not final
-- is received, and then one of the same task, without a new subscriber in between, the second is
-- delivered to nobody.
pub receive-drops_subscribers :
    (m : AsyncTaskService) (n n' t : AsyncTask) (ns : List AsyncTask)
    → m.listening ≡ true
    → m.notifications ≡ n ∷ n' ∷ ns
    → lookup n.id m.task ≡ some t
    → t.id ≡ n.id
    → n'.id ≡ n.id
    → is_final n.state ≡ false
    → (receive 0 (receive 0 m)).delivered ≡ (receive 0 m).delivered
receive-drops_subscribers m n n' t ns runs sent known own same goes =
    let m' = notify n (some t) (record m { notifications = n' ∷ ns }) in
    let first : receive 0 m ≡ m' = receive_first m n t (n' ∷ ns) runs sent known in
    let still : lookup n'.id m'.task ≡ some t =
      ap (λ b. lookup n'.id (if b then delete t.id m.task else m.task)) goes
      ∙ ap (λ i. lookup i m.task) same
      ∙ known in
    let gone : or_no_map (lookup t.id m'.subscribers) ≡ [] =
      ap or_no_map (lookup-delete_self t.id m.subscribers) in
    ap (λ (x : AsyncTaskService). (receive 0 x).delivered) first
    ∙ ap (λ (x : AsyncTaskService). x.delivered) (receive_first m' n' t ns runs refl still)
    ∙ ap (λ l. m'.delivered ++ map (λ p. (p.1, n')) l) gone
    ∙ append-nil m'.delivered
    ∙ ap (λ (x : AsyncTaskService). x.delivered) (sym first)

-- A second notification of a task that is done stops the listener for good: if the listener runs,
-- a notification of a known task (stored under its id) in a final state is received, and then one
-- of the same task, then the listener stops and no notification of any task is received any more.
pub receive-stops :
    (m : AsyncTaskService) (n n' t : AsyncTask) (ns : List AsyncTask)
    → m.listening ≡ true
    → m.notifications ≡ n ∷ n' ∷ ns
    → lookup n.id m.task ≡ some t
    → t.id ≡ n.id
    → n'.id ≡ n.id
    → is_final n.state ≡ true
    → ((receive 0 (receive 0 m)).listening ≡ false)
      × ((i : ℕ) → receive i (receive 0 (receive 0 m)) ≡ receive 0 (receive 0 m))
receive-stops m n n' t ns runs sent known own same done =
    let m' = notify n (some t) (record m { notifications = n' ∷ ns }) in
    let stopped : AsyncTaskService = record m' { notifications = ns; listening = false } in
    let gone : lookup n'.id m'.task ≡ none =
      ap (λ b. lookup n'.id (if b then delete t.id m.task else m.task)) done
      ∙ ap (λ i. lookup i (delete t.id m.task)) (same ∙ sym own)
      ∙ lookup-delete_self t.id m.task in
    let end : receive 0 (receive 0 m) ≡ stopped =
      ap (receive 0) (receive_first m n t (n' ∷ ns) runs sent known)
      ∙ receive_unknown m' n' ns runs refl gone in
    (
      ap (λ (x : AsyncTaskService). x.listening) end,
      λ i. subst (λ x. receive i x ≡ x) (sym end) (receive_stopped i stopped refl),
    )
