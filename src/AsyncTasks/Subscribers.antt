-- ===== src/AsyncTasks/Subscribers.antt =====
-- The calls that change subscribers keep the states well-formed.
use scheduler.Base.{
  ℕ, ◌+◌, ◌%◌, ◌^◌, ◌≤◌, ◌<◌, ◌≡◌, sym, ◌∙◌, subst, inl, inr, Bool, true, false, [], Option, none,
  some, if◌then◌else◌, comparable_uint, comparable_string, arith, ◌==◌, Bool-cases, Option-cases,
}
use scheduler.Base.Maps.{Map, lookup, store, delete, lookup-store, lookup-delete}
use scheduler.Models.{AsyncTask}
use scheduler.AsyncTasks.{
  AsyncTaskService, subscribe, unsubscribe, unsubscribe_task, notify, received, take_at, receive,
  or_zero, or_no_map, is_final,
}
use scheduler.AsyncTasks.Tasks.{IsWellFormed}

pub subscribers-store :
    (i j : ℕ) (subs : Map ℕ ℕ) (m : Map ℕ (Map ℕ ℕ))
    → or_no_map (lookup j (store i subs m)) ≡ (if i == j then subs else or_no_map (lookup j m))
subscribers-store i j subs m =
    rw (lookup-store i j subs m)
      (elim (Bool-cases (i == j)) [ inl same ↦ rw same | inr other ↦ rw other ])

pub subscribers-delete :
    (i j : ℕ) (m : Map ℕ (Map ℕ ℕ))
    → or_no_map (lookup j (delete i m)) ≡ (if i == j then [] else or_no_map (lookup j m))
subscribers-delete i j m =
    rw (lookup-delete i j m)
      (elim (Bool-cases (i == j)) [ inl same ↦ rw same | inr other ↦ rw other ])

-- A new subscriber with the next id.
bounded-subscribe :
    (sub s callback c last : ℕ) (subs : Map ℕ ℕ)
    → sub ≡ last + 1
    → (lookup s subs ≡ some c → s ≤ last)
    → lookup s (store sub callback subs) ≡ some c
    → s ≤ sub
bounded-subscribe sub s callback c last subs next old h = elim (Bool-cases (sub == s)) [
  | inl newest ↦ ground (arith, newest)
  | inr older ↦
      let below = old (ground (arith, older, lookup-store sub s callback subs, h)) in
      omega (arith, below, next)
]

pub subscribe-IsWellFormed :
    (id callback : ℕ) (t : Option AsyncTask) (m : AsyncTaskService)
    → lookup id m.task ≡ t
    → or_zero (lookup id m.subscriber_ids) + 1 < 2 ^ 64
    → IsWellFormed m
    → IsWellFormed (subscribe id callback t m).1
subscribe-IsWellFormed id callback none m e room wf = wf
subscribe-IsWellFormed id callback (some t) m e room wf = record {
  keyed = wf.keyed;
  bounded = λ j s c h.
      let sub = (or_zero (lookup id m.subscriber_ids) + 1) % 2 ^ 64 in
      let subs = or_no_map (lookup t.id m.subscribers) in
      let h' = rw (subscribers-store id j (store sub callback subs) m.subscribers) at h in
      let new_ids = lookup-store id j sub m.subscriber_ids in
      let old : (lookup s subs ≡ some c → s ≤ or_zero (lookup id m.subscriber_ids)) = (λ l.
        wf.bounded id s c (
          subst (λ (i : ℕ). lookup s (or_no_map (lookup i m.subscribers)) ≡ some c)
            (wf.keyed id t e) l)) in
      elim (Bool-cases (id == j)) [
        | inr other ↦ rw (new_ids, other) (wf.bounded j s c (rw other at h'))
        | inl same ↦
            rw (new_ids, same)
              (bounded-subscribe sub s callback c (or_zero (lookup id m.subscriber_ids)) subs
                (omega (arith, room)) old (rw same at h'))
      ];
}

pub unsubscribe-IsWellFormed :
    (id sub : ℕ) (t : Option AsyncTask) (m : AsyncTaskService)
    → lookup id m.task ≡ t
    → IsWellFormed m
    → IsWellFormed (unsubscribe_task id sub t m).1
unsubscribe-IsWellFormed id sub none m e wf = wf
unsubscribe-IsWellFormed id sub (some t) m e wf = elim (Option-cases (lookup t.id m.subscribers)) [
  | inl nobody ↦ rw (nobody, unsubscribe) wf
  | inr (subs, here) ↦
      rw (here, unsubscribe)
        (record {
          keyed = wf.keyed;
          bounded = λ j s c h.
              let h' = rw (subscribers-store id j (delete sub subs) m.subscribers) at h in
              elim (Bool-cases (id == j)) [
                | inr other ↦ wf.bounded j s c (rw other at h')
                | inl same ↦
                    let eq : t.id ≡ j = wf.keyed id t e ∙ ground (arith, same) in
                    let left : lookup s subs ≡ some c = removed s subs c (rw same at h') in
                    wf.bounded j s c (
                      subst (λ (i : ℕ). lookup s (or_no_map (lookup i m.subscribers)) ≡ some c) eq
                        (subst (λ (o : Option (Map ℕ ℕ)). lookup s (or_no_map o) ≡ some c)
                          (sym here) left))
              ];
        })
]
  where
    removed :
        (s : ℕ) (subs : Map ℕ ℕ) (c : ℕ)
        → lookup s (delete sub subs) ≡ some c
        → lookup s subs ≡ some c
    removed s subs c h = ground (arith, h, lookup-delete sub s subs)

notify-keyed :
    (i : ℕ) (b : Bool) (id : ℕ) (m : Map ℕ AsyncTask) (u : AsyncTask)
    → lookup i (if b then delete id m else m) ≡ some u
    → lookup i m ≡ some u
notify-keyed i true id m u h = ground (arith, h, lookup-delete id i m)
notify-keyed i false id m u h = h

pub empty_lookup : (s c : ℕ) → lookup s (or_no_map none) ≡ some c → ⊥
unfolding lookup
empty_lookup s c h = cc

notify-IsWellFormed :
    (n : AsyncTask) (t : Option AsyncTask) (m : AsyncTaskService)
    → IsWellFormed m
    → IsWellFormed (notify n t m)
notify-IsWellFormed n none m wf = record { keyed = wf.keyed; bounded = wf.bounded }
notify-IsWellFormed n (some t) m wf = record {
  keyed = λ i u h. wf.keyed i u (notify-keyed i (is_final n.state) t.id m.task u h);
  bounded = λ i s c h.
      let h' = rw (subscribers-delete t.id i m.subscribers) at h in
      elim (Bool-cases (t.id == i)) [
        | inl same ↦ absurd (empty_lookup s c (rw same at h'))
        | inr other ↦ wf.bounded i s c (rw other at h')
      ];
}

pub receive-IsWellFormed :
    (i : ℕ) (m : AsyncTaskService) → IsWellFormed m → IsWellFormed (receive i m)
unfolding receive
receive-IsWellFormed i m wf = listens m.listening (elim (Option-cases (take_at i m.notifications)) [
  | inl nothing ↦ rw (nothing, received) wf
  | inr (r, sent) ↦
      rw (sent, received)
        (notify-IsWellFormed r.0 (lookup r.0.id m.task) (record m { notifications = r.1 })
          (record { keyed = wf.keyed; bounded = wf.bounded }))
])
  where
    listens :
        (b : Bool)
        → IsWellFormed (received (take_at i m.notifications) m)
        → IsWellFormed (if b then received (take_at i m.notifications) m else m)
    listens true w = w
    listens false w = wf
