-- ===== src/Queue/Balance.antt =====
-- How the allocation counts steer the choice of a server, and the calls that set them.
use scheduler.Base.{
  ℕ, ◌+◌, ◌-◌, ◌/◌, ◌^◌, ◌≤◌, ◌<◌, ◌≡◌, refl, ◌∙◌, ap, Bool, false, List, [], ◌∷◌, none, some,
  arith, if◌then◌else◌, ◌==◌, comparable_uint, ◌||◌, All,
}
use scheduler.Base.Words.{add64, sub64}
use scheduler.Base.Maps.{Map, lookup, store, delete, lookup-store, lookup-delete, store_same}
use scheduler.Models.{JobQueueLog}
use scheduler.Queue.{
  JobQueue, Outside, or_zero, charge, hand_out, get_next_server_to_queue, queue, store_zeros,
  delete_all, add_servers, remove_servers,
}
use scheduler.Queue.Ranges.{IsPartition, assign-IsPartition}
use scheduler.Queue.Logs.{IsCluster}

abbrev contains : ℕ → List ℕ → Bool
contains n [] = false
contains n (k ∷ ks) = k == n || contains n ks

store_zeros_lem :
    (ns : List ℕ) (n : ℕ) (m : Map ℕ ℕ)
    → lookup n (store_zeros ns m) ≡ (if contains n ns then some 0 else lookup n m)
store_zeros_lem [] n m = refl
store_zeros_lem (k ∷ ks) n m =
    ground (arith, store_zeros_lem ks n (store k 0 m), lookup-store k n 0 m)

delete_all_lem :
    (ns : List ℕ) (n : ℕ) (m : Map ℕ ℕ)
    → lookup n (delete_all ns m) ≡ (if contains n ns then none else lookup n m)
delete_all_lem [] n m = refl
delete_all_lem (k ∷ ks) n m = ground (arith, delete_all_lem ks n (delete k m), lookup-delete k n m)

-- A change of leadership removes the servers of the cluster and, on the leader, adds them again:
-- whatever was counted before, each of them then stands at 0, and every other node as it did.
pub add_servers-remove_servers :
    (ns : List ℕ) (n : ℕ) (q : JobQueue)
    → lookup n (add_servers ns (remove_servers ns q)).allocations
      ≡ (if contains n ns then some 0 else lookup n q.allocations)
unfolding add_servers remove_servers
add_servers-remove_servers ns n q =
    ground
      (arith, store_zeros_lem ns n (delete_all ns q.allocations), delete_all_lem ns n q.allocations)

-- A range of one job adds `upper - lower`, which is 0.
charge_single :
    (n i v : ℕ) (m : Map ℕ ℕ) → v < 2 ^ 64 → i < 2 ^ 64 → lookup n m ≡ some v → charge n i i m ≡ m
unfolding charge
charge_single n i v m small id e =
    let z : add64 (or_zero (lookup n m)) (sub64 i i) ≡ v = rw e (omega arith) in
    rw z (store_same n v m e)

-- Go may visit the map in another order each time; here the order is the same each time.
abbrev VisitsAlike : Outside → Type 0
VisitsAlike o = (k : ℕ) (m : Map ℕ ℕ) → o.visit k m ≡ o.visit 0 m

module _ (o : Outside) (alike : VisitsAlike o) (server v : ℕ) (m : Map ℕ ℕ)
    (next : get_next_server_to_queue o.node_id (o.visit 0 m) ≡ server)
    (known : lookup server m ≡ some v) (small : v < 2 ^ 64) where
  hand_out_singles :
      (lo hi : ℕ) (rs : List (List ℕ)) (j : ℕ)
      → hi < 2 ^ 63
      → IsPartition 0 lo hi rs
      → All (λ l. l.node_id ≡ server) (hand_out o j rs m).0 × ((hand_out o j rs m).1 ≡ m)
  unfolding hand_out
  hand_out_singles lo hi [] j top part = (tt, refl)
  hand_out_singles lo hi ([] ∷ rs) j top part = elim part [ ]
  hand_out_singles lo hi ((a ∷ []) ∷ rs) j top part = elim part [ ]
  hand_out_singles lo hi ((a ∷ b ∷ c ∷ l) ∷ rs) j top part = elim part [ ]
  hand_out_singles lo hi ((a ∷ b ∷ []) ∷ rs) j top (e, le, below, narrow, rest) =
      let b≡a : b ≡ a = omega arith in
      let here : get_next_server_to_queue o.node_id (o.visit j m) ≡ server =
        ap (get_next_server_to_queue o.node_id) (alike j m) ∙ next in
      let same : charge server a b m ≡ m =
        rw b≡a (charge_single server a v m small (omega arith) known) in
      let (all, after) = hand_out_singles (b + 1) hi rs (j + 1) top rest in
      rw (here, same) ((refl, all), after)

-- Where a range holds at most as many job ids as there are other servers, so that every job gets a
-- log of its own, all logs go to one and the same node and the allocations do not change (if the map
-- is visited in the same order each time): each log counts upper - lower = 0 towards its server.
pub queue-single_server :
    (o : Outside) (servers s a lo hi server v : ℕ) (q : JobQueue)
    → VisitsAlike o
    → IsCluster o servers s a q
    → lo ≤ hi
    → hi ≤ 2 ^ 52
    → hi - lo < servers
    → get_next_server_to_queue o.node_id (o.visit 0 q.allocations) ≡ server
    → lookup server q.allocations ≡ some v
    → v < 2 ^ 64
    → (logs : List JobQueueLog) × (queue o lo hi q ≡ some (logs, q))
      × All (λ l. l.node_id ≡ server) logs
unfolding queue
queue-single_server o servers s a lo hi server v q alike c le top few next known small =
    let (rs, e, part, count) =
      assign-IsPartition servers lo hi c.some_server c.few_servers le top in
    let zero_width : (hi - lo) / servers ≡ 0 = grind arith in
    let (all, same) =
      hand_out_singles o alike server v q.allocations next known small lo hi rs 0 (omega arith)
        (rw zero_width at part) in
    ((hand_out o 0 rs q.allocations).0, rw (c.leads, c.known, e, c.clustered) (rw same), all)
