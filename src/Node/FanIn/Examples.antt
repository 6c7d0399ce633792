-- ===== src/Node/FanIn/Examples.antt =====
-- Tests of the fan-in in a cluster of the nodes "one", the leader, and "two".
use scheduler.Base.{
  ℕ, ◌≡◌, refl, ap, ◌==◌, inl, inr, true, List, [], ◌∷◌, ◌++◌, none, some, String, All, Bool-cases,
  arith, comparable_string,
}
use scheduler.Base.Maps.{Map, lookup, store, delete}
use scheduler.Models.{PeerFanIn}
use scheduler.Sql.{Store}
use scheduler.SharedRepo.Memory.{number_from, text_from, flag_from, time_from}
use scheduler.Node.FanIn.{
  NodeService, Outside, Goroutine, phase_one, phase_three, answer, spawn, tick, new_fan_in,
  select_random_peers_to_fan_in, handle_completed_peer_fan_in, checking, accepting, shuffle,
}
use scheduler.Node.FanIn.Steps.{new_leader, Reachable, starts, ticks, asks, IsFanIn}
use scheduler.Node.FanIn.Invariant.{Reachable-IsFanIn}
use scheduler.Node.FanIn.Twice.{Occurs, VisitsAll, tick-Occurs}

abbrev closed : Store ℕ
closed = record {
  begin_tx = λ n. none;
  exec = λ s n. inl "closed";
  commit = λ n. none;
  roll_back = λ n. (none, n);
  query = λ q n. inl "closed";
  to_number = number_from;
  to_text = text_from;
  to_flag = flag_from;
  to_time = time_from;
  wrong_count = "sql: wrong number of destination arguments";
  write = λ s nodes action n. (inl "closed", n);
}

abbrev outside : Outside
outside = record {
  node_id = 1;
  raft_address = "one";
  execution_log_fetch_fan_in = 3;
  replicas = 2;
  servers = "one" ∷ "two" ∷ [];
  http_address = λ a. a;
  intn = λ n. 0;
  visit = λ m. m;
  decode = λ text. none;
  now = 100;
}

abbrev leader : NodeService ℕ
leader = new_leader 0

abbrev two : PeerFanIn
two = new_fan_in "two"

run_fan_in : Unit {0}
unfolding tick lookup store delete handle_completed_peer_fan_in shuffle
run_fan_in = tt

-- Node "two" is asked twice.
first_tick : (tick outside leader).running ≡ phase_one (two ∷ two ∷ []) ∷ []
unfolding run_fan_in
first_tick = refl

shuffle_three : shuffle (λ n. 0) 2 ("one" ∷ "two" ∷ "three" ∷ []) ≡ "two" ∷ "three" ∷ "one" ∷ []
unfolding run_fan_in
shuffle_three = refl

-- The only other node is done: its handler starts the jobs.
last_one_done : (handle_completed_peer_fan_in outside (checking 1) leader).0 ≡ accepting ∷ []
unfolding run_fan_in
last_one_done = refl

-- A second handler at the same place starts them again, before the first lets the node take writes.
started_twice :
    (handle_completed_peer_fan_in outside
      (checking 1)
      (handle_completed_peer_fan_in outside (checking 1) leader).1).1.started
    ≡ 2
unfolding run_fan_in
started_twice = refl

-- A node whose logs are fetched.
abbrev fetched_two : PeerFanIn
fetched_two = record two { state = 2 }

-- A tick before the commit of the one before has ended commits the same logs again.
committed_twice :
    (tick outside (record leader {
      fan_ins = ("two", fetched_two) ∷ [];
      running = phase_three (fetched_two ∷ []) ∷ [];
    })).running
    ≡ phase_three (fetched_two ∷ []) ∷ phase_three (fetched_two ∷ []) ∷ []
unfolding run_fan_in
committed_twice = refl

-- Node "two" has accepted the first of the two requests.
abbrev asked_once : NodeService ℕ
asked_once = record leader {
  fan_ins = ("two", record two { request_id = "/tasks/1"; state = 1 }) ∷ [];
  running = phase_one (two ∷ []) ∷ [];
}

asked_once-Reachable : Reachable closed outside 0 asked_once
unfolding run_fan_in
asked_once-Reachable =
    asks (answer 202 "/tasks/1" none true) two (two ∷ []) [] [] first_tick (ticks starts)

Reachable-IsFanIn_example : IsFanIn outside asked_once
Reachable-IsFanIn_example = Reachable-IsFanIn closed outside 0 asked_once asked_once-Reachable

lookup-Occurs :
    (a : String) (p : PeerFanIn) (m : Map String PeerFanIn) → lookup a m ≡ some p → Occurs (a, p) m
unfolding lookup
lookup-Occurs a p [] h = absurd cc
lookup-Occurs a p ((b, q) ∷ m) h = elim (Bool-cases (b == a)) [
  | inl same ↦
      let b≡a : b ≡ a = (comparable_string.same_iff b a).0 same in
      let q≡p : q ≡ p = ground (arith, same, h) in ([], m, rw (b≡a, q≡p) refl)
  | inr other ↦
      let (ys, zs, e) = lookup-Occurs a p m (ground (arith, other, h)) in
      ((b, q) ∷ ys, zs, ap (λ l. (b, q) ∷ l) e)
]

outside-VisitsAll : VisitsAll outside
outside-VisitsAll = lookup-Occurs

tick-Occurs_example :
    (others : List PeerFanIn) × (later : List Goroutine) × ((tick outside leader).running
      ≡ spawn phase_one ((select_random_peers_to_fan_in outside []).0 ++ others) ++ later)
    × All (λ p. Occurs p others) (select_random_peers_to_fan_in outside []).0
tick-Occurs_example = tick-Occurs outside leader outside-VisitsAll
