-- ===== src/Node/FanIn/Steps.antt =====
-- The states that the goroutines of the fan-in lead to, in any interleaving of their rounds.
use scheduler.Base.{
  ℕ, ◌+◌, ◌≤◌, ◌<◌, ◌≡◌, Bool, true, false, List, [], ◌∷◌, ◌++◌, length, some, String, All,
  comparable_string,
}
use scheduler.Base.Maps.{lookup}
use scheduler.Models.{
  PeerFanIn, peer_fan_in_state_not_stated, peer_fan_in_state_get_request_id,
  peer_fan_in_state_get_executions_logs,
}
use scheduler.Sql.{Store}
use scheduler.Node.FanIn.{
  Handler, storing, counting, checking, accepting, NodeService, Outside, Goroutine, phase_one,
  phase_two, phase_three, Response, tick, fetch_phase_one, fetch_phase_two, commit_peer,
  handle_completed_peer_fan_in,
}

-- A node that has become the leader and takes no writes yet.
abbrev pub new_leader : {D : Type 0} → D → NodeService D
new_leader db = record {
  fan_ins = [];
  running = [];
  fan_in_ch = [];
  handlers = [];
  completed_fan_in_ch = [];
  accept_client_writes = false;
  started = 0;
  db = db;
}

-- What is left of phase one after a round.
abbrev pub left : Bool → List PeerFanIn → List PeerFanIn
left true ps = ps
left false ps = []

-- A tick, a round of some goroutine, with any answer, the receipt of a message, or a step of a handler.
pub data Reachable {D : Type 0} (l : Store D) (o : Outside) (db : D) : NodeService D → Type 0 where
  starts : Reachable l o db (new_leader db)
  ticks : {n : NodeService D} → Reachable l o db n → Reachable l o db (tick o n)
  asks :
      {n : NodeService D} (r : Response) (p : PeerFanIn) (ps : List PeerFanIn)
      (gs hs : List Goroutine)
      → n.running ≡ gs ++ phase_one (p ∷ ps) ∷ hs
      → Reachable l o db n
      → Reachable l o db (record n {
        fan_ins = (fetch_phase_one r p n.fan_ins).0;
        running = gs ++ phase_one (left (fetch_phase_one r p n.fan_ins).1 ps) ∷ hs;
      })
  fetches :
      {n : NodeService D} (r : Response) (p : PeerFanIn) (ps : List PeerFanIn)
      (gs hs : List Goroutine)
      → n.running ≡ gs ++ phase_two (p ∷ ps) ∷ hs
      → Reachable l o db n
      → Reachable l o db (record n {
        fan_ins = fetch_phase_two o r p n.fan_ins;
        running = gs ++ phase_two ps ∷ hs;
      })
  commits :
      {n n' : NodeService D} (p : PeerFanIn) (ps : List PeerFanIn) (gs hs : List Goroutine)
      → n.running ≡ gs ++ phase_three (p ∷ ps) ∷ hs
      → commit_peer l o p (record n { running = gs ++ phase_three ps ∷ hs }) ≡ some n'
      → Reachable l o db n
      → Reachable l o db n'
  receives :
      {n : NodeService D} (p : PeerFanIn) (ps qs : List PeerFanIn)
      → n.fan_in_ch ≡ ps ++ p ∷ qs
      → Reachable l o db n
      → Reachable l o db (record n { fan_in_ch = ps ++ qs; handlers = storing p ∷ n.handlers })
  handles :
      {n : NodeService D} (h : Handler) (gs hs : List Handler)
      → n.handlers ≡ gs ++ h ∷ hs
      → Reachable l o db n
      → Reachable l o db (record (handle_completed_peer_fan_in o h n).1 {
        handlers = gs ++ ((handle_completed_peer_fan_in o h n).0 ++ hs);
      })

abbrev pub IsIn : ℕ → PeerFanIn → Type 0
IsIn k p = p.state ≡ k

-- The peers of a phase are in the state in which the phase takes them.
abbrev pub IsPhased : Goroutine → Type 0
IsPhased (phase_one ps) = All (IsIn peer_fan_in_state_not_stated) ps
IsPhased (phase_two ps) = All (IsIn peer_fan_in_state_get_request_id) ps
IsPhased (phase_three ps) = All (IsIn peer_fan_in_state_get_executions_logs) ps

-- What a handler rests on, with so many complete peers and calls of StartJobs.
abbrev pub IsFounded : Outside → ℕ → ℕ → Handler → Type 0
IsFounded o complete started (storing p) = p.state ≡ peer_fan_in_state_get_executions_logs
IsFounded o complete started counting = Unit {0}
IsFounded o complete started (checking k) = k ≤ complete
IsFounded o complete started accepting = (o.replicas ≤ complete + 1) × (0 < started)

pub record IsFanIn {D : Type 0} (o : Outside) (n : NodeService D) : Type 0 where
  pub keyed :
      (a : String) (p : PeerFanIn)
      → lookup a n.fan_ins ≡ some p
      → (p.peer_http_address ≡ a) × (p.state ≤ peer_fan_in_state_get_executions_logs)
  pub phased : All IsPhased n.running
  pub sent : All (IsIn peer_fan_in_state_get_executions_logs) n.fan_in_ch
  pub completed :
      (a : String) (p : PeerFanIn)
      → lookup a n.completed_fan_in_ch ≡ some p
      → (p.peer_http_address ≡ a) × (p.state ≡ peer_fan_in_state_get_executions_logs)
  pub founded : All (IsFounded o (length n.completed_fan_in_ch) n.started) n.handlers
  pub accepts :
      n.accept_client_writes ≡ true
      → (o.replicas ≤ length n.completed_fan_in_ch + 1) × (0 < n.started)
