-- ===== src/Node/FanIn.antt =====
-- The fan-in of pkg/service/node/node.go and node_http_client.go: a new leader asks the other nodes for
-- the logs and tasks that are not committed, in phases, and commits them.
pub mod Steps
pub mod Keys
pub mod Invariant
pub mod Twice
mod Examples
use scheduler.Base.{
  ℕ, zero, suc, ◌+◌, ◌-◌, Bool, true, false, not, ◌&&◌, ◌||◌, List, [], ◌∷◌, ◌++◌, map, length,
  take, Option, none, some, String, ◌==◌, ltb, nat_beq, if◌then◌else◌, comparable_string,
}
use scheduler.Base.Maps.{Map, lookup, store, delete}
use scheduler.Models.{
  LocalData, PeerFanIn, peer_fan_in_state_not_stated, peer_fan_in_state_get_request_id,
  peer_fan_in_state_get_executions_logs,
}
use scheduler.Sql.{Store, GenericError, Outcome, ok, err, panics, exits, loops}
use scheduler.Repository.JobExecution.Raft.{raft_insert_execution_logs}
use scheduler.Repository.AsyncTask.{raft_batch_insert_tasks}

-- What is left of a goroutine of a tick: the peers of its phase that are not served yet.
pub data Goroutine : Type 0 where
  phase_one : List PeerFanIn → Goroutine
  phase_two : List PeerFanIn → Goroutine
  phase_three : List PeerFanIn → Goroutine

-- Where a goroutine of handleCompletedPeerFanIn stands: before the Store, before the count, before the test
-- of the count, or after StartJobs.
pub data Handler : Type 0 where
  storing : PeerFanIn → Handler
  counting : Handler
  checking : ℕ → Handler
  accepting : Handler

-- The fields of nodeService that the fan-in uses, with its goroutines, the calls of StartJobs and the
-- database. What is sent on fanInCh waits in a list.
pub record NodeService (D : Type 0) : Type 0 where
  pub fan_ins : Map String PeerFanIn
  pub running : List Goroutine
  pub fan_in_ch : List PeerFanIn
  pub handlers : List Handler
  pub completed_fan_in_ch : Map String PeerFanIn
  pub accept_client_writes : Bool
  pub started : ℕ
  pub db : D

-- The configuration, with ExecutionLogFetchFanIn below 2 ^ 63 and the number of replicas; the servers of
-- the cluster; GetNodeServerAddressWithRaftAddress; rand.Intn; the order of Range; the decoding of an
-- answer.
pub record Outside : Type 0 where
  pub node_id : ℕ
  pub raft_address : String
  pub execution_log_fetch_fan_in : ℕ
  pub replicas : ℕ
  pub servers : List String
  pub http_address : String → String
  pub intn : ℕ → ℕ
  pub visit : Map String PeerFanIn → Map String PeerFanIn
  pub decode : String → Option LocalData
  pub now : ℕ

-- A request: it cannot be made, nothing comes back, or an answer with its status, its Location, its body
-- if it can be read, and whether it can be closed.
pub data Response : Type 0 where
  no_request : Response
  no_answer : Response
  answer : ℕ → String → Option String → Bool → Response

unfoldable pub get_at : ℕ → List String → String
get_at i [] = ""
get_at zero (x ∷ xs) = x
get_at (suc i) (x ∷ xs) = get_at i xs

unfoldable pub set_at : ℕ → String → List String → List String
set_at i y [] = []
set_at zero y (x ∷ xs) = y ∷ xs
set_at (suc i) y (x ∷ xs) = x ∷ set_at i y xs

-- The loop with lastIndex.
unfoldable pub shuffle : (ℕ → ℕ) → ℕ → List String → List String
unfolding get_at set_at
shuffle intn zero xs = xs
shuffle intn (suc n) xs =
    let i = intn (suc n) in
    shuffle intn n (set_at i (get_at (suc n) xs) (set_at (suc n) (get_at i xs) xs))

-- A set of addresses is a list of its keys.
unfoldable pub has : String → List String → Bool
has a [] = false
has a (b ∷ bs) = b == a || has a bs

unfoldable pub other_servers : Outside → List String → List String
other_servers o [] = []
other_servers o (s ∷ ss) =
    let rest = other_servers o ss in if s == o.raft_address then rest else s ∷ rest

unfoldable pub not_excluded : Outside → List String → List String → List String
unfolding has
not_excluded o excluded [] = []
not_excluded o excluded (s ∷ ss) =
    let rest = not_excluded o excluded ss in
    if has (o.http_address s) excluded then rest else o.http_address s ∷ rest

-- getRandomFanInPeerHTTPAddresses
unfoldable pub get_random_fan_in_peer_http_addresses : Outside → List String → List String
unfolding other_servers not_excluded shuffle
get_random_fan_in_peer_http_addresses o excluded =
    let servers = other_servers o o.servers in
    let addresses = not_excluded o excluded (
      if ltb (length servers) o.execution_log_fetch_fan_in
      then servers
      else shuffle o.intn (length servers - 1) servers) in
    if ltb o.execution_log_fetch_fan_in (length addresses)
    then take o.execution_log_fetch_fan_in addresses
    else addresses

abbrev pub new_fan_in : String → PeerFanIn
new_fan_in address = record {
  peer_http_address = address;
  request_id = "";
  state = peer_fan_in_state_not_stated;
  data_sent = record { async_tasks = []; execution_logs = [] };
}

-- The loop of selectRandomPeersToFanIn.
unfoldable pub add_fan_ins :
    List String → Map String PeerFanIn → List PeerFanIn × Map String PeerFanIn
unfolding lookup store
add_fan_ins [] m = ([], m)
add_fan_ins (a ∷ addresses) m = elim (lookup a m) [
  | some p ↦ add_fan_ins addresses m
  | none ↦ let r = add_fan_ins addresses (store a (new_fan_in a) m) in (new_fan_in a ∷ r.0, r.1)
]

unfoldable pub select_random_peers_to_fan_in :
    Outside → Map String PeerFanIn → List PeerFanIn × Map String PeerFanIn
unfolding get_random_fan_in_peer_http_addresses add_fan_ins
select_random_peers_to_fan_in o m =
    add_fan_ins (get_random_fan_in_peer_http_addresses o (map (λ x. x.0) m)) m

unfoldable pub in_state : ℕ → List PeerFanIn → List PeerFanIn
in_state k [] = []
in_state k (p ∷ ps) = let rest = in_state k ps in if nat_beq p.state k then p ∷ rest else rest

-- The peers of a phase: those that were selected, then those that Range gives.
abbrev pub phase : Outside → ℕ → List PeerFanIn → Map String PeerFanIn → List PeerFanIn
phase o k peers m = in_state k peers ++ in_state k (map (λ x. x.1) (o.visit m))

abbrev pub spawn : (List PeerFanIn → Goroutine) → List PeerFanIn → List Goroutine
spawn g [] = []
spawn g (p ∷ ps) = g (p ∷ ps) ∷ []

-- The case of the ticker in fanInLocalDataFromPeers.
unfoldable pub tick : {D : Type 0} → Outside → NodeService D → NodeService D
unfolding select_random_peers_to_fan_in in_state
tick o n =
    let r = select_random_peers_to_fan_in o n.fan_ins in
    record n {
      fan_ins = r.1;
      running =
          n.running
          ++ spawn phase_one (phase o peer_fan_in_state_not_stated r.0 r.1)
          ++ spawn phase_two (phase o peer_fan_in_state_get_request_id r.0 r.1)
          ++ spawn phase_three (phase o peer_fan_in_state_get_executions_logs r.0 r.1);
    }

-- A round of FetchUncommittedLogsFromPeersPhase1; false where it returns.
abbrev pub fetch_phase_one :
    Response → PeerFanIn → Map String PeerFanIn → Map String PeerFanIn × Bool
fetch_phase_one no_request p m = (delete p.peer_http_address m, true)
fetch_phase_one no_answer p m = (delete p.peer_http_address m, true)
fetch_phase_one (answer status location body closes) p m =
    if nat_beq status 202
    then if closes
      then (
        store p.peer_http_address
            (record p { request_id = location; state = peer_fan_in_state_get_request_id }) m,
        true,
      )
      else (delete p.peer_http_address m, false)
    else (delete p.peer_http_address m, true)

abbrev pub fetched :
    Option LocalData → Bool → PeerFanIn → Map String PeerFanIn → Map String PeerFanIn
fetched none closes p m = delete p.peer_http_address m
fetched (some d) closes p m =
    if closes
    then store p.peer_http_address
        (record p { data_sent = d; state = peer_fan_in_state_get_executions_logs }) m
    else delete p.peer_http_address m

abbrev pub read_answer : Outside → Option String → Option LocalData
read_answer o none = none
read_answer o (some text) = o.decode text

-- A round of FetchUncommittedLogsFromPeersPhase2.
abbrev pub fetch_phase_two :
    Outside → Response → PeerFanIn → Map String PeerFanIn → Map String PeerFanIn
fetch_phase_two o no_request p m = m
fetch_phase_two o no_answer p m = delete p.peer_http_address m
fetch_phase_two o (answer status location body closes) p m =
    if nat_beq status 200
    then fetched (read_answer o body) closes p m
    else delete p.peer_http_address m

-- A step of handleCompletedPeerFanIn, which takes no lock: what is left of it, and the node.
unfoldable pub handle_completed_peer_fan_in :
    {D : Type 0} → Outside → Handler → NodeService D → List Handler × NodeService D
unfolding store
handle_completed_peer_fan_in o (storing p) n = (
  counting ∷ [],
  record n { completed_fan_in_ch = store p.peer_http_address p n.completed_fan_in_ch },
)
handle_completed_peer_fan_in o counting n = (checking (length n.completed_fan_in_ch) ∷ [], n)
handle_completed_peer_fan_in o (checking completed) n =
    if nat_beq (completed + 1) o.replicas && not n.accept_client_writes
    then (accepting ∷ [], record n { started = n.started + 1 })
    else ([], n)
handle_completed_peer_fan_in o accepting n = ([], record n { accept_client_writes = true })

abbrev pub tasks_inserted : {A D : Type 0} → Outcome GenericError A × D → Option D
tasks_inserted (ok ids, db) = some db
tasks_inserted (err e, db) = some db
tasks_inserted (panics, db) = none
tasks_inserted (exits, db) = none
tasks_inserted (loops, db) = none

-- A round of commitFetchedUnCommittedLogs: what it writes, and then the peer is done. `none`: a panic.
module _ {D : Type 0} (l : Store D) (o : Outside) where
  unfoldable pub write_local_data : LocalData → D → Option D
  unfolding raft_insert_execution_logs raft_batch_insert_tasks
  write_local_data d db =
      let db' =
        if ltb 0 (length d.execution_logs)
        then raft_insert_execution_logs l d.execution_logs o.node_id db
        else db in
      if ltb 0 (length d.async_tasks)
      then tasks_inserted (raft_batch_insert_tasks l o.now d.async_tasks o.node_id db')
      else some db'

  unfoldable pub commit_peer : PeerFanIn → NodeService D → Option (NodeService D)
  unfolding write_local_data
  commit_peer p n = elim (write_local_data p.data_sent n.db) [
    | none ↦ none
    | some db ↦ some (record n {
      db = db;
      fan_ins = delete p.peer_http_address n.fan_ins;
      fan_in_ch = n.fan_in_ch ++ p ∷ [];
    })
  ]
