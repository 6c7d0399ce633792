-- ===== src/Http/Middlewares/Examples.antt =====
-- Tests of the middlewares in a cluster of the nodes "one", the leader, and "two".
use scheduler.Base.{ℕ, ◌≡◌, refl, inl, true, false, [], ◌∷◌, none, some, String, comparable_string}
use scheduler.Sql.{Store, ok, panics}
use scheduler.SharedRepo.Memory.{number_from, text_from, flag_from, time_from}
use scheduler.Http.Middlewares.{
  Request, served, refused, redirected, Outside, fourth, middlewares, auth_middleware,
  ensure_raft_leader_middleware, redirect_url, is_authorized_peer_client,
}
use scheduler.Http.Middlewares.Guards.{IsAuthentic, IsLed, middlewares-IsAuthentic}

abbrev closed : Store ℕ
closed = record {
  begin_tx = λ n. none;
  exec = λ s n. inl "closed";
  commit = λ n. none;
  roll_back = λ n. (none, n);
  query = λ q n. inl "closed";
  to_number = number_from;
  to_text = text_from;
  to_flag = flag_from;
  to_time = time_from;
  wrong_count = "sql: wrong number of destination arguments";
  write = λ s nodes action n. (inl "closed", n);
}

abbrev follower : Outside
follower = record {
  auth_username = "admin";
  auth_password = "secret";
  sum256 = λ text. text;
  can_accept_request = true;
  can_accept_client_write_request = false;
  replicas = ("10.0.0.1:7000", "http://one") ∷ ("10.0.0.2:7000", "http://two") ∷ [];
  leader = "10.0.0.1:7000";
}

abbrev from_peer : String → String → Request
from_peer method name = record {
  method = method;
  url_path = "/api/v1/jobs";
  paths = "" ∷ "api" ∷ "v1" ∷ name ∷ [];
  api_key = "";
  secret_key = "";
  peer = "peer";
  basic_auth = some ("admin", "secret");
}

-- A read is served by a follower.
read_served : middlewares closed follower (from_peer "GET" "jobs") 0 ≡ ok served
unfolding middlewares auth_middleware ensure_raft_leader_middleware redirect_url
    is_authorized_peer_client
read_served = refl

-- A write goes to the leader.
write_redirected :
    middlewares closed follower (from_peer "POST" "jobs") 0
    ≡ ok (redirected 301 "http://one/api/v1/jobs")
unfolding middlewares auth_middleware ensure_raft_leader_middleware redirect_url
    is_authorized_peer_client
write_redirected = refl

-- Only the leader starts the jobs of a node.
start_served : middlewares closed follower (from_peer "POST" "start-jobs") 0 ≡ ok served
unfolding middlewares auth_middleware ensure_raft_leader_middleware redirect_url
    is_authorized_peer_client
start_served = refl

wrong_password :
    middlewares closed follower
      (record (from_peer "GET" "jobs") { basic_auth = some ("admin", "guess") })
      0
    ≡ ok (refused 401)
unfolding middlewares auth_middleware ensure_raft_leader_middleware redirect_url
    is_authorized_peer_client
wrong_password = refl

-- The path "/jobs" has two parts.
short_path :
    middlewares closed follower (record (from_peer "GET" "jobs") { paths = "" ∷ "jobs" ∷ [] }) 0
    ≡ panics
unfolding middlewares auth_middleware ensure_raft_leader_middleware redirect_url
    is_authorized_peer_client
short_path = refl

middlewares-IsAuthentic_example :
    (p : String) × (fourth ("" ∷ "api" ∷ "v1" ∷ "jobs" ∷ []) ≡ some p)
    × IsAuthentic closed follower (from_peer "GET" "jobs") p 0
    × IsLed follower (from_peer "GET" "jobs") p
middlewares-IsAuthentic_example =
    middlewares-IsAuthentic closed follower (from_peer "GET" "jobs") 0 read_served
