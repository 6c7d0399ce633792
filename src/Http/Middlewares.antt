-- ===== src/Http/Middlewares.antt =====
-- pkg/http/server/middlewares: middleware.go, server.go and peer.go, with the order in which
-- pkg/http/server/http_server.go mounts them.
pub mod Guards
mod Examples
use Prim.Native.String.{◌++◌ as text_append}
use scheduler.Base.{
  Bool, true, false, not, ◌&&◌, ◌||◌, List, [], ◌∷◌, Option, none, some, String, ◌==◌,
  if◌then◌else◌, ℕ, comparable_string,
}
use scheduler.Sql.{Store, GenericError, Outcome, ok, err, panics, exits, loops, and_then_ok}
use scheduler.Services.Credential.{validate_server_api_key}

-- What the middlewares read of a request, whose path has at least one part: the method, the path with its parts between slashes, the headers
-- x-api-key, x-secret-key and x-peer, which are empty if there are none, and BasicAuth.
pub record Request : Type 0 where
  pub method : String
  pub url_path : String
  pub paths : List String
  pub api_key : String
  pub secret_key : String
  pub peer : String
  pub basic_auth : Option (String × String)

-- The next handler is called; the request is refused with a status; or it is sent to another address, with
-- a status.
pub data Handled : Type 0 where
  served : Handled
  refused : ℕ → Handled
  redirected : ℕ → String → Handled

-- The secrets, and a hash of 256 bits; the state of the node; the raft and HTTP addresses of the replicas
-- and the address of the leader.
pub record Outside : Type 0 where
  pub auth_username : String
  pub auth_password : String
  pub sum256 : String → String
  pub can_accept_request : Bool
  pub can_accept_client_write_request : Bool
  pub replicas : List (String × String)
  pub leader : String

abbrev pub fourth : List String → Option String
fourth [] = none
fourth (a ∷ []) = none
fourth (a ∷ b ∷ []) = none
fourth (a ∷ b ∷ c ∷ []) = none
fourth (a ∷ b ∷ c ∷ d ∷ ps) = some d

abbrev pub is_server_client : Request → Bool
is_server_client r = not (r.api_key == "") && not (r.secret_key == "")

abbrev pub is_peer_client : Request → Bool
is_peer_client r = r.peer == "cmd" || r.peer == "peer"

abbrev pub has_credentials : Outside → Option (String × String) → Bool
has_credentials o none = false
has_credentials o (some (username, password)) =
    o.sum256 username == o.sum256 o.auth_username && o.sum256 password == o.sum256 o.auth_password

unfoldable pub is_authorized_peer_client : Outside → Request → Bool
is_authorized_peer_client o r = has_credentials o r.basic_auth

abbrev pub allowed : Bool → Handled
allowed b = if b then served else refused 401

-- An error of ValidateServerAPIKey is an answer of false.
abbrev pub authorized : Outcome GenericError Bool → Outcome GenericError Handled
authorized (ok b) = ok (allowed b)
authorized (err e) = ok (refused 401)
authorized panics = panics
authorized exits = exits
authorized loops = loops

abbrev pub is_public : String → Bool
is_public p = p == "api-docs" || p == "healthcheck"

abbrev pub is_write : Request → Bool
is_write r = r.method == "POST" || r.method == "DELETE" || r.method == "PUT"

unfoldable pub redirect_url : List (String × String) → String → String
redirect_url [] leader = ""
redirect_url ((raft, address) ∷ rs) leader =
    let rest = redirect_url rs leader in if raft == leader then address else rest

module _ {D : Type 0} (l : Store D) (o : Outside) where
  abbrev pub authenticate : Request → D → Outcome GenericError Handled
  authenticate r db =
      if is_server_client r
      then authorized (validate_server_api_key l r.api_key r.secret_key db)
      else if is_peer_client r
      then ok (allowed (is_authorized_peer_client o r))
      else ok (refused 401)

  -- AuthMiddleware, by the fourth part of the path, which it reads of any path: a panic if there is none.
  unfoldable pub auth_middleware : Request → D → Outcome GenericError Handled
  auth_middleware r db = elim (fourth r.paths) [
    | none ↦ panics
    | some p ↦ if is_public p then ok served else authenticate r db
  ]

  -- Where the leader is looked for. A command or a peer is redirected, another client has the address in
  -- the header Location of an answer with status 302.
  abbrev pub to_leader : Request → Handled
  to_leader r =
      let url = redirect_url o.replicas o.leader in
      if url == ""
      then refused 503
      else redirected (if is_peer_client r then 301 else 302) (text_append url r.url_path)

  abbrev pub at_leader : Request → String → Handled
  at_leader r p =
      if p == "peer-handshake"
      then served
      else if not o.can_accept_request
      then refused 503
      else if not o.can_accept_client_write_request && is_write r
      then if p == "start-jobs" || p == "stop-jobs" then served else to_leader r
      else served

  -- EnsureRaftLeaderMiddleware
  unfoldable pub ensure_raft_leader_middleware : Request → Outcome GenericError Handled
  ensure_raft_leader_middleware r = elim (fourth r.paths) [
    | none ↦ panics
    | some p ↦ ok (at_leader r p)
  ]

  abbrev pub and_then_served : Handled → Outcome GenericError Handled → Outcome GenericError Handled
  and_then_served served next = next
  and_then_served (refused status) next = ok (refused status)
  and_then_served (redirected status url) next = ok (redirected status url)

  -- The two, in the order of the router.
  unfoldable pub middlewares : Request → D → Outcome GenericError Handled
  unfolding auth_middleware ensure_raft_leader_middleware
  middlewares r db =
      and_then_ok (auth_middleware r db) (λ h. and_then_served h (ensure_raft_leader_middleware r))
