-- ===== src/Http/Middlewares/Guards.antt =====
-- Which requests reach the handlers.
use scheduler.Base.{
  Option, none, some, arith, ◌≢◌, ◌≡◌, refl, sym, ap, ◌∙◌, ◌⊎◌, inl, inr, Bool, true, false, ◌||◌,
  String, ◌==◌, some, Bool-cases, Option-cases, comparable_string,
}
use scheduler.Sql.{Store, GenericError, Outcome, ok, err, panics, exits, loops, and_then_ok}
use scheduler.Sql.Outcomes.{ok_injective}
use scheduler.Models.{Credential, no_credential}
use scheduler.Repository.Credential.{get_by_api_key}
use scheduler.Services.Credential.{validate_server_api_key}
use scheduler.Http.Middlewares.{
  has_credentials, redirect_url, Request, Handled, served, refused, redirected, Outside, fourth,
  is_server_client, is_peer_client, is_authorized_peer_client, allowed, authorized, is_public,
  is_write, to_leader, authenticate, auth_middleware, at_leader, ensure_raft_leader_middleware,
  and_then_served, middlewares,
}

-- A key that is stored with the secret that was sent.
pub record IsKnown {D : Type 0} (l : Store D) (r : Request) (db : D) : Type 0 where
  pub credential : Credential
  pub stored : get_by_api_key l (record no_credential { api_key = r.api_key }) db ≡ ok credential
  pub secret : (r.secret_key == credential.api_secret) ≡ true

-- The request has both, the name and the password of the cluster, by their hashes.
pub record IsPeer (o : Outside) (r : Request) : Type 0 where
  pub username : String
  pub password : String
  pub sent : r.basic_auth ≡ some (username, password)
  pub same_username : o.sum256 username ≡ o.sum256 o.auth_username
  pub same_password : o.sum256 password ≡ o.sum256 o.auth_password

-- Why a request may pass the first check: its path is open to all; its key is known; or it calls itself a
-- command or a peer, and has the name and the password.
abbrev pub IsAuthentic : {D : Type 0} → Store D → Outside → Request → String → D → Type 0
IsAuthentic l o r p db =
    ((p ≡ "api-docs") ⊎ (p ≡ "healthcheck"))
    ⊎ IsKnown l r db
    ⊎ (((r.peer ≡ "cmd") ⊎ (r.peer ≡ "peer")) × IsPeer o r)

-- Why it may pass the second: it is a handshake; or the node takes requests, and takes writes, unless the
-- request is none or is about starting and stopping jobs.
abbrev pub IsLed : Outside → Request → String → Type 0
IsLed o r p =
    (p ≡ "peer-handshake")
    ⊎ ((o.can_accept_request ≡ true)
        × ((o.can_accept_client_write_request ≡ true)
            ⊎ ((r.method ≢ "POST") × (r.method ≢ "PUT") × (r.method ≢ "DELETE"))
            ⊎ ((p ≡ "start-jobs") ⊎ (p ≡ "stop-jobs"))))

same : (s t : String) → (s == t) ≡ true → s ≡ t
same s t = (comparable_string.same_iff s t).0

different : (s t : String) → (s == t) ≡ false → s ≢ t
different s t h e = absurd (cc ((comparable_string.same_iff s t).1 e, h))

one_of : (s t u : String) → (s == t || s == u) ≡ true → (s ≡ t) ⊎ (s ≡ u)
one_of s t u h = elim (Bool-cases (s == t)) [
  | inl first ↦ inl (same s t first)
  | inr other ↦ inr (same s u (ground (arith, h, other)))
]

none_of : (s t u v : String) → (s == t || s == u || s == v) ≡ false → (s ≢ t) × (s ≢ v) × (s ≢ u)
none_of s t u v h = (
  different s t (ground (arith, h)),
  different s v (ground (arith, h)),
  different s u (ground (arith, h)),
)

has_credentials-IsPeer :
    (o : Outside) (r : Request) (a : Option (String × String))
    → r.basic_auth ≡ a
    → has_credentials o a ≡ true
    → IsPeer o r
has_credentials-IsPeer o r none e h = absurd cc
has_credentials-IsPeer o r (some (username, password)) e h = record {
  username = username;
  password = password;
  sent = e;
  same_username = same _ _ (ground (arith, h));
  same_password = same _ _ (ground (arith, h));
}

abbrev is_served : Outcome GenericError Handled → Bool
is_served (ok served) = true
is_served (ok (refused status)) = false
is_served (ok (redirected status url)) = false
is_served (err e) = false
is_served panics = false
is_served exits = false
is_served loops = false

allowed_lem : (b : Bool) → is_served (ok (allowed b)) ≡ true → b ≡ true
allowed_lem true h = refl
allowed_lem false h = absurd cc

to_leader_lem :
    {D : Type 0} (l : Store D) (o : Outside) (r : Request)
    → is_served (ok (to_leader l o r)) ≡ false
to_leader_lem l o r = elim (Bool-cases (redirect_url o.replicas o.leader == "")) [
  | inl missing ↦ rw missing refl
  | inr found ↦ rw found refl
]

authorized_lem : (v : Outcome GenericError Bool) → is_served (authorized v) ≡ true → v ≡ ok true
authorized_lem (ok true) h = refl
authorized_lem (ok false) h = absurd cc
authorized_lem (err e) h = absurd cc
authorized_lem panics h = absurd cc
authorized_lem exits h = absurd cc
authorized_lem loops h = absurd cc

known_lem :
    {D : Type 0} (l : Store D) (r : Request) (db : D) (o : Outcome GenericError Credential)
    → get_by_api_key l (record no_credential { api_key = r.api_key }) db ≡ o
    → and_then_ok o (λ c. ok (r.secret_key == c.api_secret)) ≡ ok true
    → IsKnown l r db
known_lem l r db (ok c) e h = record {
  credential = c;
  stored = e;
  secret = ok_injective (r.secret_key == c.api_secret) true h;
}
known_lem l r db (err x) e h = absurd cc
known_lem l r db panics e h = absurd cc
known_lem l r db exits e h = absurd cc
known_lem l r db loops e h = absurd cc

module _ {D : Type 0} (l : Store D) (o : Outside) (r : Request) (p : String) (db : D) where
  authenticate-IsAuthentic : is_served (authenticate l o r db) ≡ true → IsAuthentic l o r p db
  unfolding validate_server_api_key is_authorized_peer_client
  authenticate-IsAuthentic = elim (Bool-cases (is_server_client r)) [
    | inl server ↦ rw server (λ h. inr (
        inl (
          known_lem l r db _ refl
            (authorized_lem (validate_server_api_key l r.api_key r.secret_key db) h))))
    | inr no_server ↦ elim (Bool-cases (is_peer_client r)) [
      | inl peer ↦
          rw (no_server, peer)
            (λ h. inr (
              inr (
                one_of r.peer "cmd" "peer" peer,
                has_credentials-IsPeer o r r.basic_auth refl
                    (allowed_lem (is_authorized_peer_client o r) h),
              )))
      | inr no_peer ↦ rw (no_server, no_peer) (λ h. absurd cc)
    ]
  ]

  at_leader-IsLed : is_served (ok (at_leader l o r p)) ≡ true → IsLed o r p
  at_leader-IsLed = elim (Bool-cases (p == "peer-handshake")) [
    | inl handshake ↦ λ h. inl (same p "peer-handshake" handshake)
    | inr other ↦ elim (Bool-cases o.can_accept_request) [
      | inr closed ↦ rw (other, closed) (λ h. absurd cc)
      | inl opened ↦ elim (Bool-cases o.can_accept_client_write_request) [
        | inl writes ↦ λ h. inr (opened, inl writes)
        | inr no_writes ↦ elim (Bool-cases (is_write r)) [
          | inr reads ↦ λ h. inr (opened, inr (inl (none_of r.method "POST" "DELETE" "PUT" reads)))
          | inl write ↦ elim (Bool-cases (p == "start-jobs" || p == "stop-jobs")) [
            | inl cluster ↦ λ h. inr (opened, inr (inr (one_of p "start-jobs" "stop-jobs" cluster)))
            | inr client ↦
                rw (other, opened, no_writes, write, client)
                  (λ h. absurd (cc (h, to_leader_lem l o r)))
          ]
        ]
      ]
    ]
  ]

module _ {D : Type 0} (l : Store D) (o : Outside) (r : Request) (db : D) where
  both_served :
      (h : Outcome GenericError Handled)
      → auth_middleware l o r db ≡ h
      → and_then_ok h (λ a. and_then_served l o a (ensure_raft_leader_middleware l o r)) ≡ ok served
      → (is_served (auth_middleware l o r db) ≡ true)
        × (is_served (ensure_raft_leader_middleware l o r) ≡ true)
  both_served (ok served) e h = (ap is_served e, ap is_served h)
  both_served (ok (refused status)) e h = absurd (cc (ap is_served h))
  both_served (ok (redirected status url)) e h = absurd (cc (ap is_served h))
  both_served (err x) e h = absurd cc
  both_served panics e h = absurd cc
  both_served exits e h = absurd cc
  both_served loops e h = absurd cc

-- A request reaches a handler only if its path has a fourth part, and it passes both checks. First, the
-- part is api-docs or healthcheck, or the request has a stored key with its secret, or it calls itself a
-- command or a peer and has both the name and the password of the cluster (by their hashes). Second, the
-- part is peer-handshake, or the node takes requests, and it takes writes too, or the method is none of
-- POST, PUT and DELETE, or the part is start-jobs or stop-jobs.
pub middlewares-IsAuthentic :
    {D : Type 0} (l : Store D) (o : Outside) (r : Request) (db : D)
    → middlewares l o r db ≡ ok served
    → (p : String) × (fourth r.paths ≡ some p) × IsAuthentic l o r p db × IsLed o r p
unfolding middlewares auth_middleware ensure_raft_leader_middleware
middlewares-IsAuthentic l o r db h =
    let (first, second) = both_served l o r db (auth_middleware l o r db) refl h in
    elim (Option-cases (fourth r.paths)) [
      | inl short ↦
          let panicked : auth_middleware l o r db ≡ panics = rw (short, auth_middleware) refl in
          absurd (cc (ap is_served panicked, first))
      | inr (p, some_p) ↦
          let leads : ensure_raft_leader_middleware l o r ≡ ok (at_leader l o r p) =
            rw (some_p, ensure_raft_leader_middleware) refl in
          (
            p,
            some_p,
            elim (Bool-cases (is_public p)) [
              | inl open_to_all ↦ inl (one_of p "api-docs" "healthcheck" open_to_all)
              | inr closed ↦
                  let asks : auth_middleware l o r db ≡ authenticate l o r db =
                    rw (some_p, auth_middleware, closed) refl in
                  authenticate-IsAuthentic l o r p db (sym (ap is_served asks) ∙ first)
            ],
            at_leader-IsLed l o r p db (sym (ap is_served leads) ∙ second),
          )
    ]
