-- ===== src/Node/FanIn/Keys.antt =====
-- The maps of the fan-in keep each peer under its address.
use scheduler.Base.{
  ℕ, ◌≤◌, ◌≡◌, sym, ap, ◌∙◌, subst, Bool, List, [], ◌∷◌, length, Option, none, some, inl, inr,
  String, ◌==◌, nat_beq, arith, comparable_string, Bool-cases, Option-cases,
}
use scheduler.Base.Maps.{Map, lookup, store, delete, lookup-store, lookup-delete}
use scheduler.Models.{
  LocalData, PeerFanIn, peer_fan_in_state_get_request_id, peer_fan_in_state_get_executions_logs,
}
use scheduler.Node.FanIn.{
  Outside, Response, no_request, no_answer, answer, fetch_phase_one, fetch_phase_two, fetched,
  read_answer, new_fan_in, add_fan_ins,
}

pub length-store :
    {V : Type 0} (k : String) (v : V) (m : Map String V) → length m ≤ length (store k v m)
unfolding store
length-store k v [] = omega arith
length-store k v ((j, w) ∷ m) = ground (arith, length-store k v m)

-- A map keeps each peer under its address, in a state that satisfies `P`.
abbrev pub Keyed : (ℕ → Type 0) → Map String PeerFanIn → Type 0
Keyed P m =
    (a : String) (p : PeerFanIn) → lookup a m ≡ some p → (p.peer_http_address ≡ a) × P p.state

pub store-Keyed :
    (P : ℕ → Type 0) (p : PeerFanIn) (m : Map String PeerFanIn)
    → P p.state
    → Keyed P m
    → Keyed P (store p.peer_http_address p m)
store-Keyed P p m own k a q h = elim (Bool-cases (p.peer_http_address == a)) [
  | inl same ↦
      let eq : p.peer_http_address ≡ a =
        (comparable_string.same_iff p.peer_http_address a).0 same in
      let put : p ≡ q = ground (arith, same, lookup-store p.peer_http_address a p m, h) in
      (
        ap (λ (x : PeerFanIn). x.peer_http_address) (sym put) ∙ eq,
        subst (λ (x : PeerFanIn). P x.state) put own,
      )
  | inr other ↦ k a q (ground (arith, other, lookup-store p.peer_http_address a p m, h))
]

pub delete-Keyed :
    (P : ℕ → Type 0) (b : String) (m : Map String PeerFanIn) → Keyed P m → Keyed P (delete b m)
delete-Keyed P b m k a q h = elim (Bool-cases (b == a)) [
  | inl same ↦ absurd (ground (arith, same, lookup-delete b a m, h))
  | inr other ↦ k a q (ground (arith, other, lookup-delete b a m, h))
]

abbrev pub IsOpen : ℕ → Type 0
IsOpen k = k ≤ peer_fan_in_state_get_executions_logs

pub fetch_phase_one-Keyed :
    (r : Response) (p : PeerFanIn) (m : Map String PeerFanIn)
    → Keyed IsOpen m
    → Keyed IsOpen (fetch_phase_one r p m).0
fetch_phase_one-Keyed no_request p m k = delete-Keyed IsOpen p.peer_http_address m k
fetch_phase_one-Keyed no_answer p m k = delete-Keyed IsOpen p.peer_http_address m k
fetch_phase_one-Keyed (answer status location body closes) p m k =
    elim (Bool-cases (nat_beq status 202)) [
      | inl accepted ↦ elim (Bool-cases closes) [
        | inl closed ↦
            rw (accepted, closed)
              (store-Keyed IsOpen
                (record p { request_id = location; state = peer_fan_in_state_get_request_id }) m
                (omega arith) k)
        | inr failed ↦ rw (accepted, failed) (delete-Keyed IsOpen p.peer_http_address m k)
      ]
      | inr refused ↦ rw refused (delete-Keyed IsOpen p.peer_http_address m k)
    ]

pub fetched-Keyed :
    (d : Option LocalData) (closes : Bool) (p : PeerFanIn) (m : Map String PeerFanIn)
    → Keyed IsOpen m
    → Keyed IsOpen (fetched d closes p m)
fetched-Keyed none closes p m k = delete-Keyed IsOpen p.peer_http_address m k
fetched-Keyed (some d) closes p m k = elim (Bool-cases closes) [
  | inl closed ↦ rw closed (
      store-Keyed IsOpen (record p { data_sent = d; state = peer_fan_in_state_get_executions_logs })
        m (omega arith) k)
  | inr failed ↦ rw failed (delete-Keyed IsOpen p.peer_http_address m k)
]

pub fetch_phase_two-Keyed :
    (o : Outside) (r : Response) (p : PeerFanIn) (m : Map String PeerFanIn)
    → Keyed IsOpen m
    → Keyed IsOpen (fetch_phase_two o r p m)
fetch_phase_two-Keyed o no_request p m k = k
fetch_phase_two-Keyed o no_answer p m k = delete-Keyed IsOpen p.peer_http_address m k
fetch_phase_two-Keyed o (answer status location body closes) p m k =
    elim (Bool-cases (nat_beq status 200)) [
      | inl fine ↦ rw fine (fetched-Keyed (read_answer o body) closes p m k)
      | inr refused ↦ rw refused (delete-Keyed IsOpen p.peer_http_address m k)
    ]

pub add_fan_ins-Keyed :
    (addresses : List String) (m : Map String PeerFanIn)
    → Keyed IsOpen m
    → Keyed IsOpen (add_fan_ins addresses m).1
unfolding add_fan_ins
add_fan_ins-Keyed [] m k = k
add_fan_ins-Keyed (a ∷ addresses) m k = elim (Option-cases (lookup a m)) [
  | inl none_e ↦
      rw (none_e, add_fan_ins)
        (add_fan_ins-Keyed addresses (store a (new_fan_in a) m)
          (store-Keyed IsOpen (new_fan_in a) m (omega arith) k))
  | inr (p, some_e) ↦ rw (some_e, add_fan_ins) (add_fan_ins-Keyed addresses m k)
]
