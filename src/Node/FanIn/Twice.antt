-- ===== src/Node/FanIn/Twice.antt =====
-- The peers that a tick selects, and its first phase.
use scheduler.Base.{
  ℕ, ◌≡◌, refl, ap, ◌∙◌, Bool-cases, true, Option-cases, inl, inr, List, [], ◌∷◌, ◌++◌, map, some,
  append_assoc, String, ◌==◌, nat_beq, All, All-mono, arith, comparable_string,
}
use scheduler.Base.Maps.{Map, lookup, store, lookup-store, lookup-store_self}
use scheduler.Models.{
  PeerFanIn, peer_fan_in_state_not_stated, peer_fan_in_state_get_request_id,
  peer_fan_in_state_get_executions_logs,
}
use scheduler.Node.FanIn.{
  NodeService, Outside, Goroutine, phase_one, phase_two, phase_three, in_state, phase, spawn, tick,
  new_fan_in, add_fan_ins, select_random_peers_to_fan_in, get_random_fan_in_peer_http_addresses,
}

abbrev pub Occurs : {A : Type 0} → A → List A → Type 0
Occurs {A = A} x xs = (ys : List A) × (zs : List A) × (xs ≡ ys ++ x ∷ zs)

-- Range comes by every entry of a map.
abbrev pub VisitsAll : Outside → Type 0
VisitsAll o =
    (a : String) (p : PeerFanIn) (m : Map String PeerFanIn)
    → lookup a m ≡ some p
    → Occurs (a, p) (o.visit m)

map-append : {A B : Type 0} (f : A → B) (xs ys : List A) → map f (xs ++ ys) ≡ map f xs ++ map f ys
map-append f [] ys = refl
map-append f (x ∷ xs) ys = ap (λ l. f x ∷ l) (map-append f xs ys)

in_state-append :
    (k : ℕ) (ps qs : List PeerFanIn) → in_state k (ps ++ qs) ≡ in_state k ps ++ in_state k qs
unfolding in_state
in_state-append k [] qs = refl
in_state-append k (p ∷ ps) qs = elim (Bool-cases (nat_beq p.state k)) [
  | inl same ↦ rw same (ap (λ l. p ∷ l) (in_state-append k ps qs))
  | inr other ↦ rw other (in_state-append k ps qs)
]

in_state-Occurs :
    (k : ℕ) (p : PeerFanIn) (ps : List PeerFanIn)
    → nat_beq p.state k ≡ true
    → Occurs p ps
    → Occurs p (in_state k ps)
unfolding in_state
in_state-Occurs k p ps same (ys, zs, e) =
    (in_state k ys, in_state k zs, ap (in_state k) e ∙ in_state-append k ys (p ∷ zs) ∙ rw same refl)

-- A new peer is in the first state, and stays under its address.
add_fan_ins-keeps :
    (a : String) (p : PeerFanIn) (addresses : List String) (m : Map String PeerFanIn)
    → lookup a m ≡ some p
    → lookup a (add_fan_ins addresses m).1 ≡ some p
unfolding add_fan_ins
add_fan_ins-keeps a p [] m h = h
add_fan_ins-keeps a p (b ∷ addresses) m h = elim (Option-cases (lookup b m)) [
  | inl new ↦
      rw (new, add_fan_ins)
        (add_fan_ins-keeps a p addresses (store b (new_fan_in b) m) (elim (Bool-cases (b == a)) [
          | inl same ↦ absurd (ground (arith, (comparable_string.same_iff b a).0 same, new, h))
          | inr other ↦ ground (arith, other, lookup-store b a (new_fan_in b) m, h)
        ]))
  | inr (q, known) ↦ rw (known, add_fan_ins) (add_fan_ins-keeps a p addresses m h)
]

-- A selected peer: in the first state, and in the map.
pub record IsNew (m : Map String PeerFanIn) (p : PeerFanIn) : Type 0 where
  pub fresh : p.state ≡ peer_fan_in_state_not_stated
  pub stored : lookup p.peer_http_address m ≡ some p

add_fan_ins-IsNew :
    (addresses : List String) (m : Map String PeerFanIn)
    → All (IsNew (add_fan_ins addresses m).1) (add_fan_ins addresses m).0
unfolding add_fan_ins
add_fan_ins-IsNew [] m = tt
add_fan_ins-IsNew (a ∷ addresses) m = elim (Option-cases (lookup a m)) [
  | inl new ↦
      let m' : Map String PeerFanIn = store a (new_fan_in a) m in
      rw (new, add_fan_ins)
        (
          record {
            fresh = refl;
            stored =
                add_fan_ins-keeps a (new_fan_in a) addresses m'
                  (lookup-store_self a (new_fan_in a) m);
          },
          add_fan_ins-IsNew addresses m',
        )
  | inr (q, known) ↦ rw (known, add_fan_ins) (add_fan_ins-IsNew addresses m)
]

in_state_new :
    (m : Map String PeerFanIn) (ps : List PeerFanIn)
    → All (IsNew m) ps
    → in_state peer_fan_in_state_not_stated ps ≡ ps
unfolding in_state
in_state_new m [] h = refl
in_state_new m (p ∷ ps) (first, rest) =
    let is_new : nat_beq p.state peer_fan_in_state_not_stated ≡ true = rw first.fresh refl in
    rw is_new (ap (λ l. p ∷ l) (in_state_new m ps rest))

phase-Occurs :
    (o : Outside) (m : Map String PeerFanIn)
    → VisitsAll o
    → (others : List PeerFanIn) × (phase o peer_fan_in_state_not_stated
          (select_random_peers_to_fan_in o m).0
          (select_random_peers_to_fan_in o m).1
        ≡ (select_random_peers_to_fan_in o m).0 ++ others)
      × All (λ p. Occurs p others) (select_random_peers_to_fan_in o m).0
unfolding select_random_peers_to_fan_in
phase-Occurs o m visits =
    let r = select_random_peers_to_fan_in o m in
    let new = add_fan_ins-IsNew (get_random_fan_in_peer_http_addresses o (map (λ x. x.0) m)) m in
    let seen : List PeerFanIn = map (λ x. x.1) (o.visit r.1) in
    (
      in_state peer_fan_in_state_not_stated seen,
      ap (λ ps. ps ++ in_state peer_fan_in_state_not_stated seen) (in_state_new r.1 r.0 new),
      All-mono (IsNew r.1) (λ p. Occurs p (in_state peer_fan_in_state_not_stated seen)) r.0
          (λ p is_new.
            let (ys, zs, e) = visits p.peer_http_address p r.1 is_new.stored in
            in_state-Occurs peer_fan_in_state_not_stated p seen (rw is_new.fresh refl) (
              map (λ x. x.1) ys,
              map (λ x. x.1) zs,
              ap (map (λ x. x.1)) e ∙ map-append (λ x. x.1) ys ((p.peer_http_address, p) ∷ zs),
            ))
          new,
    )

-- A tick asks each peer that it selects twice: its goroutine of the first phase has the selected peers, and
-- then others, among which each selected one occurs again. Range comes by every entry of a map.
pub tick-Occurs :
    {D : Type 0} (o : Outside) (n : NodeService D)
    → VisitsAll o
    → (others : List PeerFanIn) × (later : List Goroutine) × ((tick o n).running
        ≡ (n.running ++ spawn phase_one ((select_random_peers_to_fan_in o n.fan_ins).0 ++ others))
          ++ later)
      × All (λ p. Occurs p others) (select_random_peers_to_fan_in o n.fan_ins).0
unfolding tick
tick-Occurs o n visits =
    let r = select_random_peers_to_fan_in o n.fan_ins in
    let (others, e, again) = phase-Occurs o n.fan_ins visits in
    let two = spawn phase_two (phase o peer_fan_in_state_get_request_id r.0 r.1) in
    let three = spawn phase_three (phase o peer_fan_in_state_get_executions_logs r.0 r.1) in
    (
      others,
      two ++ three,
      append_assoc (n.running ++ spawn phase_one (phase o peer_fan_in_state_not_stated r.0 r.1)) two
            three
          ∙ ap (λ ps. (n.running ++ spawn phase_one ps) ++ (two ++ three)) e,
      again,
    )
