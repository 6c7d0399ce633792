-- ===== src/Node/FanIn/Invariant.antt =====
-- The well-formed states of the fan-in, and every step preserves them.
use mathlib.Core.Option.{some-injective}
use scheduler.Base.{
  ℕ, ◌+◌, ◌≤◌, ◌≡◌, refl, sym, ◌∙◌, subst, Bool, true, false, not, ◌&&◌, List, [], ◌∷◌, ◌++◌, map,
  length, some, inl, inr, String, nat_beq, All, All-append, All-mono, arith, comparable_string,
  Bool-cases, Option-cases,
}
use scheduler.Base.Maps.{Map, lookup, delete}
use scheduler.Models.{
  PeerFanIn, peer_fan_in_state_not_stated, peer_fan_in_state_get_request_id,
  peer_fan_in_state_get_executions_logs,
}
use scheduler.Sql.{Store}
use scheduler.Node.FanIn.{
  Handler, storing, counting, checking, accepting, NodeService, Outside, Goroutine, phase_one,
  phase_two, phase_three, in_state, phase, spawn, tick, fetch_phase_one, fetch_phase_two,
  commit_peer, write_local_data, handle_completed_peer_fan_in, select_random_peers_to_fan_in,
  get_random_fan_in_peer_http_addresses,
}
use scheduler.Node.FanIn.Steps.{
  left, Reachable, starts, ticks, asks, fetches, commits, receives, handles, IsFounded, IsIn,
  IsPhased, IsFanIn,
}
use scheduler.Node.FanIn.Keys.{
  length-store, store-Keyed, delete-Keyed, Keyed, IsOpen, fetch_phase_one-Keyed,
  fetch_phase_two-Keyed, add_fan_ins-Keyed,
}

All-left : {A : Type 0} (P : A → Type 0) (xs ys : List A) → All P (xs ++ ys) → All P xs × All P ys
All-left P [] ys h = (tt, h)
All-left P (x ∷ xs) ys (first, rest) =
    let (here, there) = All-left P xs ys rest in ((first, here), there)

-- A list with its middle element exchanged.
All-exchange :
    {A : Type 0} (P : A → Type 0) (xs ys : List A) (x y : A)
    → (P x → P y)
    → All P (xs ++ x ∷ ys)
    → All P (xs ++ y ∷ ys)
All-exchange P xs ys x y f h =
    let (here, there) = All-left P xs (x ∷ ys) h in
    All-append P xs (y ∷ ys) (here, (f there.0, there.1))

All-without :
    {A : Type 0} (P : A → Type 0) (xs ys : List A) (x : A) → All P (xs ++ x ∷ ys) → All P (xs ++ ys)
All-without P xs ys x h =
    let (here, there) = All-left P xs (x ∷ ys) h in All-append P xs ys (here, there.1)

All-middle : {A : Type 0} (P : A → Type 0) (xs ys : List A) (x : A) → All P (xs ++ x ∷ ys) → P x
All-middle P xs ys x h = (All-left P xs (x ∷ ys) h).1.0

in_state-IsIn : (k : ℕ) (ps : List PeerFanIn) → All (IsIn k) (in_state k ps)
unfolding in_state
in_state-IsIn k [] = tt
in_state-IsIn k (p ∷ ps) = elim (Bool-cases (nat_beq p.state k)) [
  | inl same ↦ rw same (ground (arith, same), in_state-IsIn k ps)
  | inr other ↦ rw other (in_state-IsIn k ps)
]

phase-IsIn :
    (o : Outside) (k : ℕ) (peers : List PeerFanIn) (m : Map String PeerFanIn)
    → All (IsIn k) (phase o k peers m)
phase-IsIn o k peers m =
    All-append (IsIn k) (in_state k peers) (in_state k (map (λ x. x.1) (o.visit m)))
      (in_state-IsIn k peers, in_state-IsIn k (map (λ x. x.1) (o.visit m)))

spawn-IsPhased :
    (k : ℕ) (g : List PeerFanIn → Goroutine) (ps : List PeerFanIn)
    → ((qs : List PeerFanIn) → All (IsIn k) qs → IsPhased (g qs))
    → All (IsIn k) ps
    → All IsPhased (spawn g ps)
spawn-IsPhased k g [] f h = tt
spawn-IsPhased k g (p ∷ ps) f h = (f (p ∷ ps) h, tt)

left-IsIn :
    {k : ℕ} (b : Bool) (p : PeerFanIn) (ps : List PeerFanIn)
    → All (IsIn k) (p ∷ ps)
    → All (IsIn k) (left b ps)
left-IsIn true p ps h = h.1
left-IsIn false p ps h = tt

-- A handler rests on no less when more peers are complete, or the jobs are started again.
IsFounded-more :
    (o : Outside) (c c' s s' : ℕ) (h : Handler)
    → c ≤ c'
    → s ≤ s'
    → IsFounded o c s h
    → IsFounded o c' s' h
IsFounded-more o c c' s s' (storing p) le le' k = k
IsFounded-more o c c' s s' counting le le' k = tt
IsFounded-more o c c' s s' (checking i) le le' k = omega (arith, le, k)
IsFounded-more o c c' s s' accepting le le' k = (omega (arith, le, k.0), omega (arith, le', k.1))

module _ {D : Type 0} (o : Outside) where
  tick-IsFanIn : (n : NodeService D) → IsFanIn o n → IsFanIn o (tick o n)
  unfolding tick select_random_peers_to_fan_in
  tick-IsFanIn n wf =
      let r = select_random_peers_to_fan_in o n.fan_ins in
      record {
        keyed =
            add_fan_ins-Keyed (get_random_fan_in_peer_http_addresses o (map (λ x. x.0) n.fan_ins))
              n.fan_ins wf.keyed;
        phased = All-append IsPhased _ _ (
          All-append IsPhased _ _ (
            All-append IsPhased n.running _ (
              wf.phased,
              spawn-IsPhased peer_fan_in_state_not_stated phase_one _ (λ qs h. h)
                  (phase-IsIn o peer_fan_in_state_not_stated r.0 r.1),
            ),
            spawn-IsPhased peer_fan_in_state_get_request_id phase_two _ (λ qs h. h)
                (phase-IsIn o peer_fan_in_state_get_request_id r.0 r.1),
          ),
          spawn-IsPhased peer_fan_in_state_get_executions_logs phase_three _ (λ qs h. h)
              (phase-IsIn o peer_fan_in_state_get_executions_logs r.0 r.1),
        );
        sent = wf.sent;
        completed = wf.completed;
        accepts = wf.accepts;
        founded = wf.founded;
      }

  -- A round that takes a peer off a goroutine, and leaves what is not about the phases as it is.
  round-IsFanIn :
      (n : NodeService D) (m : Map String PeerFanIn) (gs hs : List Goroutine) (g g' : Goroutine)
      → n.running ≡ gs ++ g ∷ hs
      → (IsPhased g → IsPhased g')
      → Keyed IsOpen m
      → IsFanIn o n
      → IsFanIn o (record n { fan_ins = m; running = gs ++ g' ∷ hs })
  round-IsFanIn n m gs hs g g' runs f k wf = record {
    keyed = k;
    phased = All-exchange IsPhased gs hs g g' f (subst (All IsPhased) runs wf.phased);
    sent = wf.sent;
    completed = wf.completed;
    accepts = wf.accepts;
    founded = wf.founded;
  }

  commit_peer-IsFanIn :
      (l : Store D) (p : PeerFanIn) (n n' : NodeService D)
      → p.state ≡ peer_fan_in_state_get_executions_logs
      → commit_peer l o p n ≡ some n'
      → IsFanIn o n
      → IsFanIn o n'
  unfolding commit_peer
  commit_peer-IsFanIn l p n n' ready e wf =
      elim (Option-cases (write_local_data l o p.data_sent n.db)) [
        | inl panicked ↦ absurd (cc)
        | inr (db, written) ↦
            let next : NodeService D = record n {
              db = db;
              fan_ins = delete p.peer_http_address n.fan_ins;
              fan_in_ch = n.fan_in_ch ++ p ∷ [];
            } in
            let fine : IsFanIn o next = record {
              keyed = delete-Keyed IsOpen p.peer_http_address n.fan_ins wf.keyed;
              phased = wf.phased;
              sent =
                  All-append (IsIn peer_fan_in_state_get_executions_logs) n.fan_in_ch (p ∷ [])
                    (wf.sent, (ready, tt));
              completed = wf.completed;
              accepts = wf.accepts;
              founded = wf.founded;
            } in
            let done : commit_peer l o p n ≡ some next = rw (written, commit_peer) refl in
            subst (IsFanIn o) (some-injective next n' (sym done ∙ e)) fine
      ]

  -- The step of one handler among others.
  handle-IsFanIn :
      (h : Handler) (gs hs : List Handler) (n : NodeService D)
      → n.handlers ≡ gs ++ h ∷ hs
      → IsFanIn o n
      → IsFanIn o (record (handle_completed_peer_fan_in o h n).1 {
        handlers = gs ++ ((handle_completed_peer_fan_in o h n).0 ++ hs);
      })
  unfolding handle_completed_peer_fan_in
  handle-IsFanIn (storing p) gs hs n e wf =
      let c = length n.completed_fan_in_ch in
      let founded = subst (All (IsFounded o c n.started)) e wf.founded in
      let ready = All-middle (IsFounded o c n.started) gs hs (storing p) founded in
      let grows = length-store p.peer_http_address p n.completed_fan_in_ch in
      record {
        keyed = wf.keyed;
        phased = wf.phased;
        sent = wf.sent;
        completed =
            store-Keyed (λ k. k ≡ peer_fan_in_state_get_executions_logs) p n.completed_fan_in_ch
              ready wf.completed;
        founded =
            All-mono _ _ (gs ++ counting ∷ hs)
              (λ h'. IsFounded-more o c _ n.started n.started h' grows (omega arith))
              (All-exchange (IsFounded o c n.started) gs hs (storing p) counting (λ k. tt) founded);
        accepts = λ yes. (omega (arith, (wf.accepts yes).0, grows), (wf.accepts yes).1);
      }
  handle-IsFanIn counting gs hs n e wf =
      let c = length n.completed_fan_in_ch in
      let founded = subst (All (IsFounded o c n.started)) e wf.founded in
      record {
        keyed = wf.keyed;
        phased = wf.phased;
        sent = wf.sent;
        completed = wf.completed;
        founded =
            All-exchange (IsFounded o c n.started) gs hs counting (checking c) (λ k. omega arith)
              founded;
        accepts = wf.accepts;
      }
  handle-IsFanIn (checking k) gs hs n e wf =
      let c = length n.completed_fan_in_ch in
      let founded = subst (All (IsFounded o c n.started)) e wf.founded in
      let counted : k ≤ c = All-middle (IsFounded o c n.started) gs hs (checking k) founded in
      elim (Bool-cases (nat_beq (k + 1) o.replicas && not n.accept_client_writes)) [
        | inl all ↦ rw all (record {
          keyed = wf.keyed;
          phased = wf.phased;
          sent = wf.sent;
          completed = wf.completed;
          founded =
              All-exchange (IsFounded o c (n.started + 1)) gs hs (checking k) accepting
                (λ le. (ground (arith, all, counted), omega arith))
                (All-mono _ _ (gs ++ checking k ∷ hs)
                  (λ h'.
                    IsFounded-more o c c n.started (n.started + 1) h' (omega arith) (omega arith))
                  founded);
          accepts = λ yes. ((wf.accepts yes).0, omega arith);
        })
        | inr more ↦ rw more (record {
          keyed = wf.keyed;
          phased = wf.phased;
          sent = wf.sent;
          completed = wf.completed;
          founded = All-without (IsFounded o c n.started) gs hs (checking k) founded;
          accepts = wf.accepts;
        })
      ]
  handle-IsFanIn accepting gs hs n e wf =
      let c = length n.completed_fan_in_ch in
      let founded = subst (All (IsFounded o c n.started)) e wf.founded in
      let here = All-middle (IsFounded o c n.started) gs hs accepting founded in
      record {
        keyed = wf.keyed;
        phased = wf.phased;
        sent = wf.sent;
        completed = wf.completed;
        founded = All-without (IsFounded o c n.started) gs hs accepting founded;
        accepts = λ yes. here;
      }

-- In every state that the fan-in of a new leader reaches, in any interleaving of its goroutines and with
-- any answers: a peer is kept under its address; a goroutine of a phase holds only peers in the state of
-- that phase; what is sent and what is complete has its logs fetched; and the node takes writes only once as
-- many addresses are complete as there are other replicas, and the jobs have been started.
pub Reachable-IsFanIn :
    {D : Type 0} (l : Store D) (o : Outside) (db : D) (n : NodeService D)
    → Reachable l o db n
    → IsFanIn o n
unfolding lookup
Reachable-IsFanIn l o db _ starts = record {
  keyed = λ a p h. absurd cc;
  phased = tt;
  sent = tt;
  completed = λ a p h. absurd cc;
  founded = tt;
  accepts = λ h. absurd cc;
}
Reachable-IsFanIn l o db _ (ticks {n} r) = tick-IsFanIn o n (Reachable-IsFanIn l o db n r)
Reachable-IsFanIn l o db _ (asks {n} a p ps gs hs e r) =
    let wf = Reachable-IsFanIn l o db n r in
    round-IsFanIn o n (fetch_phase_one a p n.fan_ins).0 gs hs (phase_one (p ∷ ps))
      (phase_one (left (fetch_phase_one a p n.fan_ins).1 ps)) e
      (left-IsIn (fetch_phase_one a p n.fan_ins).1 p ps)
      (fetch_phase_one-Keyed a p n.fan_ins wf.keyed) wf
Reachable-IsFanIn l o db _ (fetches {n} a p ps gs hs e r) =
    let wf = Reachable-IsFanIn l o db n r in
    round-IsFanIn o n (fetch_phase_two o a p n.fan_ins) gs hs (phase_two (p ∷ ps)) (phase_two ps) e
      (λ h. h.1) (fetch_phase_two-Keyed o a p n.fan_ins wf.keyed) wf
Reachable-IsFanIn l o db _ (commits {n} {n'} p ps gs hs e done r) =
    let wf = Reachable-IsFanIn l o db n r in
    let next =
      round-IsFanIn o n n.fan_ins gs hs (phase_three (p ∷ ps)) (phase_three ps) e (λ h. h.1)
        wf.keyed wf in
    commit_peer-IsFanIn o l p (record n { running = gs ++ phase_three ps ∷ hs }) n'
      (All-middle IsPhased gs hs (phase_three (p ∷ ps)) (subst (All IsPhased) e wf.phased)).0 done
      next
Reachable-IsFanIn l o db _ (receives {n} p ps qs e r) =
    let wf = Reachable-IsFanIn l o db n r in
    let waiting = subst (All (IsIn peer_fan_in_state_get_executions_logs)) e wf.sent in
    let (before, after) =
      All-left (IsIn peer_fan_in_state_get_executions_logs) ps (p ∷ qs) waiting in
    record {
      keyed = wf.keyed;
      phased = wf.phased;
      sent = All-append (IsIn peer_fan_in_state_get_executions_logs) ps qs (before, after.1);
      completed = wf.completed;
      founded = (after.0, wf.founded);
      accepts = wf.accepts;
    }
Reachable-IsFanIn l o db _ (handles {n} h gs hs e r) =
    handle-IsFanIn o h gs hs n e (Reachable-IsFanIn l o db n r)
