-- ===== src/Queue/Logs.antt =====
-- What the leader writes to the queue log: `queue` and `Queue` as a whole.
use mathlib.Core.List.{Perm}
use scheduler.Base.{
  ℕ, suc, ◌+◌, ◌-◌, ◌/◌, ◌^◌, ◌≤◌, ◌<◌, ◌≡◌, refl, ◌∙◌, ap, subst, ◌≢◌, true, false, List, [], ◌∷◌,
  some, arith, leb, if◌then◌else◌, ◌==◌, comparable_uint, length, All, All-mono, map, Bool-cases,
  inl, inr, ◌&&◌,
}
use scheduler.Base.Words.{max_int64, min_int16, add64, sub64}
use scheduler.Base.Maps.{Map, lookup, lookup-store}
use scheduler.Models.{Job, JobQueueLog}
use scheduler.Queue.{
  JobQueue, Outside, or_zero, charge, hand_out, queue, widen, reset_bounds, queue_jobs,
  get_next_server_to_queue,
}
use scheduler.Queue.Ranges.{IsPartition, assign-IsPartition}
use scheduler.Queue.Servers.{
  IsRegistered, mem_of_lookup, mem-IsRegistered, IsRegistered-store,
  get_next_server_to_queue-IsLeast,
}
use scheduler.Queue.Widening.{IsReset, IsSmall, IsWithin, widen-Surrounds}

abbrev pub range_of : JobQueueLog → List ℕ
range_of l = l.lower_bound_job_id ∷ l.upper_bound_job_id ∷ []

-- Go visits each entry of a map once, in any order.
abbrev pub VisitsAll : Outside → Type 0
VisitsAll o = (k : ℕ) (m : Map ℕ ℕ) → Perm (o.visit k m) m

-- A log of the current version for a registered node other than the leader.
pub record IsAddressed (o : Outside) (m : Map ℕ ℕ) (l : JobQueueLog) : Type 0 where
  pub current : l.version ≡ o.last_version
  pub other : l.node_id ≢ o.node_id
  pub registered : IsRegistered l.node_id m

module _ (o : Outside) (visits : VisitsAll o) (width hi : ℕ) where
  -- Some other node can take all that is left of the range without passing 2 ^ 62.
  abbrev HasRoom : ℕ → Map ℕ ℕ → Type 0
  HasRoom lo m = (s a : ℕ) × (lookup s m ≡ some a) × (s ≢ o.node_id) × (a + hi + 1 ≤ 2 ^ 62 + lo)

  charge-HasRoom :
      (lo b server : ℕ) (m : Map ℕ ℕ)
      → lo ≤ b
      → b ≤ hi
      → hi < 2 ^ 62
      → HasRoom lo m
      → HasRoom (b + 1) (charge server lo b m)
  unfolding charge
  charge-HasRoom lo b server m h k small (s, a, e, other, room) = elim (Bool-cases (server == s)) [
    | inl t ↦ (
      s,
      add64 a (sub64 b lo),
      ground (arith, t, lookup-store server s (add64 (or_zero (lookup server m)) (sub64 b lo)) m),
      other,
      omega arith,
    )
    | inr f ↦ (
      s,
      a,
      ground (arith, f, lookup-store server s (add64 (or_zero (lookup server m)) (sub64 b lo)) m),
      other,
      omega arith,
    )
  ]

  -- The server chosen in one round of the loop.
  abbrev chosen : ℕ → Map ℕ ℕ → ℕ
  chosen j m = get_next_server_to_queue o.node_id (o.visit j m)

  chosen_lem :
      (j lo : ℕ) (m : Map ℕ ℕ)
      → lo ≤ hi
      → HasRoom lo m
      → (chosen j m ≢ o.node_id) × IsRegistered (chosen j m) m
  chosen_lem j lo m le (s, a, e, other, room) =
      let (c, mem, different, low) =
        get_next_server_to_queue-IsLeast o.node_id s a m (o.visit j m) (visits j m)
          (mem_of_lookup s a m e) other (omega arith) in
      (different, mem-IsRegistered (chosen j m) c m mem)

  charge-IsAddressed :
      (server lo b : ℕ) (m : Map ℕ ℕ) (ls : List JobQueueLog)
      → IsRegistered server m
      → All (IsAddressed o (charge server lo b m)) ls
      → All (IsAddressed o m) ls
  unfolding charge
  charge-IsAddressed server lo b m ls h =
      All-mono (IsAddressed o (charge server lo b m)) (IsAddressed o m) ls λ l ad. record {
        current = ad.current;
        other = ad.other;
        registered = IsRegistered-store l.node_id server _ m h ad.registered;
      }

  hand_out_lem :
      (rs : List (List ℕ)) (j lo : ℕ) (m : Map ℕ ℕ)
      → hi < 2 ^ 62
      → IsPartition width lo hi rs
      → HasRoom lo m
      → (map range_of (hand_out o j rs m).0 ≡ rs) × All (IsAddressed o m) (hand_out o j rs m).0
  unfolding hand_out
  hand_out_lem [] j lo m small part room = (refl, tt)
  hand_out_lem ([] ∷ rs) j lo m small part room = elim part [ ]
  hand_out_lem ((a ∷ []) ∷ rs) j lo m small part room = elim part [ ]
  hand_out_lem ((a ∷ b ∷ c ∷ l) ∷ rs) j lo m small part room = elim part [ ]
  hand_out_lem ((a ∷ b ∷ []) ∷ rs) j lo m small (e, le, top, narrow, rest) room =
      let server : ℕ = chosen j m in
      let (different, known) = chosen_lem j lo m (omega arith) room in
      let (ranges, addressed) =
        hand_out_lem rs (j + 1) (b + 1) (charge server a b m) small rest
          (charge-HasRoom a b server m (omega arith) top small (rw e room)) in
      (
        ap (◌∷◌ (a ∷ b ∷ [])) ranges,
        (
          record { current = refl; other = different; registered = known },
          charge-IsAddressed server a b m _ known addressed,
        ),
      )

-- How many logs give the job id `i` to a node.
abbrev pub holders : ℕ → List JobQueueLog → ℕ
holders i [] = 0
holders i (l ∷ ls) =
    (if leb l.lower_bound_job_id i && leb i l.upper_bound_job_id then 1 else 0) + holders i ls

holders_below :
    (width lo hi i : ℕ) (ls : List JobQueueLog)
    → IsPartition width lo hi (map range_of ls)
    → i < lo
    → holders i ls ≡ 0
holders_below width lo hi i [] part h = refl
holders_below width lo hi i (l ∷ ls) (e, le, top, narrow, rest) h =
    ground (arith, holders_below width (l.upper_bound_job_id + 1) hi i ls rest)

holders_inside :
    (width lo hi i : ℕ) (ls : List JobQueueLog)
    → IsPartition width lo hi (map range_of ls)
    → lo ≤ i
    → i ≤ hi
    → holders i ls ≡ 1
holders_inside width lo hi i [] part h k = absurd (omega arith)
holders_inside width lo hi i (l ∷ ls) (e, le, top, narrow, rest) h k = ground (
  arith,
  holders_below width (l.upper_bound_job_id + 1) hi i ls rest,
  holders_inside width (l.upper_bound_job_id + 1) hi i ls rest,
)

length-map_range : (ls : List JobQueueLog) → length (map range_of ls) ≡ length ls
length-map_range [] = refl
length-map_range (l ∷ ls) = ap suc (length-map_range ls)

-- A leader of a cluster: `servers` other slots, and some other node `s` with room for more.
pub record IsCluster (o : Outside) (servers s a : ℕ) (q : JobQueue) : Type 0 where
  pub leads : o.is_leader ≡ true
  pub clustered : q.single_node_mode ≡ false
  pub known : length q.allocations ≡ suc servers
  pub some_server : 0 < servers
  pub few_servers : servers < 2 ^ 63
  pub listed : lookup s q.allocations ≡ some a
  pub different : s ≢ o.node_id
  pub room : a ≤ 2 ^ 61

-- For a leader of a cluster and 0 ≤ lo ≤ hi ≤ 2 ^ 52, `queue` returns; the ranges of its logs cover
-- lo to hi in order without a gap or an overlap, there are at most as many logs as other servers,
-- each log has the last version and goes to a registered node other than the leader, and of the
-- state only the allocations change.
pub queue-IsPartition :
    (o : Outside) (servers s a lo hi : ℕ) (q : JobQueue)
    → VisitsAll o
    → IsCluster o servers s a q
    → lo ≤ hi
    → hi ≤ 2 ^ 52
    → (logs : List JobQueueLog) × (m : Map ℕ ℕ) × (queue o lo hi q
        ≡ some (logs, record q { allocations = m }))
      × IsPartition ((hi - lo) / servers) lo hi (map range_of logs)
      × All (IsAddressed o q.allocations) logs
      × (length logs ≤ servers)
unfolding queue
queue-IsPartition o servers s a lo hi q visits c le small =
    let (rs, e, part, few) =
      assign-IsPartition servers lo hi c.some_server c.few_servers le small in
    let (ranges, addressed) =
      hand_out_lem o visits ((hi - lo) / servers) hi rs 0 lo q.allocations (omega arith) part
        (s, a, c.listed, c.different, omega (arith, c.room)) in
    let r = hand_out o 0 rs q.allocations in
    (
      r.0,
      r.1,
      rw (c.leads, c.known, e, c.clustered),
      rw ranges part,
      addressed,
      omega (arith, length-map_range r.0, ap length ranges),
    )

-- For a leader of a cluster, a queue whose bounds are reset, and at least one job, all ids at most
-- 2 ^ 52: `Queue` returns, each job's id lies in the range of exactly one log, each log goes to a
-- registered node other than the leader, there are at most as many logs as other servers, and the
-- bounds are reset again.
pub queue_jobs-holders :
    (o : Outside) (servers s a : ℕ) (j : Job) (js : List Job) (q : JobQueue)
    → VisitsAll o
    → IsCluster o servers s a q
    → IsReset q
    → All IsSmall (j ∷ js)
    → (logs : List JobQueueLog) × (q' : JobQueue) × (queue_jobs o (j ∷ js) q ≡ some (logs, q'))
      × All (λ k. holders k.id logs ≡ 1) (j ∷ js)
      × All (IsAddressed o q.allocations) logs
      × (length logs ≤ servers)
      × IsReset q'
unfolding queue_jobs
queue_jobs-holders o servers s a j js q visits c reset small =
    let w = widen (j ∷ js) q in
    let (ordered, top, around, mode, same) = widen-Surrounds j js q reset small in
    let cluster : IsCluster o servers s a w = record {
      leads = c.leads;
      clustered = mode ∙ c.clustered;
      known = ap length same ∙ c.known;
      some_server = c.some_server;
      few_servers = c.few_servers;
      listed = ap (lookup s) same ∙ c.listed;
      different = c.different;
      room = c.room;
    } in
    let (logs, m, e, part, addressed, few) =
      queue-IsPartition o servers s a w.min_id w.max_id w visits cluster ordered top in
    (
      logs,
      record w { allocations = m; min_id = max_int64; max_id = min_int16 },
      ap reset_bounds e,
      All-mono (IsWithin w.min_id w.max_id) (λ k. holders k.id logs ≡ 1) (j ∷ js)
          (λ k h. holders_inside _ w.min_id w.max_id k.id logs part h.0 h.1) around,
      subst (λ (n : Map ℕ ℕ). All (IsAddressed o n) logs) same addressed,
      few,
      (refl, inr refl),
    )
