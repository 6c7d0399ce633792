-- ===== src/Repository/JobExecution/Last.antt =====
-- GetLastExecutionLogForJobIds of pkg/repository/job_execution/job_executions.go: the reduction of the
-- rows to one log a job.
use scheduler.Base.{
  ℕ, ◌<◌, ◌≤◌, ◌≡◌, refl, ap, sym, subst, ◌∙◌, Bool, true, false, Bool-cases, inl, inr, List, [],
  ◌∷◌, ◌++◌, append_assoc, append-nil, Option, none, some, ◌⊎◌, nat_beq, ltb, if◌then◌else◌, arith,
  comparable_uint, nat_beq_iff, All, All-append, All-mono,
}
use scheduler.Base.Maps.{Map, lookup, store, lookup-store, lookup-store_self}
use scheduler.Models.{JobExecutionLog}
use scheduler.Sql.{Store, ok, and_then_ok}
use scheduler.Repository.JobExecution.{
  last_execution_logs, get_last_execution_log_for_job_ids, later_log, last_for_job, last_for_jobs,
}

abbrev pub is_in : ℕ → List ℕ → Bool
is_in j [] = false
is_in j (id ∷ ids) = if nat_beq id j then true else is_in j ids

-- A log of a later version, or of the same version and a state that is at least as great.
abbrev pub Ranks : JobExecutionLog → JobExecutionLog → Type 0
Ranks x c =
    (x.execution_version ≤ c.execution_version)
    × ((x.execution_version ≡ c.execution_version) → x.state ≤ c.state)

-- Of two logs of a job, the one of the later version has no smaller state.
abbrev pub Agree : JobExecutionLog → JobExecutionLog → Type 0
Agree x y = (x.job_id ≡ y.job_id) → x.execution_version < y.execution_version → x.state ≤ y.state

abbrev pub IsOrdered : List JobExecutionLog → Type 0
IsOrdered logs = All (λ x. All (λ y. Agree x y) logs) logs

abbrev pub IsOneOf : JobExecutionLog → List JobExecutionLog → Type 0
IsOneOf c logs = (ys : List JobExecutionLog) × (zs : List JobExecutionLog) × (logs ≡ ys ++ c ∷ zs)

-- What is known of a job after some logs were seen: nothing, and none was of the job; or a log of the job
-- that is one of all logs, and the last of those that were seen.
abbrev pub IsLast :
    List JobExecutionLog → ℕ → List JobExecutionLog → Option JobExecutionLog → Type 0
IsLast logs j seen none = All (λ x. nat_beq x.job_id j ≡ false) seen
IsLast logs j seen (some c) =
    IsOneOf c logs × (c.job_id ≡ j) × All (λ x. x.job_id ≡ j → Ranks x c) seen

All-at : {A : Type 0} (P : A → Type 0) (ys zs : List A) (c : A) → All P (ys ++ c ∷ zs) → P c
All-at P [] zs c h = h.0
All-at P (y ∷ ys) zs c h = All-at P ys zs c h.1

ordered-Agree :
    (logs : List JobExecutionLog) (x y : JobExecutionLog)
    → IsOrdered logs
    → IsOneOf x logs
    → IsOneOf y logs
    → Agree x y
ordered-Agree logs x y ordered (xs, xs', e) (ys, ys', e') =
    let row =
      All-at (λ x. All (λ y. Agree x y) logs) xs xs' x
        (subst (All (λ x. All (λ y. Agree x y) logs)) e ordered) in
    All-at (λ y. Agree x y) ys ys' y (subst (All (λ y. Agree x y)) e' row)

Ranks-trans : (x c d : JobExecutionLog) → Ranks x c → Ranks c d → Ranks x d
Ranks-trans x c d h k = (
  omega (arith, h.0, k.0),
  λ e.
      let one = h.1 (omega (arith, h.0, k.0, e)) in
      let two = k.1 (omega (arith, h.0, k.0, e)) in omega (arith, one, two),
)

-- Which of two logs of a job stays: the last.
later_log-Ranks :
    (c x : JobExecutionLog)
    → (x.execution_version < c.execution_version → x.state ≤ c.state)
    → ((later_log (some c) x ≡ x) × Ranks c x) ⊎ ((later_log (some c) x ≡ c) × Ranks x c)
later_log-Ranks c x agree = elim (Bool-cases (ltb c.execution_version x.execution_version)) [
  | inl newer ↦ inl (rw newer refl, (ground (arith, newer), λ e. absurd (ground (arith, newer, e))))
  | inr not_newer ↦ elim (Bool-cases (ltb c.state x.state)) [
    | inl further ↦ elim (Bool-cases (ltb x.execution_version c.execution_version)) [
      | inl older ↦ let le = agree (ground (arith, older)) in absurd (ground (arith, further, le))
      | inr same ↦
          inl (rw (not_newer, further) refl, (ground (arith, same), λ e. ground (arith, further)))
    ]
    | inr behind ↦
        inr (rw (not_newer, behind) refl, (ground (arith, not_newer), λ e. ground (arith, behind)))
  ]
]

module _ (logs : List JobExecutionLog) (ordered : IsOrdered logs) where
  later_log-IsLast :
      (j : ℕ) (seen : List JobExecutionLog) (o : Option JobExecutionLog) (x : JobExecutionLog)
      → IsOneOf x logs
      → x.job_id ≡ j
      → IsLast logs j seen o
      → IsLast logs j (seen ++ x ∷ []) (some (later_log o x))
  later_log-IsLast j seen none x one own h = (
    one,
    own,
    All-append (λ y. y.job_id ≡ j → Ranks y x) seen (x ∷ [])
        (
          All-mono _ _ seen (λ y other same. absurd (ground (arith, other, same))) h,
          ((λ e. (omega arith, λ e'. omega arith)), tt),
        ),
  )
  later_log-IsLast j seen (some c) x one own (one', own', ranked) =
      elim (later_log-Ranks c x
        (λ older. ordered-Agree logs x c ordered one one' (own ∙ sym own') older)) [
          | inl (e, rank) ↦ rw e (
            one,
            own,
            All-append (λ y. y.job_id ≡ j → Ranks y x) seen (x ∷ [])
                (
                  All-mono _ _ seen (λ y k same. Ranks-trans y c x (k same) rank) ranked,
                  ((λ e'. (omega arith, λ e''. omega arith)), tt),
                ),
          )
          | inr (e, rank) ↦ rw e (
            one',
            own',
            All-append (λ y. y.job_id ≡ j → Ranks y c) seen (x ∷ []) (ranked, ((λ e'. rank), tt)),
          )
        ]

  skip-IsLast :
      (j : ℕ) (seen : List JobExecutionLog) (o : Option JobExecutionLog) (x : JobExecutionLog)
      → nat_beq x.job_id j ≡ false
      → IsLast logs j seen o
      → IsLast logs j (seen ++ x ∷ []) o
  skip-IsLast j seen none x other h =
      All-append (λ y. nat_beq y.job_id j ≡ false) seen (x ∷ []) (h, (other, tt))
  skip-IsLast j seen (some c) x other (one, own, ranked) = (
    one,
    own,
    All-append (λ y. y.job_id ≡ j → Ranks y c) seen (x ∷ [])
        (ranked, ((λ same. absurd (ground (arith, other, same))), tt)),
  )

  -- The loop over the logs for one job: the rest of them, after `seen`.
  last_for_job-IsLast :
      (j : ℕ) (seen rest : List JobExecutionLog) (m : Map ℕ JobExecutionLog)
      → logs ≡ seen ++ rest
      → IsLast logs j seen (lookup j m)
      → IsLast logs j logs (lookup j (last_for_job j rest m))
  unfolding last_for_job
  last_for_job-IsLast j seen [] m e h =
      subst (λ xs. IsLast logs j xs (lookup j m)) (sym (e ∙ append-nil seen)) h
  last_for_job-IsLast j seen (x ∷ rest) m e h =
      let next : logs ≡ (seen ++ x ∷ []) ++ rest = e ∙ sym (append_assoc seen (x ∷ []) rest) in
      elim (Bool-cases (nat_beq x.job_id j)) [
        | inl same ↦
            let m' = store j (later_log (lookup j m) x) m in
            rw same (
              last_for_job-IsLast j (seen ++ x ∷ []) rest m' next (
                subst (IsLast logs j (seen ++ x ∷ []))
                  (sym (lookup-store_self j (later_log (lookup j m) x) m))
                  (later_log-IsLast j seen (lookup j m) x (seen, rest, e)
                    ((nat_beq_iff x.job_id j).0 same) h)))
        | inr other ↦ rw other (
            last_for_job-IsLast j (seen ++ x ∷ []) rest m next
              (skip-IsLast j seen (lookup j m) x other h))
      ]

  -- It leaves the other jobs.
  last_for_job-other :
      (j k : ℕ) (rest : List JobExecutionLog) (m : Map ℕ JobExecutionLog)
      → nat_beq j k ≡ false
      → lookup k (last_for_job j rest m) ≡ lookup k m
  unfolding last_for_job
  last_for_job-other j k [] m h = refl
  last_for_job-other j k (x ∷ rest) m h = elim (Bool-cases (nat_beq x.job_id j)) [
    | inl same ↦
        let v = later_log (lookup j m) x in
        rw same (last_for_job-other j k rest (store j v m) h ∙ lookup-store j k v m ∙ rw h refl)
    | inr other ↦ rw other (last_for_job-other j k rest m h)
  ]

  -- What was seen for a job is forgotten when it is asked for again.
  forgotten :
      (j : ℕ) (seen : List JobExecutionLog) (o : Option JobExecutionLog)
      → IsLast logs j seen o
      → IsLast logs j [] o
  forgotten j seen none h = tt
  forgotten j seen (some c) h = (h.0, h.1, tt)

  abbrev IsKnown : ℕ → Option JobExecutionLog → Type 0
  IsKnown j o = (o ≡ none) ⊎ IsLast logs j logs o

  from_known : (j : ℕ) (o : Option JobExecutionLog) → IsKnown j o → IsLast logs j [] o
  from_known j o (inl h) = subst (IsLast logs j []) (sym h) tt
  from_known j o (inr h) = forgotten j logs o h

  last_for_jobs-IsLast :
      (ids : List ℕ) (m : Map ℕ JobExecutionLog)
      → ((j : ℕ) → IsKnown j (lookup j m))
      → (j : ℕ)
      → ((is_in j ids ≡ true) × IsLast logs j logs (lookup j (last_for_jobs ids logs m)))
        ⊎ ((is_in j ids ≡ false) × (lookup j (last_for_jobs ids logs m) ≡ lookup j m))
  unfolding last_for_jobs
  last_for_jobs-IsLast [] m known j = inr (refl, refl)
  last_for_jobs-IsLast (id ∷ ids) m known j =
      let m' = last_for_job id logs m in
      let own : IsLast logs id logs (lookup id m') =
        last_for_job-IsLast id [] logs m refl (from_known id (lookup id m) (known id)) in
      let all : (k : ℕ) → IsKnown k (lookup k m') = λ k. elim (Bool-cases (nat_beq id k)) [
        | inl same ↦
            inr (subst (λ k. IsLast logs k logs (lookup k m')) ((nat_beq_iff id k).0 same) own)
        | inr other ↦ subst (IsKnown k) (sym (last_for_job-other id k logs m other)) (known k)
      ] in
      elim (last_for_jobs-IsLast ids m' all j) [
        | inl (asked, last) ↦ inl (ground (arith, asked), last)
        | inr (out, same) ↦ elim (Bool-cases (nat_beq id j)) [
          | inl here ↦ inl (
            rw here refl,
            subst (IsLast logs j logs) (sym same)
                (subst (λ k. IsLast logs k logs (lookup k m')) ((nat_beq_iff id j).0 here) own),
          )
          | inr there ↦ inr (rw there out, same ∙ last_for_job-other id j logs m there)
        ]
      ]

-- What the returned map has for a job: nothing, if it was not asked for, or if the query gave no log of it;
-- else one of the logs of the job, of the latest version, and of that version in the greatest state.
abbrev pub IsLastFor : List ℕ → List JobExecutionLog → ℕ → Option JobExecutionLog → Type 0
IsLastFor ids logs j o =
    ((is_in j ids ≡ true) × IsLast logs j logs o) ⊎ ((is_in j ids ≡ false) × (o ≡ none))

-- The map that GetLastExecutionLogForJobIds returns has the last log of each job that was asked for and has
-- one, however often it was asked for: one of its logs, of the latest version, and of that version in the
-- greatest state; it has nothing for a job without a log, and nothing for one that was not asked for. Where
-- the query gives logs of which, of the same job, one of a later version has no smaller state; otherwise a
-- log of an earlier version with a greater state takes its place.
pub get_last_execution_log_for_job_ids-IsLast :
    {D : Type 0} (l : Store D) (ids : List ℕ) (db : D) (logs : List JobExecutionLog)
    → last_execution_logs l ids db ≡ ok logs
    → IsOrdered logs
    → (m : Map ℕ JobExecutionLog) × (get_last_execution_log_for_job_ids l ids db ≡ ok m)
      × ((j : ℕ) → IsLastFor ids logs j (lookup j m))
unfolding get_last_execution_log_for_job_ids lookup
get_last_execution_log_for_job_ids-IsLast l ids db logs found ordered = (
  last_for_jobs ids logs [],
  ap (λ o. and_then_ok o (λ xs. ok (last_for_jobs ids xs []))) found,
  last_for_jobs-IsLast logs ordered ids [] (λ k. inl refl),
)
