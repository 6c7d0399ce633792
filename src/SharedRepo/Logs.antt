-- ===== src/SharedRepo/Logs.antt =====
-- Tables of logs: the logs with their ids, those that are appended and those that are removed.
use scheduler.Base.{
  ℕ, suc, ◌+◌, ◌≡◌, refl, ap, ◌∙◌, Bool, true, false, ◌==◌, List, [], ◌∷◌, ◌++◌, map, length,
  if◌then◌else◌, arith, Bool-cases, inl, inr, String, comparable_string,
}
use scheduler.Base.Maps.{lookup}
use scheduler.Models.{JobExecutionLog}
use scheduler.Sql.{text}
use scheduler.SharedRepo.{inserted_columns, execution_values}
use scheduler.SharedRepo.Tables.{column, numbered, mem_value, without}
use scheduler.SharedRepo.Reads.{stored, log_row}

-- Logs with the ids from `n` on.
abbrev pub with_ids : ℕ → List JobExecutionLog → List (ℕ × JobExecutionLog)
with_ids n [] = []
with_ids n (log ∷ logs) = (n, log) ∷ with_ids (n + 1) logs

pub numbered-stored :
    (n : ℕ) (logs : List JobExecutionLog)
    → numbered n inserted_columns (map execution_values logs) ≡ stored (with_ids n logs)
numbered-stored n [] = refl
numbered-stored n (log ∷ logs) = ap (λ x. (n, log_row log) ∷ x) (numbered-stored (n + 1) logs)

pub stored-append :
    (es es' : List (ℕ × JobExecutionLog)) → stored (es ++ es') ≡ stored es ++ stored es'
stored-append [] es' = refl
stored-append ((i, log) ∷ es) es' = ap (λ x. (i, log_row log) ∷ x) (stored-append es es')

pub with_ids-append :
    (n : ℕ) (logs logs' : List JobExecutionLog)
    → with_ids n (logs ++ logs') ≡ with_ids n logs ++ with_ids (n + length logs) logs'
with_ids-append n [] logs' = ap (λ m. with_ids m logs') (omega arith)
with_ids-append n (log ∷ logs) logs' =
    ap (λ x. (n, log) ∷ x)
      (with_ids-append (n + 1) logs logs'
        ∙ ap (λ m. with_ids (n + 1) logs ++ with_ids m logs') (omega arith))

pub length-map : {A B : Type 0} (f : A → B) (xs : List A) → length (map f xs) ≡ length xs
length-map f [] = refl
length-map f (x ∷ xs) = ap suc (length-map f xs)

-- Is a unique id one of those of the logs?
abbrev pub named_in : String → List JobExecutionLog → Bool
named_in u [] = false
named_in u (log ∷ logs) = if u == log.unique_id then true else named_in u logs

-- The logs of a table whose unique ids are not among those of the given ones.
abbrev pub left_by : List JobExecutionLog → List (ℕ × JobExecutionLog) → List (ℕ × JobExecutionLog)
left_by logs [] = []
left_by logs ((i, log) ∷ es) =
    if named_in log.unique_id logs then left_by logs es else (i, log) ∷ left_by logs es

pub named_in-append :
    (u : String) (xs ys : List JobExecutionLog)
    → named_in u (xs ++ ys) ≡ (if named_in u xs then true else named_in u ys)
named_in-append u [] ys = refl
named_in-append u (x ∷ xs) ys = ground (arith, named_in-append u xs ys)

pub left_by-nil : (es : List (ℕ × JobExecutionLog)) → left_by [] es ≡ es
left_by-nil [] = refl
left_by-nil (e ∷ es) = ap (λ x. e ∷ x) (left_by-nil es)

pub left_by-append :
    (xs ys : List JobExecutionLog) (es : List (ℕ × JobExecutionLog))
    → left_by ys (left_by xs es) ≡ left_by (xs ++ ys) es
left_by-append xs ys [] = refl
left_by-append xs ys ((i, log) ∷ es) =
    let rest = left_by-append xs ys es in
    elim (Bool-cases (named_in log.unique_id xs)) [
      | inl first ↦ rw (named_in-append log.unique_id xs ys, first) rest
      | inr not_first ↦ elim (Bool-cases (named_in log.unique_id ys)) [
        | inl second ↦ rw (named_in-append log.unique_id xs ys, not_first, second) rest
        | inr neither ↦
            rw (named_in-append log.unique_id xs ys, not_first, neither)
              (ap (λ x. (i, log) ∷ x) rest)
      ]
    ]

pub mem_value-named_in :
    (u : String) (logs : List JobExecutionLog)
    → mem_value (text u) (map (λ x. text x.unique_id) logs) ≡ named_in u logs
mem_value-named_in u [] = refl
mem_value-named_in u (log ∷ logs) =
    ap (λ b. if u == log.unique_id then true else b) (mem_value-named_in u logs)

pub without-stored :
    (logs : List JobExecutionLog) (es : List (ℕ × JobExecutionLog))
    → without "unique_id" (map (λ x. text x.unique_id) logs) (stored es) ≡ stored (left_by logs es)
unfolding column lookup
without-stored logs [] = refl
without-stored logs ((i, log) ∷ es) = elim (Bool-cases (named_in log.unique_id logs)) [
  | inl same ↦ rw (mem_value-named_in log.unique_id logs, same) (without-stored logs es)
  | inr other ↦
      rw (mem_value-named_in log.unique_id logs, other)
        (ap (λ x. (i, log_row log) ∷ x) (without-stored logs es))
]
