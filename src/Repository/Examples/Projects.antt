-- ===== src/Repository/Examples/Projects.antt =====
-- Tests of the repositories of projects and job queues, and of a log of statements.
use scheduler.Base.{
  ℕ, ◌≡◌, refl, ap, sym, ◌∙◌, Bool-cases, true, false, List, [], ◌∷◌, none, some, ◌⊎◌, inl, inr,
  String, All, nat_beq, if◌then◌else◌, comparable_string, comparable_uint,
}
use scheduler.Sql.{Value, number, Condition, Statement, insert, remove, Rows, Query, select, Store}
use scheduler.SharedRepo.Tables.{done}
use scheduler.Repository.JobExecution.Raft.{raft_insert_execution_logs}
use scheduler.Repository.JobQueue.Versions.{Versions, max_value}
use scheduler.Repository.Project.Deletes.{Cascades, others}
use scheduler.Repository.WellFormed.{IsWellFormed, raft_insert_execution_logs-IsWellFormed}
use scheduler.Repository.Examples.{refusing, counted_answer, found_job, found_logs}

-- The ids of the projects, and the jobs with theirs.
abbrev Tables : Type 0
Tables = List ℕ × List (ℕ × ℕ)

abbrev rows_of_jobs : ℕ → List (ℕ × ℕ) → List (List Value)
rows_of_jobs p [] = []
rows_of_jobs p ((i, q) ∷ js) =
    if nat_beq q p then found_job ∷ rows_of_jobs p js else rows_of_jobs p js

abbrev asked : List Condition → List (ℕ × ℕ) → List (List Value)
asked (Condition.is c (number p) ∷ cs) jobs = rows_of_jobs p jobs
asked cs jobs = []

abbrev job_rows : Query → Tables → String ⊎ Rows
job_rows (select s args) db = inr (done (asked s.conditions db.1))
job_rows q db = inl "refused"

abbrev ids_without : ℕ → List ℕ → List ℕ
ids_without p [] = []
ids_without p (q ∷ qs) = if nat_beq q p then ids_without p qs else q ∷ ids_without p qs

-- The jobs of a project are deleted with it.
abbrev project_removed : Statement → Tables → Tables
project_removed (remove t (Condition.is c (number p))) db = (ids_without p db.0, others p db.1)
project_removed s db = db

abbrev two_tables : Store Tables
two_tables = record refusing {
  query = job_rows;
  write = λ s nodes action db. (inr (some (counted_answer s)), project_removed s db);
}

rows_of_jobs-none :
    (p : ℕ) (jobs : List (ℕ × ℕ)) → rows_of_jobs p jobs ≡ [] → All (λ j. nat_beq j.1 p ≡ false) jobs
rows_of_jobs-none p [] h = tt
rows_of_jobs-none p ((i, q) ∷ qs) h = elim (Bool-cases (nat_beq q p)) [
  | inl same ↦
      absurd (cons-ne-nil found_job (rows_of_jobs p qs) (sym (rows_same i p q qs same) ∙ h))
  | inr other ↦ (other, rows_of_jobs-none p qs (sym (rows_other i p q qs other) ∙ h))
]
  where
    cons-ne-nil : (v : List Value) (vs : List (List Value)) → (v ∷ vs ≡ []) → ⊥
    cons-ne-nil v vs h = cc

    rows_same :
        (i p q : ℕ) (qs : List (ℕ × ℕ))
        → nat_beq q p ≡ true
        → rows_of_jobs p ((i, q) ∷ qs) ≡ found_job ∷ rows_of_jobs p qs
    rows_same i p q qs e = rw e refl

    rows_other :
        (i p q : ℕ) (qs : List (ℕ × ℕ))
        → nat_beq q p ≡ false
        → rows_of_jobs p ((i, q) ∷ qs) ≡ rows_of_jobs p qs
    rows_other i p q qs e = rw e refl

abbrev rows_or : Rows → String ⊎ Rows → Rows
rows_or r (inl e) = r
rows_or r (inr r') = r'

abbrev two_tables_cascades : Cascades two_tables
two_tables_cascades = record {
  jobs = λ db. db.1;
  found =
      λ p db r h none_found. rows_of_jobs-none p db.1 (ap (λ x. (rows_or r x).rows) h ∙ none_found);
  removed = λ p nodes action db. inr refl;
}

-- A raft log that is the list of its statements.
abbrev logging : Store (List Statement)
logging = record refusing { write = λ s nodes action db. (inr none, s ∷ db) }

raft_insert_execution_logs-IsWellFormed_example :
    All IsWellFormed (raft_insert_execution_logs logging found_logs 1 [])
raft_insert_execution_logs-IsWellFormed_example =
    raft_insert_execution_logs-IsWellFormed logging (All IsWellFormed)
      (λ s nodes action db h k. (h, k)) found_logs 1 [] tt

-- A database that is the list of its versions.
abbrev with_version : List (List Value) → List ℕ → List ℕ
with_version ((number v ∷ vs) ∷ rows) db = v ∷ db
with_version rows db = db

abbrev version_added : Statement → List ℕ → List ℕ
version_added (insert t cs vss) db = with_version vss db
version_added s db = db

abbrev versioned : Store (List ℕ)
versioned = record refusing {
  query = λ q db. inr (done ((max_value db ∷ []) ∷ []));
  write = λ s nodes action db. (inr none, version_added s db);
}

abbrev versioned_versions : Versions versioned
versioned_versions = record {
  scans = record { texts = λ s. refl; numbers = λ n. refl; flags = λ b. refl; times = λ n. refl };
  versions = λ db. db;
  maximum = λ db. refl;
  added = λ v n nodes action db db' r h. ap (λ w. w.1) (sym h);
}
