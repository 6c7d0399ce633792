-- ===== src/Repository/Project/Deletes.antt =====
-- DeleteOneByID of pkg/repository/project/project.go and the jobs, which the database deletes with their
-- project.
use scheduler.Base.{
  ℕ, ◌≡◌, false, inr, ◌⊎◌, List, [], ◌∷◌, All, if◌then◌else◌, comparable_uint, nat_beq,
}
use scheduler.Models.{Project, Job}
use scheduler.Sql.{is, number, remove, select, Rows, Store}
use scheduler.Repository.Job.{project_jobs}

-- The jobs of the other projects.
abbrev pub others : ℕ → List (ℕ × ℕ) → List (ℕ × ℕ)
others p [] = []
others p ((i, q) ∷ js) = if nat_beq q p then others p js else (i, q) ∷ others p js

-- What sqlite promises of the table of jobs: the query for a job of a project finds one if there is one, and
-- a DELETE of a project removes its jobs too, since their foreign key says ON DELETE CASCADE, and leaves the
-- others; or it is not applied. A job is its id and that of its project.
pub record Cascades {D : Type 0} (l : Store D) : Type 0 where
  pub jobs : D → List (ℕ × ℕ)
  pub found :
      (p : ℕ) (db : D) (r : Rows)
      → l.query (select (project_jobs p 0 1 "id") []) db ≡ inr r
      → r.rows ≡ []
      → All (λ j. nat_beq j.1 p ≡ false) (jobs db)
  pub removed :
      (p : ℕ) (nodes : List ℕ) (action : ℕ) (db : D)
      → let db' = (l.write (remove "projects" (is "id" (number p))) nodes action db).1 in
        (jobs db' ≡ jobs db) ⊎ (jobs db' ≡ others p (jobs db))
