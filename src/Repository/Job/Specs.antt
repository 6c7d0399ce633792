-- ===== src/Repository/Job/Specs.antt =====
-- UpdateOneByID of pkg/repository/job/job.go keeps the specs.
use scheduler.Base.{ℕ, ◌≡◌, refl, Bool-cases, inl, inr, List, [], none, String, comparable_string}
use scheduler.Base.Maps.{lookup}
use scheduler.Models.{Job, no_job}
use scheduler.Sql.{
  Value, Condition, update, Store, Outcome, GenericError, ok, err, panics, exits, loops,
  and_then_in,
}
use scheduler.Repository.Job.{changes_spec, get_one_by_id, update_stored, update_one_by_id}

-- What an UPDATE that does not set `spec` keeps: the view of the specs, or anything else.
module _ {D : Type 0} (l : Store D) {S : Type 0} (specs : D → S)
    (keeps : (sets : List (String × Value)) (c : Condition) (nodes : List ℕ) (action : ℕ) (db : D)
      → lookup "spec" sets ≡ none
      → specs (l.write (update "jobs" sets c) nodes action db).1 ≡ specs db) where
  update_stored-specs :
      (job stored : Job) (db : D) → specs (update_stored l job stored db).1 ≡ specs db
  unfolding lookup
  update_stored-specs job stored db = elim (Bool-cases (changes_spec stored job)) [
    | inl changed ↦ rw changed refl
    | inr same ↦ rw same (keeps _ _ [] 0 db refl)
  ]

  found-specs :
      (job : Job) (db : D) (o : Outcome GenericError Job)
      → specs (and_then_in (o, db) (update_stored l job)).1 ≡ specs db
  found-specs job db (ok stored) = update_stored-specs job stored db
  found-specs job db (err e) = refl
  found-specs job db panics = refl
  found-specs job db exits = refl
  found-specs job db loops = refl

  -- Whatever UpdateOneByID is given and returns, the specs of the jobs are those of before: for a
  -- database in which an UPDATE of jobs that does not set the column `spec` keeps them.
  pub update_one_by_id-specs : (job : Job) (db : D) → specs (update_one_by_id l job db).1 ≡ specs db
  unfolding update_one_by_id
  update_one_by_id-specs job db =
      found-specs job db (get_one_by_id l (record no_job { id = job.id }) db)
