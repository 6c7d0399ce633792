-- ===== src/Repository/JobQueue/Versions.antt =====
-- IncrementQueueVersion and GetLastVersion of pkg/repository/job_queue/job_queues.go.
use scheduler.Base.{
  ℕ, ◌≡◌, refl, ap, ◌∙◌, List, [], ◌∷◌, Option, none, some, inr, leb, if◌then◌else◌,
}
use scheduler.RaftLog.{FsmResponse}
use scheduler.Sql.{Value, number, null, select, Store, ok, scan_all, scan, fill, last_or}
use scheduler.Sql.Scans.{Scans, read-all_rows}
use scheduler.SharedRepo.Tables.{done}
use scheduler.Repository.JobQueue.{
  last_version_select, version_insert, last_version_of, version_or_zero, optional_number,
  get_last_version,
}

abbrev pub max_of : ℕ → List ℕ → ℕ
max_of m [] = m
max_of m (v ∷ vs) = max_of (if leb m v then v else m) vs

abbrev pub max_value : List ℕ → Value
max_value [] = null
max_value (v ∷ vs) = number (max_of v vs)

abbrev pub greatest : List ℕ → ℕ
greatest [] = 0
greatest (v ∷ vs) = max_of v vs

-- What sqlite and the raft log promise: MAX over the versions, which is NULL without one, and an INSERT
-- that is answered without an error adds its version.
pub record Versions {D : Type 0} (l : Store D) : Type 0 where
  pub scans : Scans l
  pub versions : D → List ℕ
  pub maximum :
      (db : D)
      → l.query (select last_version_select []) db
        ≡ inr (done ((max_value (versions db) ∷ []) ∷ []))
  pub added :
      (v n : ℕ) (nodes : List ℕ) (action : ℕ) (db db' : D) (r : Option FsmResponse)
      → l.write (version_insert v n) nodes action db ≡ (inr r, db')
      → versions db' ≡ v ∷ versions db

module _ {D : Type 0} (l : Store D) (t : Versions l) where
  scan_all-version :
      (vs : List ℕ)
      → (xs : List (Option ℕ)) × (scan_all l
            (optional_number l ∷ [])
            none
            ((max_value vs ∷ []) ∷ [])
          ≡ inr xs)
        × (version_or_zero (last_or none xs) ≡ greatest vs)
  unfolding scan_all scan fill
  scan_all-version [] = (none ∷ [], refl, refl)
  scan_all-version (v ∷ vs) =
      (some (max_of v vs) ∷ [], rw (t.scans.numbers (max_of v vs)) refl, refl)

  -- GetLastVersion gives the greatest version, or 0 if there is none.
  pub get_last_version-greatest : (db : D) → get_last_version l db ≡ ok (greatest (t.versions db))
  unfolding get_last_version
  get_last_version-greatest db =
      let (xs, read_eq, value) = scan_all-version (t.versions db) in
      ap last_version_of (
        read-all_rows l (optional_number l ∷ []) none (select last_version_select []) db
          (done ((max_value (t.versions db) ∷ []) ∷ [])) xs (t.maximum db) refl read_eq)
      ∙ ap ok value
