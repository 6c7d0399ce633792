-- ===== src/Repository/Project.antt =====
-- pkg/repository/project/project.go. ToSql has no error for the statements here.
pub mod Deletes
use scheduler.Base.{
  ℕ, zero, suc, Bool, true, false, List, [], ◌∷◌, ◌++◌, map, Option, none, some, ◌⊎◌, inl, inr,
  String, ◌==◌, ltb, if◌then◌else◌, comparable_string, comparable_uint,
}
use Prim.Native.String.{◌++◌ as text_append}
use scheduler.Models.{Project, Job, no_project}
use scheduler.RaftLog.{FsmResponse}
use scheduler.Sql.{
  Value, text, number, time, Condition, is, within, Select, select, insert, update, remove, Store,
  GenericError, http_error, Outcome, ok, err, panics, exits, loops, and_then_ok, and_then_in,
  Setter, RowsRead, no_query, no_scan, no_rows, all_rows, last_or, read, One, Ended, query_failed,
  scan_failed, rows_failed, whole, read_one,
}
use scheduler.Sql.Fields.{
  project_id, project_name, project_description, project_date_created, the_number,
}
use scheduler.Repository.{
  where_select, server_error, served, served_rows_panic, served_count, closing_first, answered_or,
  answered,
}
use scheduler.Repository.Job.{get_all_by_project_id}

-- GenericError.Error, with the decimal text of the status.
abbrev pub error_text : (ℕ → String) → GenericError → String
error_text decimal e =
    text_append "message: " (text_append e.message (text_append ", code: " (decimal e.type)))

-- An error that is wrapped in one of status 500.
abbrev pub wrapped : {A : Type 0} → (ℕ → String) → Outcome GenericError A → Outcome GenericError A
wrapped decimal (ok a) = ok a
wrapped decimal (err e) = server_error (error_text decimal e)
wrapped decimal panics = panics
wrapped decimal exits = exits
wrapped decimal loops = loops

-- What a write answers, its error wrapped.
abbrev pub wrapped_write :
    {A : Type 0}
    → (ℕ → String)
    → (FsmResponse → A)
    → String ⊎ Option FsmResponse
    → Outcome GenericError A
wrapped_write decimal f (inl message) = server_error (error_text decimal (http_error 500 message))
wrapped_write decimal f (inr r) = answered f r

-- The outcome of a lookup, and the project as it is left. An error of the rows is read from a variable
-- that is nil.
abbrev pub one_project : String → One Project → Ended → Outcome GenericError (Unit {0}) × Project
one_project missing o (query_failed e) = (server_error e, o.value)
one_project missing o (scan_failed e) = (server_error e, o.value)
one_project missing o (rows_failed e) = (panics, o.value)
one_project missing o whole = elim (o.count) [
  | zero ↦ (err (http_error 404 missing), o.value)
  | suc n ↦ (ok tt, o.value)
]

abbrev pub project_columns : List String
project_columns = "id" ∷ "name" ∷ "description" ∷ "date_created" ∷ []

-- The ids without repetition; the order is that of the iteration over a map.
abbrev pub mem_id : ℕ → List ℕ → Bool
mem_id a [] = false
mem_id a (b ∷ bs) = if a == b then true else mem_id a bs

abbrev pub distinct : List ℕ → List ℕ → List ℕ
distinct seen [] = seen
distinct seen (id ∷ ids) = distinct (if mem_id id seen then seen else seen ++ id ∷ []) ids

module _ {D : Type 0} (l : Store D) where
  abbrev pub project_setters : List (Setter Project)
  project_setters =
      project_id l ∷ project_name l ∷ project_description l ∷ project_date_created l ∷ []

  unfoldable pub get_one_by_name : Project → D → Outcome GenericError (Unit {0}) × Project
  unfolding read_one
  get_one_by_name project db =
      let o =
        read_one l project_setters project
          (select
            (where_select project_columns ("projects" ∷ []) (is "name" (text project.name) ∷ []) "")
            [])
          db in
      one_project (text_append "project with name : " (text_append o.value.name " does not exist"))
        o o.ended

  unfoldable pub get_project_by_id : Project → D → Outcome GenericError (Unit {0}) × Project
  unfolding read_one
  get_project_by_id project db =
      let o =
        read_one l project_setters project
          (select
            (where_select project_columns ("projects" ∷ []) (is "id" (number project.id) ∷ []) "")
            [])
          db in
      one_project "project does not exist" o o.ended

  -- After the insertion, the project is read back.
  abbrev pub created : (ℕ → String) → Project → ℕ → D → Outcome GenericError ℕ × D
  created decimal project id db = (
    and_then_ok (wrapped decimal (get_project_by_id (record project { id = id }) db).0)
        (λ u. ok id),
    db,
  )

  abbrev pub insert_project : (ℕ → String) → ℕ → Project → D → Outcome GenericError ℕ × D
  insert_project decimal now project db =
      let w =
        l.write
          (insert "projects" ("name" ∷ "description" ∷ "date_created" ∷ [])
            ((text project.name ∷ text project.description ∷ time now ∷ []) ∷ []))
          [] 0 db in
      and_then_in (wrapped_write decimal (λ r. r.last_inserted_id) w.0, w.1)
        (λ id. created decimal project id)

  -- The lookup by name is made on the project itself, and its error is not looked at: only a panic
  -- ends the function. The id of `projectWithName`, which is tested, stays 0.
  abbrev pub named :
      (ℕ → String) → ℕ → Outcome GenericError (Unit {0}) × Project → D → Outcome GenericError ℕ × D
  named decimal now (ok u, project) db = insert_project decimal now project db
  named decimal now (err e, project) db = insert_project decimal now project db
  named decimal now (panics, project) db = (panics, db)
  named decimal now (exits, project) db = (exits, db)
  named decimal now (loops, project) db = (loops, db)

  unfoldable pub create_one : (ℕ → String) → ℕ → Project → D → Outcome GenericError ℕ × D
  unfolding get_one_by_name get_project_by_id
  create_one decimal now project db =
      if project.name == ""
      then (err (http_error 400 "name field is required"), db)
      else if project.description == ""
      then (err (http_error 400 "description field is required"), db)
      else named decimal now (get_one_by_name project db) db

  abbrev pub read_projects : Select → D → RowsRead Project
  read_projects s db = read l project_setters no_project (select s []) db

  unfoldable pub get_batch_projects_by_ids :
      (List ℕ → List ℕ) → List ℕ → D → Outcome GenericError (List Project)
  unfolding read
  get_batch_projects_by_ids order [] db = ok []
  get_batch_projects_by_ids order (id ∷ ids) db =
      let r =
        read_projects
          (where_select project_columns ("projects" ∷ [])
            (within "id" (map number (order (distinct [] (id ∷ ids)))) ∷ []) "")
          db in
      closing_first r (served_rows_panic r)

  unfoldable pub list_projects : ℕ → ℕ → D → Outcome GenericError (List Project)
  unfolding read
  list_projects offset limit db =
      let r =
        read_projects
          (record (where_select project_columns ("projects" ∷ []) [] "") {
            offset = some offset;
            limit = some limit;
          })
          db in
      closing_first r (served r)

  unfoldable pub count_projects : D → Outcome GenericError ℕ
  unfolding read
  count_projects db =
      let r =
        read l (the_number l ∷ []) 0
          (select (where_select ("count(*)" ∷ []) ("projects" ∷ []) [] "") []) db in
      closing_first r (served_count r)

  unfoldable pub update_project : (ℕ → String) → Project → D → Outcome GenericError ℕ × D
  update_project decimal project db =
      let w =
        l.write
          (update "projects" (("description", text project.description) ∷ [])
            (is "id" (number project.id)))
          [] 0 db in
      (wrapped_write decimal (λ r. r.rows_affected) w.0, w.1)

  abbrev pub delete_without_jobs : Project → List Job → D → Outcome GenericError ℕ × D
  delete_without_jobs project [] db =
      let w = l.write (remove "projects" (is "id" (number project.id))) [] 0 db in
      (answered_or (λ r. r.rows_affected) w.0, w.1)
  delete_without_jobs project (job ∷ jobs) db =
      (err (http_error 400 "cannot delete project with jobs"), db)

  unfoldable pub delete_project : (ℕ → String) → Project → D → Outcome GenericError ℕ × D
  unfolding get_all_by_project_id
  delete_project decimal project db =
      and_then_in (wrapped decimal (get_all_by_project_id l project.id 0 1 "id" db), db)
        (delete_without_jobs project)
