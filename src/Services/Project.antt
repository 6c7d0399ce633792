-- ===== src/Services/Project.antt =====
-- pkg/service/project/project.go. The text of an error with an id is left to a parameter.
use scheduler.Base.{ℕ, List, [], ◌∷◌, String, ◌==◌, ltb, if◌then◌else◌, comparable_string}
use Prim.Native.String.{◌++◌ as text_append}
use scheduler.Models.{Project}
use scheduler.Sql.{Store, GenericError, http_error, Outcome, ok, err, and_then_ok, and_then_in}
use scheduler.Repository.Project.{
  get_one_by_name, get_project_by_id, create_one, get_batch_projects_by_ids, list_projects,
  count_projects, update_project, delete_project,
}
use scheduler.Services.{Paginated}

module _ {D : Type 0} (l : Store D) (decimal : ℕ → String) where
  -- The project is what its lookups by name and by id leave in it.
  unfoldable pub create_one_project : ℕ → Project → D → Outcome GenericError Project × D
  unfolding create_one get_one_by_name get_project_by_id
  create_one_project now project db = and_then_in (create_one l decimal now project db) (λ id db'.
      let named = (get_one_by_name l project db).1 in
      (ok (get_project_by_id l (record named { id = id }) db').1, db'))

  unfoldable pub get_project : Project → D → Outcome GenericError (Unit {0}) × Project
  unfolding get_project_by_id
  get_project project db = get_project_by_id l project db

  unfoldable pub get_project_by_name : Project → D → Outcome GenericError (Unit {0}) × Project
  unfolding get_one_by_name
  get_project_by_name project db = get_one_by_name l project db

  unfoldable pub update_one_project : Project → D → Outcome GenericError (Unit {0}) × D
  unfolding update_project get_project
  update_one_project project db =
      if project.name == ""
      then (err (http_error 400 "project name is required"), db)
      else and_then_in (update_project l decimal project db) (λ count db'.
        if ltb count 1
        then (
          err (http_error 404 (text_append "Cannot find ProjectID = " (decimal project.id))),
          db',
        )
        else ((get_project project db').0, db'))

  abbrev pub deleted : ℕ → D → Outcome GenericError (Unit {0}) × D
  deleted count db = (ok tt, db)

  -- A count, which is unsigned, is never below 0.
  unfoldable pub delete_one_project : Project → D → Outcome GenericError (Unit {0}) × D
  unfolding delete_project
  delete_one_project project db = and_then_in (delete_project l decimal project db) deleted

  unfoldable pub list_all_projects : ℕ → ℕ → D → Outcome GenericError (Paginated Project)
  unfolding list_projects count_projects
  list_all_projects offset limit db = and_then_ok (list_projects l offset limit db) (λ page.
      and_then_ok (count_projects l db)
        (λ total. ok (record { total = total; offset = offset; limit = limit; page = page })))

  unfoldable pub batch_get_projects :
      (List ℕ → List ℕ) → List ℕ → D → Outcome GenericError (List Project)
  unfolding get_batch_projects_by_ids
  batch_get_projects order [] db = ok []
  batch_get_projects order (id ∷ ids) db = get_batch_projects_by_ids l order (id ∷ ids) db
