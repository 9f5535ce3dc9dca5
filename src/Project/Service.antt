-- ===== src/Project/Service.antt =====
-- server/service/project.go: the methods of `ProjectService`. A `ProjectVO` is a row.
use reward_mservice.Common.{ℕ, not, ◌||◌, Option, List, [], ◌∷◌, Text, trim_space, is_empty}
use reward_mservice.Errs.{
  app, wrap, invalid_request, invalid_pagination, internal_error, project_not_found,
}
use reward_mservice.Model.{Project, RequestStatus, is_positive}
use reward_mservice.World.{M, pure, require, throw_if, or_else, ◌>>=◌, ◌>>◌}
use reward_mservice.Dao

pub record CreateProjectRequest : Type 0 where
  pub name : Text
  pub description : Text

pub record ProjectPage : Type 0 where
  pub total : ℕ
  pub page : ℕ
  pub size : ℕ
  pub items : List Project

unfoldable pub create_project : Option CreateProjectRequest → M ℕ
create_project body = do
  req ← require body (app invalid_request)
  throw_if (is_empty (trim_space req.name)) (app invalid_request)
  or_else
      (Dao.Projects.create
        (record { id = 0; name = trim_space req.name; description = trim_space req.description }))
      (wrap internal_error)

unfoldable pub list_projects : ℕ → ℕ → M ProjectPage
list_projects page size = do
  throw_if (not (is_positive page) || not (is_positive size)) (app invalid_pagination)
  listed ← or_else (Dao.Projects.list page size) (wrap internal_error)
  pure (record { total = listed.1; page = page; size = size; items = listed.0 })

abbrev pub projects_of : List ℕ → M (List Project)
projects_of [] = pure []
projects_of (i ∷ ids) = or_else (Dao.Projects.list_by_ids (i ∷ ids)) (wrap internal_error)

unfoldable pub list_projects_with_ongoing_issue_request : M (List Project)
list_projects_with_ongoing_issue_request = do
  ids ←
      or_else (Dao.Projects.list_distinct_project_ids_by_status RequestStatus.ongoing)
        (wrap internal_error)
  projects_of ids

unfoldable pub get_project_by_id : ℕ → M Project
get_project_by_id id = do
  throw_if (not (is_positive id)) (app invalid_request)
  found ← or_else (Dao.Finance.get_project_by_id id) (wrap internal_error)
  require found (app project_not_found)
