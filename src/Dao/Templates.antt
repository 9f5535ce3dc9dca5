-- ===== src/Dao/Templates.antt =====
-- server/repository/dao/template_dao.go
use reward_mservice.Common.{
  ℕ, ◌==◌, Bool, true, false, ◌&&◌, Option, List, [], ◌∷◌, ◌++◌, Text, find, is_empty,
  if◌then◌else◌, ◌-◌, ◌*◌, ◌%◌, ◌^◌, none, some, select, length, take, drop, reverse,
}
use reward_mservice.Errs.{app, invalid_status_transition}
use reward_mservice.Model.{Template, TemplateStatus, TemplateConfig, is_positive}
use reward_mservice.World.{Tables, M, pure, query, execute, execute_if, new_ids, ◌>>=◌, ◌>>◌}
use reward_mservice.Sql.{update, has}

abbrev pub has_id : ℕ → Template → Bool
has_id i t = t.id == i

abbrev pub on_templates : (List Template → List Template) → Tables → Tables
on_templates f t = record t { templates = f t.templates }

unfoldable pub create : Template → M ℕ
create template = do
  n ← new_ids 1
  execute (on_templates (λ old. old ++ (record template { id = n }) ∷ []))
  pure n

unfoldable pub get_by_id : ℕ → M (Option Template)
get_by_id i = query (λ t. find (has_id i) t.templates)

-- An empty title is left as it is.
abbrev pub set_config : Text → TemplateConfig → Template → Template
set_config title config t = record t {
  title = if is_empty title then t.title else title;
  config = config;
}

unfoldable pub update_template : ℕ → Text → TemplateConfig → M (Unit {0})
update_template i title config =
    execute (on_templates (update (has_id i) (set_config title config)))

abbrev pub is_status : TemplateStatus → TemplateStatus → Bool
is_status TemplateStatus.draft TemplateStatus.draft = true
is_status TemplateStatus.published TemplateStatus.published = true
is_status _ _ = false

-- id = ? AND status = ?
abbrev pub has_id_and_status : ℕ → TemplateStatus → Template → Bool
has_id_and_status i s t = t.id == i && is_status t.status s

unfoldable pub update_status : ℕ → TemplateStatus → TemplateStatus → M (Unit {0})
update_status i from to =
    execute_if (λ t. has (has_id_and_status i from) t.templates) (app invalid_status_transition)
      (on_templates (update (has_id_and_status i from) (λ t. record t { status = to })))

-- WHERE status = ?, if there is a status.
abbrev pub passes : Option TemplateStatus → Template → Bool
passes none t = true
passes (some s) t = is_status t.status s

-- OFFSET, which gorm leaves out if it is not positive.
abbrev pub skip : ℕ → List Template → List Template
skip offset rows = if is_positive offset then drop offset rows else rows

unfoldable pub count_templates : Option TemplateStatus → M ℕ
count_templates status = query (λ t. length (select (passes status) t.templates))

-- The rows of one page, newest first. The offset is an int64.
unfoldable pub find_page : ℕ → ℕ → Option TemplateStatus → M (List Template)
find_page page size status = query (λ t.
    take size (skip ((page - 1) * size % 2 ^ 64) (reverse (select (passes status) t.templates))))

-- `List`: the rows, and how many there are on all pages.
unfoldable pub list : ℕ → ℕ → Option TemplateStatus → M (List Template × ℕ)
list page size status = do
  total ← count_templates status
  rows ← find_page page size status
  pure (rows, total)
