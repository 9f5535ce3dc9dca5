-- ===== src/Dao/Projects.antt =====
-- server/repository/dao/project_dao.go, without its cache, and the project ids of
-- issue_request_dao.go.
use reward_mservice.Common.{
  ℕ, ◌==◌, ltb, ◌-◌, ◌*◌, ◌%◌, ◌^◌, Bool, false, ◌||◌, Option, none, some, List, [], ◌∷◌, ◌++◌,
  select, length, take, drop, reverse, if◌then◌else◌,
}
use reward_mservice.Model.{Project, IssueRequest, RequestStatus, is_request_status, is_positive}
use reward_mservice.World.{Tables, M, pure, query, execute, new_ids, ◌>>=◌, ◌>>◌}

abbrev pub on_projects : (List Project → List Project) → Tables → Tables
on_projects f t = record t { projects = f t.projects }

unfoldable pub create : Project → M ℕ
create p = do
  n ← new_ids 1
  execute (on_projects (λ old. old ++ (record p { id = n }) ∷ []))
  pure n

-- OFFSET, which gorm leaves out if it is not positive.
abbrev skip : ℕ → List Project → List Project
skip offset rows = if is_positive offset then drop offset rows else rows

-- `List`: the rows of one page, by descending id, and how many there are. The offset is an int64.
unfoldable pub list : ℕ → ℕ → M (List Project × ℕ)
list page size = do
  total ← query (λ t. length t.projects)
  rows ← query (λ t. take size (skip ((page - 1) * size % 2 ^ 64) (reverse t.projects)))
  pure (rows, total)

unfoldable pub is_among : ℕ → List ℕ → Bool
is_among i [] = false
is_among i (j ∷ ids) = i == j || is_among i ids

-- `byID[id]`: the map keeps the last row with an id.
unfoldable pub by_id : ℕ → List Project → Option Project
by_id i [] = none
by_id i (p ∷ rows) = elim (by_id i rows) [
  | some q ↦ some q
  | none ↦ if p.id == i then some p else none
]

unfoldable pub order_by_ids : List ℕ → List Project → List Project
order_by_ids [] rows = []
order_by_ids (i ∷ ids) rows = elim (by_id i rows) [
  | none ↦ order_by_ids ids rows
  | some p ↦ p ∷ order_by_ids ids rows
]

unfoldable pub list_by_ids : List ℕ → M (List Project)
list_by_ids [] = pure []
list_by_ids (i ∷ ids) = do
  rows ← query (λ t. select (λ p. is_among p.id (i ∷ ids)) t.projects)
  pure (order_by_ids (i ∷ ids) rows)

-- Into a descending list without duplicates.
unfoldable pub insert_descending : ℕ → List ℕ → List ℕ
insert_descending i [] = i ∷ []
insert_descending i (j ∷ ids) =
    let rest = insert_descending i ids in
    if i == j then j ∷ ids else if ltb j i then i ∷ j ∷ ids else j ∷ rest

-- SELECT DISTINCT project_id … WHERE request_status = ? ORDER BY project_id DESC
unfoldable pub distinct_project_ids : RequestStatus → List IssueRequest → List ℕ
distinct_project_ids status [] = []
distinct_project_ids status (r ∷ requests) =
    let rest = distinct_project_ids status requests in
    if is_request_status r.request_status status then insert_descending r.project_id rest else rest

unfoldable pub list_distinct_project_ids_by_status : RequestStatus → M (List ℕ)
list_distinct_project_ids_by_status status =
    query (λ t. distinct_project_ids status t.issue_requests)
