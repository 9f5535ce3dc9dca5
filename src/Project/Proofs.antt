-- ===== src/Project/Proofs.antt =====
-- The projects with an ongoing issue request, and what the creation of a project keeps.
use reward_mservice.Common.{
  ℕ, ltb, ◌==◌, ◌&&◌, true, Bool-cases, Option, none, some, List, [], ◌∷◌, All, ◌≡◌, refl, subst,
  sym, arith, inl, inr,
}
use reward_mservice.Errs.{wrap, internal_error}
use reward_mservice.Model.{Project, IssueRequest, RequestStatus, is_request_status}
use reward_mservice.World.{Tables, World, Env}
use reward_mservice.World.Keeps.{
  Invariant, Keeps, keeps_rules, IsMonotone, Keeps-execute, Keeps-new_ids,
}
use reward_mservice.World.Triple.{
  Triple, Post, Triple-bind, Triple-or_else, Triple-query, Triple-pure, Triple-query_to,
}
use reward_mservice.Sql.{has}
use reward_mservice.Dao.Projects.{
  on_projects, create, by_id, order_by_ids, list_by_ids, insert_descending, distinct_project_ids,
  list_distinct_project_ids_by_status,
}
use reward_mservice.Project.Service.{
  CreateProjectRequest, create_project, projects_of, list_projects_with_ongoing_issue_request,
}

pub Keeps-create_project :
    {P : Invariant}
    → IsMonotone P
    → ((f : List Project → List Project) (t : Tables) (n : ℕ) → P t n → P (on_projects f t) n)
    → (body : Option CreateProjectRequest) → Keeps P (create_project body)
unfolding create_project create
Keeps-create_project mono frame body =
    search (keeps_rules, Keeps-new_ids, mono, Keeps-execute, frame) depth 20

-- An issue request of the project is ONGOING.
abbrev pub HasOngoing : List IssueRequest → ℕ → Type 0
HasOngoing requests i =
    has (λ r. r.project_id == i && is_request_status r.request_status RequestStatus.ongoing)
      requests
    ≡ true

insert-All :
    (Q : ℕ → Type 0) (i : ℕ) (ids : List ℕ) → Q i → All Q ids → All Q (insert_descending i ids)
unfolding insert_descending
insert-All Q i [] q a = (q, tt)
insert-All Q i (j ∷ ids) q a = elim (Bool-cases (i == j)) [
  | inl same ↦ rw same a
  | inr other ↦ rw other (elim (Bool-cases (ltb j i)) [
    | inl above ↦ rw above (q, a)
    | inr below ↦ rw below (a.0, insert-All Q i ids q a.1)
  ])
]

more-HasOngoing :
    (r : IssueRequest) (requests : List IssueRequest) (ids : List ℕ)
    → All (HasOngoing requests) ids
    → All (HasOngoing (r ∷ requests)) ids
unfolding has
more-HasOngoing r requests [] a = tt
more-HasOngoing r requests (i ∷ ids) a = (ground (arith, a.0), more-HasOngoing r requests ids a.1)

ids-HaveOngoing :
    (requests : List IssueRequest)
    → All (HasOngoing requests) (distinct_project_ids RequestStatus.ongoing requests)
unfolding distinct_project_ids has
ids-HaveOngoing [] = tt
ids-HaveOngoing (r ∷ requests) =
    let rest =
      more-HasOngoing r requests (distinct_project_ids RequestStatus.ongoing requests)
        (ids-HaveOngoing requests) in
    elim (Bool-cases (is_request_status r.request_status RequestStatus.ongoing)) [
      | inl ongoing ↦
          let here : HasOngoing (r ∷ requests) r.project_id = ground (arith, ongoing) in
          rw ongoing (insert-All (HasOngoing (r ∷ requests)) r.project_id _ here rest)
      | inr idle ↦ rw idle rest
    ]

by_id_sound : (i : ℕ) (rows : List Project) (p : Project) → by_id i rows ≡ some p → p.id ≡ i
unfolding by_id
by_id_sound i [] p h = cc
by_id_sound i (q ∷ rows) p h = ground (arith, by_id_sound i rows p)

module _ (Q : ℕ → Type 0) (ids : List ℕ) (rows : List Project) where
  order_one :
      (i : ℕ) (o : Option Project)
      → by_id i rows ≡ o
      → Q i
      → All (λ p. Q p.id) (order_by_ids ids rows)
      → All
          (λ p. Q p.id)
          (elim o as (λ _. List Project) [
            | none ↦ order_by_ids ids rows
            | some p ↦ p ∷ order_by_ids ids rows
          ])
  order_one i none e q rest = rest
  order_one i (some p) e q rest = (subst Q (sym (by_id_sound i rows p e)) q, rest)

order-All :
    (Q : ℕ → Type 0) (ids : List ℕ) (rows : List Project)
    → All Q ids
    → All (λ p. Q p.id) (order_by_ids ids rows)
unfolding order_by_ids
order-All Q [] rows a = tt
order-All Q (i ∷ ids) rows a =
    order_one Q ids rows i (by_id i rows) refl a.0 (order-All Q ids rows a.1)

abbrev pub Anything : Invariant
Anything t n = Unit

abbrev pub HaveOngoing : List Project → Invariant
HaveOngoing items t n = All (λ p. HasOngoing t.issue_requests p.id) items

Triple-projects_of :
    (ids : List ℕ)
    → Triple
        (λ t n. Anything t n × (distinct_project_ids RequestStatus.ongoing t.issue_requests ≡ ids))
        (projects_of ids)
        HaveOngoing
        Anything
unfolding list_by_ids
Triple-projects_of [] = Triple-pure [] (λ t n h. tt)
Triple-projects_of (i ∷ ids) = Triple-or_else _ (wrap internal_error) (
    Triple-bind _ _ (Triple-query_to (λ t n h. tt) _) (λ rows.
      Triple-pure (order_by_ids (i ∷ ids) rows) (λ t n h.
        order-All (HasOngoing t.issue_requests) (i ∷ ids) rows
          (subst (All (HasOngoing t.issue_requests)) h.0.1 (ids-HaveOngoing t.issue_requests)))))

Triple-list_projects : Triple Anything list_projects_with_ongoing_issue_request HaveOngoing Anything
unfolding list_projects_with_ongoing_issue_request list_distinct_project_ids_by_status
Triple-list_projects =
    Triple-bind _ _ (Triple-or_else _ (wrap internal_error) (Triple-query _))
      (λ ids. Triple-projects_of ids)

-- `ListProjectsWithOngoingIssueRequest`: every project that it returns has an issue request that is
-- ONGOING.
pub list_projects-HaveOngoing :
    (env : Env) (w : World)
    → Post HaveOngoing Anything (list_projects_with_ongoing_issue_request env w)
list_projects-HaveOngoing env w = Triple-list_projects.at env w tt
