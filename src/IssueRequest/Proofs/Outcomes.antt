-- ===== src/IssueRequest/Proofs/Outcomes.antt =====
-- What a transaction of server/service/issue_request.go has found and written when its body
-- succeeds.
use reward_mservice.Common.{
  ℕ, ℤ, pos, ◌≤ℤ◌, Bool, true, some, Text, ◌≡◌, arith, find, inl, inr, Option-cases, some,
}
use reward_mservice.Amount.{cmp_amount, decimal}
use reward_mservice.Amount.Laws.{covers}
use reward_mservice.Model.{IssueRequest, ProjectBudget, RequestStatus}
use reward_mservice.World.{Tables, World, Env, ok, query, execute, execute_if}
use reward_mservice.Sql.{update}
use reward_mservice.Sql.Laws.{Keyed, find-id}
use reward_mservice.Dao
use reward_mservice.Dao.ProjectBudgets.{
  get_by_project_id_voucher_type_unit, lock_by_id, apply_submit_withhold, apply_approve_issued,
  apply_reject_release,
}
use reward_mservice.Dao.IssueRequests.{get_by_id_for_update, update_status_in_tx}
use reward_mservice.IssueRequest.Input.{
  validate_issue_request_transition, is_transition, ensure_available_gte, ensure_withhold_gte,
}
use reward_mservice.IssueRequest.Service.Tx.{
  submit_issue_request_in_tx, approve_issue_request_in_tx, reject_issue_request_in_tx,
  lock_project_budget,
}

abbrev pub budget_id : ProjectBudget → ℕ
budget_id b = b.id

-- The query for the budget of a request.
abbrev pub key_of : IssueRequest → ProjectBudget → Bool
key_of r = Dao.ProjectBudgets.is_for r.project_id r.voucher_type r.unit

-- The rows with the ids differ, as primary keys do.
abbrev pub HasBudgetIds : Tables → Type 0
HasBudgetIds t = Keyed budget_id t.project_budgets

-- The request `id` is `r`, and `b` is the budget of its project, voucher type and unit.
pub record Located (t : Tables) (id : ℕ) (r : IssueRequest) (b : ProjectBudget) : Type 0 where
  pub request : find (Dao.IssueRequests.has_id id) t.issue_requests ≡ some r
  pub budget : find (key_of r) t.project_budgets ≡ some b

-- The rows of the request and of its budget, changed in place.
abbrev pub moved :
    IssueRequest
    → ProjectBudget
    → RequestStatus
    → Text
    → (ProjectBudget → ProjectBudget)
    → Tables
    → Tables
moved r b to remark f t = record t {
  issue_requests =
      update (Dao.IssueRequests.has_id_and_status r.id r.request_status)
        (Dao.IssueRequests.set_status to remark) t.issue_requests;
  project_budgets = update (Dao.ProjectBudgets.has_id b.id) f t.project_budgets;
}

-- A status step of the request, with the column that covers its amount, `covering`, and the change
-- of the budget.
pub record Moves (t t' : Tables) (id : ℕ) (remark : Text) (to : RequestStatus)
    (covering : ProjectBudget → ℤ) (change : ℤ → ProjectBudget → ProjectBudget) : Type 0 where
  pub r : IssueRequest
  pub b : ProjectBudget
  pub located : Located t id r b
  pub allowed : is_transition r.request_status to ≡ true
  pub not_negative : pos 0 ≤ℤ r.amount
  pub covered : r.amount ≤ℤ covering b
  pub written : t' ≡ moved r b to remark (change r.amount) t

-- submit
pub submit_outcome :
    (id : ℕ) (remark : Text) (env : Env) (w w' : World)
    → HasBudgetIds w.tables
    → submit_issue_request_in_tx id remark env w ≡ (ok tt, w')
    → Moves w.tables w'.tables id remark RequestStatus.to_approve
        (λ b. b.available_amount)
        Dao.ProjectBudgets.withhold
unfolding submit_issue_request_in_tx lock_project_budget query execute execute_if
    validate_issue_request_transition ensure_available_gte get_by_id_for_update update_status_in_tx
    get_by_project_id_voucher_type_unit lock_by_id apply_submit_withhold
submit_outcome id remark env w w' k h =
    elim (Option-cases (find (Dao.IssueRequests.has_id id) w.tables.issue_requests)) [
      | inl absent ↦ absurd (ground arith)
      | inr (r, er) ↦ elim (Option-cases (find (key_of r) w.tables.project_budgets)) [
        | inl absent ↦ absurd (ground arith)
        | inr (b, eb) ↦
            let locked = find-id budget_id (key_of r) w.tables.project_budgets b k eb in
            elim (Option-cases
              (cmp_amount env.set_string (decimal b.available_amount) (decimal r.amount))) [
                | inl unread ↦ absurd (ground arith)
                | inr (c, ec) ↦
                    let enough =
                      covers env.set_string b.available_amount r.amount c ec
                        (λ short. ground arith) in
                    record {
                      r = r;
                      b = b;
                      located = record { request = er; budget = eb };
                      allowed = ground arith;
                      not_negative = enough.0;
                      covered = enough.1;
                      written = ground arith;
                    }
              ]
      ]
    ]

-- approve
pub approve_outcome :
    (id : ℕ) (remark : Text) (env : Env) (w w' : World)
    → HasBudgetIds w.tables
    → approve_issue_request_in_tx id remark env w ≡ (ok tt, w')
    → Moves w.tables w'.tables id remark RequestStatus.approved
        (λ b. b.withhold_amount)
        Dao.ProjectBudgets.issue_withheld
unfolding approve_issue_request_in_tx lock_project_budget query execute execute_if
    validate_issue_request_transition ensure_withhold_gte get_by_id_for_update update_status_in_tx
    get_by_project_id_voucher_type_unit lock_by_id apply_approve_issued
approve_outcome id remark env w w' k h =
    elim (Option-cases (find (Dao.IssueRequests.has_id id) w.tables.issue_requests)) [
      | inl absent ↦ absurd (ground arith)
      | inr (r, er) ↦ elim (Option-cases (find (key_of r) w.tables.project_budgets)) [
        | inl absent ↦ absurd (ground arith)
        | inr (b, eb) ↦
            let locked = find-id budget_id (key_of r) w.tables.project_budgets b k eb in
            elim (Option-cases
              (cmp_amount env.set_string (decimal b.withhold_amount) (decimal r.amount))) [
                | inl unread ↦ absurd (ground arith)
                | inr (c, ec) ↦
                    let enough =
                      covers env.set_string b.withhold_amount r.amount c ec
                        (λ short. ground arith) in
                    record {
                      r = r;
                      b = b;
                      located = record { request = er; budget = eb };
                      allowed = ground arith;
                      not_negative = enough.0;
                      covered = enough.1;
                      written = ground arith;
                    }
              ]
      ]
    ]

-- reject
pub reject_outcome :
    (id : ℕ) (remark : Text) (env : Env) (w w' : World)
    → HasBudgetIds w.tables
    → reject_issue_request_in_tx id remark env w ≡ (ok tt, w')
    → Moves w.tables w'.tables id remark RequestStatus.rejected
        (λ b. b.withhold_amount)
        Dao.ProjectBudgets.release_withheld
unfolding reject_issue_request_in_tx lock_project_budget query execute execute_if
    validate_issue_request_transition ensure_withhold_gte get_by_id_for_update update_status_in_tx
    get_by_project_id_voucher_type_unit lock_by_id apply_reject_release
reject_outcome id remark env w w' k h =
    elim (Option-cases (find (Dao.IssueRequests.has_id id) w.tables.issue_requests)) [
      | inl absent ↦ absurd (ground arith)
      | inr (r, er) ↦ elim (Option-cases (find (key_of r) w.tables.project_budgets)) [
        | inl absent ↦ absurd (ground arith)
        | inr (b, eb) ↦
            let locked = find-id budget_id (key_of r) w.tables.project_budgets b k eb in
            elim (Option-cases
              (cmp_amount env.set_string (decimal b.withhold_amount) (decimal r.amount))) [
                | inl unread ↦ absurd (ground arith)
                | inr (c, ec) ↦
                    let enough =
                      covers env.set_string b.withhold_amount r.amount c ec
                        (λ short. ground arith) in
                    record {
                      r = r;
                      b = b;
                      located = record { request = er; budget = eb };
                      allowed = ground arith;
                      not_negative = enough.0;
                      covered = enough.1;
                      written = ground arith;
                    }
              ]
      ]
    ]
