-- ===== src/IssueRequest/Service/Tx.antt =====
-- server/service/issue_request.go: the bodies of the transactions.
use reward_mservice.Common.{ℕ, Option, none, some, Text, pos, if◌then◌else◌}
use reward_mservice.Errs.{
  Err, app, issue_request_not_found, project_budget_not_found, issue_budget_already_exists,
}
use reward_mservice.Amount.{decimal}
use reward_mservice.Model.{
  IssueRequest, RequestStatus, ProjectBudget, IssueBudget, IssueBudgetStatus, is_request_status,
}
use reward_mservice.World.{ok, M, pure, throw, require, deref, rescue, ◌>>=◌, ◌>>◌}
use reward_mservice.Dao
use reward_mservice.IssueRequest.Input.{
  validate_issue_request_transition, ensure_available_gte, ensure_withhold_gte,
}

-- `lockProjectBudget`: nil, with no error, if the row has gone since it was read.
unfoldable pub lock_project_budget : ℕ → Text → Text → M (Option ProjectBudget)
lock_project_budget project voucher unit = do
  found ← Dao.ProjectBudgets.get_by_project_id_voucher_type_unit project voucher unit
  budget ← require found (app project_budget_not_found)
  Dao.ProjectBudgets.lock_by_id budget.id

-- `submitIssueRequestInTx`
unfoldable pub submit_issue_request_in_tx : ℕ → Text → M (Unit {0})
submit_issue_request_in_tx id remark = do
  found ← Dao.IssueRequests.get_by_id_for_update id
  locked ← require found (app issue_request_not_found)
  validate_issue_request_transition locked.request_status RequestStatus.to_approve
  budget_found ← lock_project_budget locked.project_id locked.voucher_type locked.unit
  budget ← deref budget_found
  ensure_available_gte budget.available_amount (decimal locked.amount)
  Dao.IssueRequests.update_status_in_tx locked.id locked.request_status RequestStatus.to_approve
      remark
  Dao.ProjectBudgets.apply_submit_withhold budget.id locked.amount

-- The body of `approveIssueRequestInTx`.
unfoldable pub approve_issue_request_in_tx : ℕ → Text → M (Unit {0})
approve_issue_request_in_tx id remark = do
  found ← Dao.IssueRequests.get_by_id_for_update id
  locked ← require found (app issue_request_not_found)
  validate_issue_request_transition locked.request_status RequestStatus.approved
  budget_found ← lock_project_budget locked.project_id locked.voucher_type locked.unit
  budget ← deref budget_found
  ensure_withhold_gte budget.withhold_amount (decimal locked.amount)
  Dao.IssueRequests.update_status_in_tx locked.id RequestStatus.to_approve RequestStatus.approved
      remark
  Dao.ProjectBudgets.apply_approve_issued budget.id locked.amount

-- The body of `rejectIssueRequestInTx`.
unfoldable pub reject_issue_request_in_tx : ℕ → Text → M (Unit {0})
reject_issue_request_in_tx id remark = do
  found ← Dao.IssueRequests.get_by_id_for_update id
  locked ← require found (app issue_request_not_found)
  validate_issue_request_transition locked.request_status RequestStatus.rejected
  budget_found ← lock_project_budget locked.project_id locked.voucher_type locked.unit
  budget ← deref budget_found
  ensure_withhold_gte budget.withhold_amount (decimal locked.amount)
  Dao.IssueRequests.update_status_in_tx locked.id RequestStatus.to_approve RequestStatus.rejected
      remark
  Dao.ProjectBudgets.apply_reject_release budget.id locked.amount

-- The new issue budget of an approved request; the database gives its id.
abbrev pub new_issue_budget : IssueRequest → IssueBudget
new_issue_budget r = record {
  id = 0;
  issue_request_id = r.id;
  voucher_type = r.voucher_type;
  unit = r.unit;
  available_amount = r.amount;
  total_amount = r.amount;
  issued_amount = pos 0;
  refund_amount = pos 0;
  status = IssueBudgetStatus.ongoing;
}

-- A second budget for the request is no error.
abbrev pub ignore_existing : Err → M (Unit {0})
ignore_existing issue_budget_already_exists = pure tt
ignore_existing e = throw e

abbrev pub init_approved : IssueRequest → M (Unit {0})
init_approved locked = do
  rescue (Dao.IssueBudgets.create (new_issue_budget locked)) ignore_existing
  Dao.IssueRequests.mark_ongoing locked.id

abbrev pub init_locked : Option IssueRequest → M (Unit {0})
init_locked found env w = elim found [
  | none ↦ (ok tt, w)
  | some locked ↦
      if is_request_status locked.request_status RequestStatus.approved
      then init_approved locked env w
      else (ok tt, w)
]

-- The body of `initIssueBudget`.
unfoldable pub init_issue_budget_in_tx : ℕ → M (Unit {0})
init_issue_budget_in_tx id = do found ← Dao.IssueRequests.get_by_id_for_update id; init_locked found
