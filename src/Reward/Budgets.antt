-- ===== src/Reward/Budgets.antt =====
-- server/service/issue_record_service.go: the budgets of a distribution, and its transactions.
use reward_mservice.Common.{ℕ, ℤ, pos, Option, none, some, Text, codes, is_empty, if◌then◌else◌}
use reward_mservice.Errs.{
  Err, app, driver, invalid_request, distribution_deferred, is_status_transition_error,
}
use reward_mservice.Model.{
  ProjectBudget, IssueBudget, RewardRequest, RewardStatus, IssueRecord, RecordStatus,
}
use reward_mservice.World.{
  reward_distribution_result, RewardDistributionResultEvent, DistributionStatus, ok, err, M, pure,
  require, throw_if, rescue, publish, transaction, ◌>>=◌, ◌>>◌,
}
use reward_mservice.Dao

-- `generateVoucherID`
unfoldable pub generate_voucher_id : M Text
generate_voucher_id env w = (ok (env.uuid w.calls), w)

-- `return nil` if the error says that the request has been completed already.
abbrev pub ignore_completed : Err → M (Unit {0})
ignore_completed e env w = (if is_status_transition_error e then ok tt else err e, w)

-- PENDING to COMPLETED
unfoldable pub complete : ℕ → M (Unit {0})
complete id = Dao.Rewards.update_status id RewardStatus.pending RewardStatus.completed

unfoldable pub handle_reward_request_complete : ℕ → M (Unit {0})
handle_reward_request_complete id = rescue (complete id) ignore_completed

-- A distribution's budgets and its record.
pub record Attempt : Type 0 where
  pub project_budget : ProjectBudget
  pub issue_budget : IssueBudget
  pub issue_record : IssueRecord

-- `return nil, nil, s.handleRewardRequestComplete(…)`
abbrev pub give_up : {A : Type 0} → RewardRequest → M (Option A)
give_up r = do handle_reward_request_complete r.id; pure none

abbrev pub load_issue_budget :
    RewardRequest → Option ProjectBudget → M (Option (ProjectBudget × IssueBudget))
load_issue_budget r none = give_up r
load_issue_budget r (some project) = do
  found ←
      Dao.IssueBudgets.get_first_available_for_distribution r.project_id r.voucher_type r.unit
        r.amount
  budget ← require found distribution_deferred
  pure (some (project, budget))

unfoldable pub load_distribution_budgets : RewardRequest → M (Option (ProjectBudget × IssueBudget))
load_distribution_budgets r = do
  found ← Dao.ProjectBudgets.get_by_project_id_voucher_type_unit r.project_id r.voucher_type r.unit
  load_issue_budget r found

abbrev pub load_existing_issue_budget :
    RewardRequest → ProjectBudget → IssueRecord → Option IssueBudget → M (Option Attempt)
load_existing_issue_budget r project issue_record none = give_up r
load_existing_issue_budget r project issue_record (some ref) = do
  found ← Dao.IssueBudgets.get_by_id ref.id
  budget ← require found (app invalid_request)
  pure (
      some
        (record { project_budget = project; issue_budget = budget; issue_record = issue_record }))

abbrev pub load_existing_project_budget :
    RewardRequest → ℕ → IssueRecord → Option ProjectBudget → M (Option Attempt)
load_existing_project_budget r issue_request_id issue_record none = give_up r
load_existing_project_budget r issue_request_id issue_record (some ref) = do
  found ← Dao.ProjectBudgets.get_by_id ref.id
  project ← require found (app invalid_request)
  budget_ref ← Dao.IssueBudgets.get_by_issue_request_id issue_request_id
  load_existing_issue_budget r project issue_record budget_ref

unfoldable pub load_existing_distribution_budgets : RewardRequest → IssueRecord → M (Option Attempt)
load_existing_distribution_budgets r existing = do
  found ← Dao.Rewards.get_record_by_id existing.id
  rec ← require found (app invalid_request)
  issue_request_id ← require rec.issue_request_id (app invalid_request)
  ref ←
      Dao.ProjectBudgets.get_by_project_id_voucher_type_unit rec.project_id rec.voucher_type
        rec.unit
  load_existing_project_budget r issue_request_id rec ref

-- The record of a request; the database gives its id.
abbrev pub new_record : RewardRequest → Text → IssueRecord
new_record r voucher_id = record {
  id = 0;
  voucher_id = voucher_id;
  reward_request_id = r.id;
  issue_request_id = none;
  project_id = r.project_id;
  user_id = r.user_id;
  voucher_type = r.voucher_type;
  unit = r.unit;
  reward_amount = r.amount;
  issue_status = RecordStatus.pending;
  reason = codes "";
  client_reference_id = r.client_ref_id;
}

unfoldable pub pre_occupy_in_tx : ProjectBudget → IssueBudget → IssueRecord → ℤ → M IssueRecord
pre_occupy_in_tx project budget issue_record amount = do
  Dao.ProjectBudgets.apply_distribution_deduct_available project.id amount
  Dao.IssueBudgets.apply_distribution_deduct_available budget.id amount
  Dao.Rewards.create_record issue_record

unfoldable pub pre_occupy_budget : ProjectBudget → IssueBudget → RewardRequest → M IssueRecord
pre_occupy_budget project budget r = do
  voucher_id ← generate_voucher_id
  transaction (
      pre_occupy_in_tx project budget
        (record (new_record r voucher_id) { issue_request_id = some budget.issue_request_id })
        r.amount)

unfoldable pub apply_distribution_issued_budgets : ℕ → ℕ → ℤ → M (Unit {0})
apply_distribution_issued_budgets project_id budget_id amount = do
  Dao.ProjectBudgets.apply_distribution_issued project_id amount
  Dao.IssueBudgets.apply_distribution_issued budget_id amount

unfoldable pub apply_distribution_refund_budgets : ℕ → ℕ → ℤ → M (Unit {0})
apply_distribution_refund_budgets project_id budget_id amount = do
  Dao.ProjectBudgets.apply_distribution_refund project_id amount
  Dao.IssueBudgets.apply_distribution_refund budget_id amount

-- The outcome of an issue that ended: `none` for success, else the reason.
abbrev pub Outcome : Type 0
Outcome = Option Text

abbrev pub apply_distribution_outcome_budgets : ℕ → ℕ → ℤ → Outcome → M (Unit {0})
apply_distribution_outcome_budgets project_id budget_id amount none =
    apply_distribution_issued_budgets project_id budget_id amount
apply_distribution_outcome_budgets project_id budget_id amount (some reason) =
    apply_distribution_refund_budgets project_id budget_id amount

unfoldable pub apply_issue_record_outcome : IssueRecord → ℤ → Outcome → IssueRecord
apply_issue_record_outcome rec amount none = record rec {
  issue_status = RecordStatus.issued;
  reward_amount = amount;
  reason = codes "";
}
apply_issue_record_outcome rec amount (some reason) = record rec {
  issue_status = RecordStatus.failed;
  reward_amount = pos 0;
  reason = if is_empty reason then codes "downstream business failure" else reason;
}

unfoldable pub finalize_in_tx : RewardRequest → IssueRecord → ℕ → ℕ → Outcome → M (Unit {0})
finalize_in_tx r rec project_id budget_id outcome = do
  apply_distribution_outcome_budgets project_id budget_id r.amount outcome
  Dao.Rewards.save_record rec
  complete r.id

-- The event for a record that is no longer pending.
unfoldable pub result_event :
    RewardRequest → IssueRecord → RecordStatus → RewardDistributionResultEvent
result_event r rec RecordStatus.issued = record {
  client_ref_id = r.client_ref_id;
  voucher_id = rec.voucher_id;
  status = DistributionStatus.distributed;
  distributed_amount = rec.reward_amount;
  failed_reason = codes "";
}
result_event r rec _ = record {
  client_ref_id = r.client_ref_id;
  voucher_id = rec.voucher_id;
  status = DistributionStatus.failed;
  distributed_amount = pos 0;
  failed_reason = rec.reason;
}

-- `PublishResult` refuses an event without client_ref_id.
unfoldable pub publish_result : RewardDistributionResultEvent → M (Unit {0})
publish_result event = do
  throw_if (is_empty event.client_ref_id) driver
  publish (reward_distribution_result event)

unfoldable pub publish_terminal_result : RewardRequest → IssueRecord → M (Unit {0})
publish_terminal_result r rec = publish_result (result_event r rec rec.issue_status)

-- `finalizeDistribution`: if the request was completed meanwhile, nothing is written or published.
unfoldable pub finalize_distribution : RewardRequest → IssueRecord → ℕ → ℕ → Outcome → M (Unit {0})
finalize_distribution r rec project_id budget_id outcome env w =
    let done = apply_issue_record_outcome rec r.amount outcome in
    let (res, w') = transaction (finalize_in_tx r done project_id budget_id outcome) env w in
    elim res [ ok _ ↦ publish_terminal_result r done env w' | err e ↦ ignore_completed e env w' ]
