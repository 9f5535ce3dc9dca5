-- ===== src/Reward/Service.antt =====
-- server/service/issue_record_service.go: the methods of `IssueRecordService`.
use reward_mservice.Common.{
  ℕ, ℤ, pos, not, is_some, Option, none, some, List, map, Text, codes, is_empty, if◌then◌else◌,
}
use reward_mservice.Errs.{
  Err, app, wrap, invalid_request, internal_error, duplicate_client_ref_id,
  duplicate_client_ref_id_error, distribution_retry,
}
use reward_mservice.Model.{
  RewardRequest, RewardStatus, IssueRecord, RecordStatus, ProjectBudget, IssueBudget,
  is_reward_status, is_record_status, is_positive,
}
use reward_mservice.World.{
  ok, err, M, pure, throw, require, throw_if, or_else, transaction, ◌>>=◌, ◌>>◌,
}
use reward_mservice.Kafka.Producer.{publish_execute}
use reward_mservice.Dao
use reward_mservice.IssueRequest.Input.{to_column}
use reward_mservice.Reward.Input.{
  RewardDistributionRequest, parse_reward_distribution_request, resolve_reward_amount,
}
use reward_mservice.Reward.Issuer.{Issued, issue_succeeded, issue_refused, issue_error, issue}
use reward_mservice.Reward.Budgets.{
  Attempt, new_record, generate_voucher_id, complete, ignore_completed, load_distribution_budgets,
  load_existing_distribution_budgets, pre_occupy_budget, publish_terminal_result,
  finalize_distribution,
}

-- `IssueRecordVO`, without the time.
pub record IssueRecordVo : Type 0 where
  pub voucher_id : Text
  pub voucher_type : Text
  pub unit : Text
  pub reward_amount : ℤ
  pub status : RecordStatus

abbrev to_vo : IssueRecord → IssueRecordVo
to_vo r = record {
  voucher_id = r.voucher_id;
  voucher_type = r.voucher_type;
  unit = r.unit;
  reward_amount = r.reward_amount;
  status = r.issue_status;
}

unfoldable pub list_issue_records_by_project_and_user : ℕ → ℕ → M (List IssueRecordVo)
list_issue_records_by_project_and_user project user = do
  throw_if (not (is_positive project)) (app invalid_request)
  throw_if (not (is_positive user)) (app invalid_request)
  records ←
      or_else (Dao.Rewards.list_records_by_project_id_and_user_id project user)
        (wrap internal_error)
  pure (map to_vo records)

-- What the error of `Create` becomes.
abbrev pub duplicate_or_internal : Err → Err
duplicate_or_internal duplicate_client_ref_id_error = app duplicate_client_ref_id
duplicate_or_internal e = wrap internal_error e

unfoldable pub process_voucher_issue_request : Option RewardDistributionRequest → M (Unit {0})
process_voucher_issue_request body = do
  request ← require body (app invalid_request)
  input ← parse_reward_distribution_request request
  reward ← resolve_reward_amount request
  budget ←
      or_else
        (Dao.ProjectBudgets.get_by_project_id_voucher_type_unit input.project_id reward.voucher_type
          reward.unit)
        (wrap internal_error)
  require budget (app invalid_request)
  existing ←
      or_else (Dao.Rewards.get_request_by_client_ref_id input.client_ref_id) (wrap internal_error)
  throw_if (is_some existing) (app duplicate_client_ref_id)
  amount ← or_else (to_column reward.amount) (wrap internal_error)
  created ←
      or_else
        (Dao.Rewards.create_request (record {
          id = 0;
          client_ref_id = input.client_ref_id;
          user_id = input.user_id;
          project_id = input.project_id;
          voucher_type = reward.voucher_type;
          unit = reward.unit;
          amount = amount;
          status = RewardStatus.pending;
        }))
        duplicate_or_internal
  or_else (publish_execute created.id) (wrap internal_error)

unfoldable pub complete_and_publish : RewardRequest → IssueRecord → M (Unit {0})
complete_and_publish r existing env w =
    let (res, w') = complete r.id env w in
    elim res [
      | ok _ ↦ publish_terminal_result r existing env w'
      | err e ↦ ignore_completed e env w'
    ]

-- `ensureCompletedAndSkip`
unfoldable pub ensure_completed_and_skip : RewardRequest → IssueRecord → M (Unit {0})
ensure_completed_and_skip r existing env w =
    if is_reward_status r.status RewardStatus.completed
    then (ok tt, w)
    else complete_and_publish r existing env w

-- The record of a request that failed the risk check.
abbrev pub failed_record : RewardRequest → Text → Text → IssueRecord
failed_record r voucher_id reason = record (new_record r voucher_id) {
  reward_amount = pos 0;
  issue_status = RecordStatus.failed;
  reason = if is_empty reason then codes "risk check failed" else reason;
}

unfoldable pub fail_in_tx : RewardRequest → IssueRecord → M IssueRecord
fail_in_tx r failed = do created ← Dao.Rewards.create_record failed; complete r.id; pure created

-- `tryHandleRiskFailure`, once the check has failed.
unfoldable pub handle_risk_failure : RewardRequest → Text → M (Unit {0})
handle_risk_failure r reason = do
  voucher_id ← generate_voucher_id
  created ← transaction (fail_in_tx r (failed_record r voucher_id reason))
  publish_terminal_result r created

-- What follows the issuer's answer.
abbrev pub finish_attempt : RewardRequest → Attempt → Issued → M (Unit {0})
finish_attempt r a issue_error = throw distribution_retry
finish_attempt r a issue_succeeded =
    finalize_distribution r a.issue_record a.project_budget.id a.issue_budget.id none
finish_attempt r a (issue_refused reason) =
    finalize_distribution r a.issue_record a.project_budget.id a.issue_budget.id (some reason)

abbrev pub attempt_with : RewardRequest → Option Attempt → M (Unit {0})
attempt_with r none = pure tt
attempt_with r (some a) = do issued ← issue a.issue_record r.amount; finish_attempt r a issued

abbrev pub occupy : RewardRequest → Option (ProjectBudget × IssueBudget) → M (Option Attempt)
occupy r none = pure none
occupy r (some p) = do
  occupied ← pre_occupy_budget p.0 p.1 r
  pure (some (record { project_budget = p.0; issue_budget = p.1; issue_record = occupied }))

-- `runDistributionAttempt`, without and with a record.
unfoldable pub run_new_attempt : RewardRequest → M (Unit {0})
run_new_attempt r = do
  budgets ← load_distribution_budgets r
  occupied ← occupy r budgets
  attempt_with r occupied

unfoldable pub run_existing_attempt : RewardRequest → IssueRecord → M (Unit {0})
run_existing_attempt r existing = do
  loaded ← load_existing_distribution_budgets r existing
  attempt_with r loaded

abbrev pub check_risk : RewardRequest → Option Text → M (Unit {0})
check_risk r none = run_new_attempt r
check_risk r (some reason) = handle_risk_failure r reason

abbrev pub continue_with : RewardRequest → Option IssueRecord → M (Unit {0})
continue_with r none env w = check_risk r (env.risk r.user_id) env w
continue_with r (some existing) env w =
    if is_record_status existing.issue_status RecordStatus.pending
    then run_existing_attempt r existing env w
    else ensure_completed_and_skip r existing env w

unfoldable pub distribute : RewardRequest → M (Unit {0})
distribute r = do
  existing ← Dao.Rewards.get_record_by_client_ref_id r.client_ref_id
  continue_with r existing

abbrev pub if_pending : Option RewardRequest → M (Unit {0})
if_pending none env w = (ok tt, w)
if_pending (some r) env w =
    if is_reward_status r.status RewardStatus.pending then distribute r env w else (ok tt, w)

-- `ExecuteRewardDistribution`, which logs the error of `executeRewardDistribution` and returns it.
unfoldable pub execute_reward_distribution : ℕ → M (Unit {0})
execute_reward_distribution id = do
  throw_if (not (is_positive id)) (app invalid_request)
  found ← Dao.Rewards.get_request_by_id id
  if_pending found
