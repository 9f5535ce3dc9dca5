-- ===== src/Reward/Proofs/Methods.antt =====
-- The methods of `IssueRecordService` keep what their writes keep: the writes, the transactions and the methods.
use reward_mservice.Kafka.Producer.{publish_execute}
use reward_mservice.Common.{ℕ, ℤ, Option, none, some, Text, refl}
use reward_mservice.Model.{
  ProjectBudget, IssueBudget, RewardRequest, RewardStatus, IssueRecord, RecordStatus,
  is_reward_status, is_record_status,
}
use reward_mservice.World.{transaction, pure}
use reward_mservice.World.Keeps.{
  Invariant, Keeps, keeps_rules, Above, Above-IsMonotone, Keeps-transaction, Keeps-execute,
  Keeps-execute_if, Keeps-new_ids, Keeps-if, Keeps-bind, Keeps-query, Keeps-pure, Keeps-throw,
}
use reward_mservice.Dao
use reward_mservice.Dao.ProjectBudgets.{
  on_budgets, deduct_available, add_issued, add_refund, has_id_and_available, has_id,
  get_by_project_id_voucher_type_unit, get_by_id,
}
use reward_mservice.Dao.IssueBudgets.{get_first_available_for_distribution, get_by_issue_request_id}
use reward_mservice.Dao.Rewards.{
  create_request, create_record, save_record, update_status, get_request_by_id, get_record_by_id,
  get_request_by_client_ref_id, get_record_by_client_ref_id,
}
use reward_mservice.Reward.Input.{RewardDistributionRequest}
use reward_mservice.Reward.Issuer.{Issued, issue_succeeded, issue_refused, issue_error}
use reward_mservice.Reward.Budgets.{
  Attempt, Outcome, complete, handle_reward_request_complete, load_issue_budget, give_up,
  load_distribution_budgets, load_existing_issue_budget, load_existing_project_budget,
  load_existing_distribution_budgets, pre_occupy_in_tx, pre_occupy_budget,
  apply_distribution_issued_budgets, apply_distribution_refund_budgets,
  apply_distribution_outcome_budgets, apply_issue_record_outcome, finalize_in_tx,
  finalize_distribution,
}
use reward_mservice.Reward.Service.{
  process_voucher_issue_request, execute_reward_distribution, if_pending, distribute, continue_with,
  check_risk, run_new_attempt, run_existing_attempt, occupy, attempt_with, finish_attempt,
  handle_risk_failure, fail_in_tx, ensure_completed_and_skip, complete_and_publish,
}
use reward_mservice.Reward.Proofs.Keeps.{
  IsKeptByWrites, Keeps-resolve, Keeps-parse, Keeps-amount, Keeps-issue, Keeps-ignore_completed,
  Keeps-voucher_id, Keeps-publish_terminal_result, Keeps-either,
}

module _ {P : Invariant} (k : IsKeptByWrites P) where
  Keeps-update_status : (i : ℕ) (from to : RewardStatus) → Keeps P (update_status i from to)
  unfolding update_status
  Keeps-update_status i from to =
      Keeps-execute_if _ _ _ (λ t n h met. k.frame _ t n refl refl refl refl h)

  Keeps-complete : (i : ℕ) → Keeps P (complete i)
  unfolding complete
  Keeps-complete i = Keeps-update_status i _ _

  Keeps-handle_complete : (i : ℕ) → Keeps P (handle_reward_request_complete i)
  unfolding handle_reward_request_complete
  Keeps-handle_complete i = search (keeps_rules, Keeps-complete, Keeps-ignore_completed)

  Keeps-create_record : (r : IssueRecord) → Keeps P (create_record r)
  unfolding create_record
  Keeps-create_record r =
      search (keeps_rules, Keeps-new_ids, k.mono, Keeps-execute_if, k.frame) depth 20

  Keeps-save_record : (r : IssueRecord) → Keeps P (save_record r)
  unfolding save_record
  Keeps-save_record r = Keeps-execute _ (λ t n h. k.frame _ t n refl refl refl refl h)

  Keeps-create_request : (r : RewardRequest) → Keeps P (create_request r)
  unfolding create_request
  Keeps-create_request r =
      search (keeps_rules, Keeps-new_ids, k.mono, Keeps-execute_if, k.frame) depth 20

  Keeps-deduct_issue :
      (i : ℕ) (a : ℤ) → Keeps P (Dao.IssueBudgets.apply_distribution_deduct_available i a)
  unfolding Dao.IssueBudgets.apply_distribution_deduct_available
  Keeps-deduct_issue i a = Keeps-execute_if _ _ _ (λ t n h met. k.frame _ t n refl refl refl refl h)

  Keeps-issued_issue : (i : ℕ) (a : ℤ) → Keeps P (Dao.IssueBudgets.apply_distribution_issued i a)
  unfolding Dao.IssueBudgets.apply_distribution_issued
  Keeps-issued_issue i a = Keeps-execute _ (λ t n h. k.frame _ t n refl refl refl refl h)

  Keeps-refund_issue : (i : ℕ) (a : ℤ) → Keeps P (Dao.IssueBudgets.apply_distribution_refund i a)
  unfolding Dao.IssueBudgets.apply_distribution_refund
  Keeps-refund_issue i a = Keeps-execute _ (λ t n h. k.frame _ t n refl refl refl refl h)

  pub Keeps-pre_occupy_in_tx :
      (b : ProjectBudget) (c : IssueBudget) (r : IssueRecord) (a : ℤ)
      → Keeps P (pre_occupy_in_tx b c r a)
  unfolding pre_occupy_in_tx
  Keeps-pre_occupy_in_tx b c r a =
      search (keeps_rules, k.deduct, Keeps-deduct_issue, Keeps-create_record) depth 20

  Keeps-outcome :
      (i j : ℕ) (a : ℤ) (o : Outcome) → Keeps P (apply_distribution_outcome_budgets i j a o)
  unfolding apply_distribution_issued_budgets apply_distribution_refund_budgets
  Keeps-outcome i j a none = search (keeps_rules, k.issued, Keeps-issued_issue)
  Keeps-outcome i j a (some reason) = search (keeps_rules, k.refund, Keeps-refund_issue)

  pub Keeps-finalize_in_tx :
      (r : RewardRequest) (rec : IssueRecord) (i j : ℕ) (o : Outcome)
      → Keeps P (finalize_in_tx r rec i j o)
  unfolding finalize_in_tx
  Keeps-finalize_in_tx r rec i j o =
      search (keeps_rules, Keeps-outcome, Keeps-save_record, Keeps-complete) depth 20

  pub Keeps-fail_in_tx : (r : RewardRequest) (rec : IssueRecord) → Keeps P (fail_in_tx r rec)
  unfolding fail_in_tx
  Keeps-fail_in_tx r rec = search (keeps_rules, Keeps-create_record, Keeps-complete) depth 20

-- Ids only grow.
pub grows : (bound : ℕ) → IsKeptByWrites (Above bound)
unfolding Dao.ProjectBudgets.apply_distribution_deduct_available
    Dao.ProjectBudgets.apply_distribution_issued Dao.ProjectBudgets.apply_distribution_refund
grows bound = record {
  mono = Above-IsMonotone bound;
  deduct = λ i a. Keeps-execute_if _ _ _ (λ t n h met. h);
  issued = λ i a. Keeps-execute _ (λ t n h. h);
  refund = λ i a. Keeps-execute _ (λ t n h. h);
  frame = λ u t n p r m d h. h;
}

module _ {P : Invariant} (k : IsKeptByWrites P) where
  Keeps-pre_occupy :
      (b : ProjectBudget) (c : IssueBudget) (r : RewardRequest) → Keeps P (pre_occupy_budget b c r)
  unfolding pre_occupy_budget
  Keeps-pre_occupy b c r = Keeps-bind _ _ Keeps-voucher_id (λ v.
      Keeps-transaction _ k.mono (λ bound. Keeps-pre_occupy_in_tx (grows bound) b c _ _)
        (Keeps-pre_occupy_in_tx k b c _ _))

  pub Keeps-finalize :
      (r : RewardRequest) (rec : IssueRecord) (i j : ℕ) (o : Outcome)
      → Keeps P (finalize_distribution r rec i j o)
  unfolding finalize_distribution
  Keeps-finalize r rec i j o =
      let done = apply_issue_record_outcome rec r.amount o in
      Keeps-either (transaction (finalize_in_tx r done i j o)) _ _
        (Keeps-transaction _ k.mono (λ bound. Keeps-finalize_in_tx (grows bound) r done i j o)
          (Keeps-finalize_in_tx k r done i j o))
        (λ _. Keeps-publish_terminal_result r done) Keeps-ignore_completed

  Keeps-risk_failure : (r : RewardRequest) (reason : Text) → Keeps P (handle_risk_failure r reason)
  unfolding handle_risk_failure
  Keeps-risk_failure r reason = Keeps-bind _ _ Keeps-voucher_id (λ v.
      Keeps-bind _ _
        (Keeps-transaction _ k.mono (λ bound. Keeps-fail_in_tx (grows bound) r _)
          (Keeps-fail_in_tx k r _))
        (λ rec. Keeps-publish_terminal_result r rec))

  Keeps-give_up : {A : Type 0} (r : RewardRequest) → Keeps P (give_up {A = A} r)
  Keeps-give_up r = search (keeps_rules, Keeps-handle_complete k)

  Keeps-load_issue_budget :
      (r : RewardRequest) (o : Option ProjectBudget) → Keeps P (load_issue_budget r o)
  unfolding get_first_available_for_distribution
  Keeps-load_issue_budget r none = Keeps-give_up r
  Keeps-load_issue_budget r (some b) = search keeps_rules depth 20

  Keeps-load_budgets : (r : RewardRequest) → Keeps P (load_distribution_budgets r)
  unfolding load_distribution_budgets get_by_project_id_voucher_type_unit
  Keeps-load_budgets r = search (keeps_rules, Keeps-load_issue_budget)

  Keeps-load_existing_issue :
      (r : RewardRequest) (b : ProjectBudget) (rec : IssueRecord) (o : Option IssueBudget)
      → Keeps P (load_existing_issue_budget r b rec o)
  unfolding Dao.IssueBudgets.get_by_id
  Keeps-load_existing_issue r b rec none = Keeps-give_up r
  Keeps-load_existing_issue r b rec (some c) = search keeps_rules depth 20

  Keeps-load_existing_project :
      (r : RewardRequest) (i : ℕ) (rec : IssueRecord) (o : Option ProjectBudget)
      → Keeps P (load_existing_project_budget r i rec o)
  unfolding get_by_id get_by_issue_request_id
  Keeps-load_existing_project r i rec none = Keeps-give_up r
  Keeps-load_existing_project r i rec (some b) =
      search (keeps_rules, Keeps-load_existing_issue) depth 20

  Keeps-load_existing :
      (r : RewardRequest) (rec : IssueRecord) → Keeps P (load_existing_distribution_budgets r rec)
  unfolding load_existing_distribution_budgets get_record_by_id get_by_project_id_voucher_type_unit
  Keeps-load_existing r rec = search (keeps_rules, Keeps-load_existing_project) depth 20

  Keeps-finish : (r : RewardRequest) (a : Attempt) (i : Issued) → Keeps P (finish_attempt r a i)
  Keeps-finish r a issue_error = Keeps-throw _
  Keeps-finish r a issue_succeeded = Keeps-finalize r _ _ _ _
  Keeps-finish r a (issue_refused reason) = Keeps-finalize r _ _ _ _

  Keeps-attempt : (r : RewardRequest) (o : Option Attempt) → Keeps P (attempt_with r o)
  Keeps-attempt r none = Keeps-pure _
  Keeps-attempt r (some a) = search (keeps_rules, Keeps-issue, Keeps-finish)

  Keeps-occupy :
      (r : RewardRequest) (o : Option (ProjectBudget × IssueBudget)) → Keeps P (occupy r o)
  Keeps-occupy r none = Keeps-pure _
  Keeps-occupy r (some p) = search (keeps_rules, Keeps-pre_occupy)

  Keeps-new_attempt : (r : RewardRequest) → Keeps P (run_new_attempt r)
  unfolding run_new_attempt
  Keeps-new_attempt r = search (keeps_rules, Keeps-load_budgets, Keeps-occupy, Keeps-attempt)

  Keeps-existing_attempt :
      (r : RewardRequest) (rec : IssueRecord) → Keeps P (run_existing_attempt r rec)
  unfolding run_existing_attempt
  Keeps-existing_attempt r rec = search (keeps_rules, Keeps-load_existing, Keeps-attempt)

  Keeps-check_risk : (r : RewardRequest) (o : Option Text) → Keeps P (check_risk r o)
  Keeps-check_risk r none = Keeps-new_attempt r
  Keeps-check_risk r (some reason) = Keeps-risk_failure r reason

  Keeps-completed :
      (r : RewardRequest) (rec : IssueRecord) → Keeps P (ensure_completed_and_skip r rec)
  unfolding ensure_completed_and_skip complete_and_publish
  Keeps-completed r rec =
      Keeps-if (is_reward_status r.status RewardStatus.completed) (pure tt) _ (Keeps-pure tt) (
        Keeps-either (complete r.id) _ _ (Keeps-complete k r.id)
          (λ _. Keeps-publish_terminal_result r rec) Keeps-ignore_completed)

  Keeps-continue : (r : RewardRequest) (o : Option IssueRecord) → Keeps P (continue_with r o)
  Keeps-continue r none = record {
    at = λ env w h. (Keeps-check_risk r (env.risk r.user_id)).at env w h;
  }
  Keeps-continue r (some rec) =
      Keeps-if (is_record_status rec.issue_status RecordStatus.pending) _ _
        (Keeps-existing_attempt r rec) (Keeps-completed r rec)

  Keeps-if_pending : (o : Option RewardRequest) → Keeps P (if_pending o)
  unfolding distribute get_record_by_client_ref_id
  Keeps-if_pending none = Keeps-pure tt
  Keeps-if_pending (some r) =
      Keeps-if (is_reward_status r.status RewardStatus.pending) _ (pure tt)
        (Keeps-bind _ (continue_with r) (Keeps-query _) (Keeps-continue r)) (Keeps-pure tt)

  pub Keeps-execute_distribution : (id : ℕ) → Keeps P (execute_reward_distribution id)
  unfolding execute_reward_distribution get_request_by_id
  Keeps-execute_distribution id = search (keeps_rules, Keeps-if_pending) depth 20

  pub Keeps-process_request :
      (body : Option RewardDistributionRequest) → Keeps P (process_voucher_issue_request body)
  unfolding process_voucher_issue_request publish_execute get_by_project_id_voucher_type_unit
      get_request_by_client_ref_id
  Keeps-process_request body =
      search (keeps_rules, Keeps-parse, Keeps-resolve, Keeps-amount, Keeps-create_request k) depth
        30
