-- ===== src/Reward/Proofs/Outcomes.antt =====
-- What the transactions of a distribution write, and when.
use reward_mservice.Common.{
  ℕ, ℤ, true, false, none, some, [], ◌∷◌, ◌++◌, List, ◌≡◌, arith, if◌then◌else◌,
}
use reward_mservice.Model.{ProjectBudget, IssueBudget, RewardRequest, RewardStatus, IssueRecord}
use reward_mservice.World.{Tables, World, Env, ok, execute, execute_if, new_ids}
use reward_mservice.World.Transactions.{Atomic, transaction-Atomic}
use reward_mservice.Sql.{update, has}
use reward_mservice.Dao
use reward_mservice.Dao.Rewards.{create_record, save_record, update_status, get_request_by_id}
use reward_mservice.Reward.Budgets.{
  Outcome, generate_voucher_id, complete, pre_occupy_in_tx, pre_occupy_budget,
  apply_distribution_issued_budgets, apply_distribution_refund_budgets, finalize_in_tx,
}

-- `a` was taken from both budgets, which had it, for the new record `rec`.
pub record Occupied (project : ProjectBudget) (budget : IssueBudget) (a : ℤ) (rec : IssueRecord)
    (t t' : Tables) : Type 0 where
  pub project_covers :
      has (Dao.ProjectBudgets.has_id_and_available project.id a) t.project_budgets ≡ true
  pub budget_covers : has (Dao.IssueBudgets.has_id_and_available budget.id a) t.issue_budgets ≡ true
  pub fresh : has (Dao.Rewards.clashes rec) t.issue_records ≡ false
  pub written : t' ≡ record t {
    project_budgets =
        update
          (Dao.ProjectBudgets.has_id_and_available project.id a)
          (Dao.ProjectBudgets.deduct_available a)
          t.project_budgets;
    issue_budgets =
        update
          (Dao.IssueBudgets.has_id_and_available budget.id a)
          (Dao.IssueBudgets.deduct_available a)
          t.issue_budgets;
    issue_records = t.issue_records ++ rec ∷ [];
  }

pub pre_occupy_outcome :
    (project : ProjectBudget) (budget : IssueBudget) (new rec : IssueRecord) (a : ℤ) (env : Env)
    (w w' : World)
    → pre_occupy_in_tx project budget new a env w ≡ (ok rec, w')
    → Occupied project budget a rec w.tables w'.tables
unfolding pre_occupy_in_tx create_record execute_if new_ids
    Dao.ProjectBudgets.apply_distribution_deduct_available
    Dao.IssueBudgets.apply_distribution_deduct_available
pre_occupy_outcome project budget new rec a env w w' h = record {
  project_covers = ground arith;
  budget_covers = ground arith;
  fresh = ground arith;
  written = ground arith;
}

-- `preOccupyBudget`. If it returns a record, both budgets had the request's amount available, no
-- record had its voucher id or its reward request, and the tables changed only in that both
-- budgets have that much less available and that the record was added. If it fails, the tables are
-- the old ones.
pub pre_occupy_budget-Atomic :
    (project : ProjectBudget) (budget : IssueBudget) (r : RewardRequest) (env : Env) (w : World)
    → Atomic w.tables
        (λ rec t'. Occupied project budget r.amount rec w.tables t')
        (pre_occupy_budget project budget r env w)
unfolding pre_occupy_budget generate_voucher_id
pre_occupy_budget-Atomic project budget r env w =
    transaction-Atomic _ _ env w
      (λ rec w' ran. pre_occupy_outcome project budget _ rec r.amount env _ w' ran)

-- What an outcome adds to.
abbrev pub credit_project : Outcome → ℤ → ProjectBudget → ProjectBudget
credit_project none = Dao.ProjectBudgets.add_issued
credit_project (some reason) = Dao.ProjectBudgets.add_refund

abbrev pub credit_issue : Outcome → ℤ → IssueBudget → IssueBudget
credit_issue none = Dao.IssueBudgets.add_issued
credit_issue (some reason) = Dao.IssueBudgets.add_refund

-- The tables with a record saved.
abbrev pub saved : IssueRecord → List IssueRecord → List IssueRecord
saved rec old =
    if has (Dao.Rewards.has_record_id rec.id) old
    then update (Dao.Rewards.has_record_id rec.id) (λ _. rec) old
    else old ++ rec ∷ []

-- The pending request `r` was completed, with its amount credited to both budgets.
pub record Finalized (r : RewardRequest) (rec : IssueRecord) (project_id budget_id : ℕ)
    (outcome : Outcome) (t t' : Tables) : Type 0 where
  pub was_pending :
      has (Dao.Rewards.has_id_and_status r.id RewardStatus.pending) t.reward_requests ≡ true
  pub written : t' ≡ record t {
    project_budgets =
        update
          (Dao.ProjectBudgets.has_id project_id)
          (credit_project outcome r.amount)
          t.project_budgets;
    issue_budgets =
        update (Dao.IssueBudgets.has_id budget_id) (credit_issue outcome r.amount) t.issue_budgets;
    issue_records = saved rec t.issue_records;
    reward_requests =
        update
          (Dao.Rewards.has_id_and_status r.id RewardStatus.pending)
          (Dao.Rewards.set_status RewardStatus.completed)
          t.reward_requests;
  }

pub finalize_outcome :
    (r : RewardRequest) (rec : IssueRecord) (i j : ℕ) (o : Outcome) (env : Env) (w w' : World)
    → finalize_in_tx r rec i j o env w ≡ (ok tt, w')
    → Finalized r rec i j o w.tables w'.tables × (w'.outbox ≡ w.outbox)
unfolding finalize_in_tx complete update_status save_record execute_if execute
    apply_distribution_issued_budgets apply_distribution_refund_budgets
    Dao.ProjectBudgets.apply_distribution_issued Dao.IssueBudgets.apply_distribution_issued
    Dao.ProjectBudgets.apply_distribution_refund Dao.IssueBudgets.apply_distribution_refund
finalize_outcome r rec i j none env w w' h =
    (record { was_pending = ground arith; written = ground arith }, ground arith)
finalize_outcome r rec i j (some reason) env w w' h =
    (record { was_pending = ground arith; written = ground arith }, ground arith)

-- Nothing is sent in the transaction.
pub finalize_sends_nothing :
    (r : RewardRequest) (rec : IssueRecord) (i j : ℕ) (o : Outcome) (env : Env) (w : World)
    → (finalize_in_tx r rec i j o env w).1.outbox ≡ w.outbox
unfolding finalize_in_tx complete update_status save_record execute_if execute
    apply_distribution_issued_budgets apply_distribution_refund_budgets
    Dao.ProjectBudgets.apply_distribution_issued Dao.IssueBudgets.apply_distribution_issued
    Dao.ProjectBudgets.apply_distribution_refund Dao.IssueBudgets.apply_distribution_refund
finalize_sends_nothing r rec i j none env w = ground arith
finalize_sends_nothing r rec i j (some reason) env w = ground arith
