-- ===== src/IssueRequest/Proofs/Atomic.antt =====
-- The transactions of server/service/issue_request.go: the status and the money move together, or
-- not at all.
use reward_mservice.Common.{ℕ, Text}
use reward_mservice.Model.{RequestStatus}
use reward_mservice.World.{World, Env, transaction}
use reward_mservice.World.Transactions.{Atomic, transaction-Atomic}
use reward_mservice.Dao
use reward_mservice.IssueRequest.Service.Tx.{
  submit_issue_request_in_tx, approve_issue_request_in_tx, reject_issue_request_in_tx,
}
use reward_mservice.IssueRequest.Proofs.Outcomes.{
  HasBudgetIds, Moves, submit_outcome, approve_outcome, reject_outcome,
}

module _ (id : ℕ) (remark : Text) (env : Env) (w : World) (ids : HasBudgetIds w.tables) where
  -- The transaction of a submit, in tables whose project budgets have distinct ids. If it
  -- returns, the request was in the tables in a status from which TO_APPROVE may be reached, its
  -- amount is at least 0 and at most what its project budget had available, and the tables changed
  -- only in the request's status and remark and in that the budget's amount moved from available
  -- to withheld. If it fails, the tables are the old ones.
  pub submit-Atomic :
      Atomic w.tables
        (λ _ t'.
          Moves w.tables t' id remark RequestStatus.to_approve
            (λ b. b.available_amount)
            Dao.ProjectBudgets.withhold)
        (transaction (submit_issue_request_in_tx id remark) env w)
  submit-Atomic =
      transaction-Atomic _ (submit_issue_request_in_tx id remark) env w
        (λ _ w' ran. submit_outcome id remark env _ w' ids ran)

  -- The transaction of an approval, in tables whose project budgets have distinct ids. If it
  -- returns, the request was waiting for approval, its amount is at least 0 and at most what its
  -- project budget withheld, and the tables changed only in the request's status and remark and in
  -- that the budget's amount moved from withheld to issued. If it fails, the tables are the old
  -- ones.
  pub approve-Atomic :
      Atomic w.tables
        (λ _ t'.
          Moves w.tables t' id remark RequestStatus.approved
            (λ b. b.withhold_amount)
            Dao.ProjectBudgets.issue_withheld)
        (transaction (approve_issue_request_in_tx id remark) env w)
  approve-Atomic =
      transaction-Atomic _ (approve_issue_request_in_tx id remark) env w
        (λ _ w' ran. approve_outcome id remark env _ w' ids ran)

  -- The transaction of a rejection, in tables whose project budgets have distinct ids. If it
  -- returns, the request was waiting for approval, its amount is at least 0 and at most what its
  -- project budget withheld, and the tables changed only in the request's status and remark and in
  -- that the budget's amount moved from withheld back to available. If it fails, the tables are the
  -- old ones.
  pub reject-Atomic :
      Atomic w.tables
        (λ _ t'.
          Moves w.tables t' id remark RequestStatus.rejected
            (λ b. b.withhold_amount)
            Dao.ProjectBudgets.release_withheld)
        (transaction (reject_issue_request_in_tx id remark) env w)
  reject-Atomic =
      transaction-Atomic _ (reject_issue_request_in_tx id remark) env w
        (λ _ w' ran. reject_outcome id remark env _ w' ids ran)
