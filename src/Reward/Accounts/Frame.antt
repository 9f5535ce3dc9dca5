-- ===== src/Reward/Accounts/Frame.antt =====
-- What the methods of other components keep, which write neither to the records nor to the reward
-- requests, and to the issue budgets only to add one.
use reward_mservice.Common.{ℕ, ◌+◌, not, arith, Option, Text, ◌≡◌, refl, List}
use reward_mservice.Model.{IssueRequest, FinanceDoc}
use reward_mservice.World.{Tables, transaction, new_ids, execute_if}
use reward_mservice.Sql.{has}
use reward_mservice.World.Keeps.{
  Invariant, Keeps, keeps_rules, IsMonotone, Above, Above-IsMonotone, Keeps-transaction,
  Keeps-execute, Keeps-execute_if, Keeps-new_ids, if_Holds,
}
use reward_mservice.Dao.IssueRequests.{
  create, update_fields, update_status_in_tx, mark_ongoing, get_by_id_for_update,
}
use reward_mservice.Dao.IssueBudgets.{create as create_budget, has_issue_request_id}
use reward_mservice.Dao.ProjectBudgets.{
  lock_by_id, get_by_project_id_voucher_type_unit, apply_submit_withhold, apply_approve_issued,
  apply_reject_release,
}
use reward_mservice.IssueRequest.Input.{
  validate_issue_request_transition, ensure_available_gte, ensure_withhold_gte,
}
use reward_mservice.IssueRequest.Service.Tx.{
  lock_project_budget, submit_issue_request_in_tx, approve_issue_request_in_tx,
  reject_issue_request_in_tx, init_issue_budget_in_tx, new_issue_budget,
}
use reward_mservice.IssueRequest.Service.Handlers.{
  UpdateRequest, load_editable_issue_request, update_issue_request,
}
use reward_mservice.IssueRequest.Proofs.Handlers.{
  IsKeptByRequests, Keeps-load_issue_request_for_doc, Keeps-ensure_available_amount,
  Keeps-parse_update, Keeps-to_column,
}
use reward_mservice.IssueRequest.Proofs.Methods.{Keeps-init}
use reward_mservice.Dao.Finance.{on_docs}
use reward_mservice.Finance.Frame.{IsOfDocs, IsOfOtherTables}
use reward_mservice.Reward.Accounts.{IsAccounted}
use reward_mservice.Reward.Accounts.Rows.{
  IsAccounted-IsMonotone, frame-IsAccounted, IsFresh, fund-IsAccounted,
}

-- `P` is about the issue budgets, the records, the reward requests and the templates alone, and holds with a
-- budget for an issue request added.
pub record IsOfDistribution (P : Invariant) : Type 0 where
  pub mono : IsMonotone P
  pub frame :
      (u t : Tables) (n : ℕ)
      → u.issue_budgets ≡ t.issue_budgets
      → u.issue_records ≡ t.issue_records
      → u.reward_requests ≡ t.reward_requests
      → u.templates ≡ t.templates
      → u.finance_docs ≡ t.finance_docs
      → P t n
      → P u n
  pub fund : (r : IssueRequest) → Keeps P (create_budget (new_issue_budget r))

pub grows : (bound : ℕ) → IsOfDistribution (Above bound)
unfolding create_budget
grows bound = record {
  mono = Above-IsMonotone bound;
  frame = λ u t n b r q m d h. h;
  fund = λ r. search (keeps_rules, Keeps-new_ids, Above-IsMonotone, Keeps-execute_if) depth 20;
}

-- server/service/issue_request.go
module _ {P : Invariant} (k : IsOfDistribution P) where
  pub Keeps-submit_in_tx : (id : ℕ) (remark : Text) → Keeps P (submit_issue_request_in_tx id remark)
  unfolding submit_issue_request_in_tx lock_project_budget validate_issue_request_transition
      ensure_available_gte get_by_id_for_update update_status_in_tx
      get_by_project_id_voucher_type_unit lock_by_id apply_submit_withhold
  Keeps-submit_in_tx id remark =
      search (keeps_rules, Keeps-execute, Keeps-execute_if, k.frame) depth 20

  pub Keeps-approve_in_tx :
      (id : ℕ) (remark : Text) → Keeps P (approve_issue_request_in_tx id remark)
  unfolding approve_issue_request_in_tx lock_project_budget validate_issue_request_transition
      ensure_withhold_gte get_by_id_for_update update_status_in_tx
      get_by_project_id_voucher_type_unit lock_by_id apply_approve_issued
  Keeps-approve_in_tx id remark =
      search (keeps_rules, Keeps-execute, Keeps-execute_if, k.frame) depth 20

  pub Keeps-reject_in_tx : (id : ℕ) (remark : Text) → Keeps P (reject_issue_request_in_tx id remark)
  unfolding reject_issue_request_in_tx lock_project_budget validate_issue_request_transition
      ensure_withhold_gte get_by_id_for_update update_status_in_tx
      get_by_project_id_voucher_type_unit lock_by_id apply_reject_release
  Keeps-reject_in_tx id remark =
      search (keeps_rules, Keeps-execute, Keeps-execute_if, k.frame) depth 20

  pub Keeps-mark_ongoing : (i : ℕ) → Keeps P (mark_ongoing i)
  unfolding mark_ongoing
  Keeps-mark_ongoing i = search (keeps_rules, Keeps-execute, k.frame)

module _ {P : Invariant} (k : IsOfDistribution P) where
  Keeps-submit :
      (id : ℕ) (remark : Text) → Keeps P (transaction (submit_issue_request_in_tx id remark))
  Keeps-submit id remark =
      Keeps-transaction _ k.mono (λ bound. Keeps-submit_in_tx (grows bound) id remark)
        (Keeps-submit_in_tx k id remark)

  Keeps-approve :
      (id : ℕ) (remark : Text) → Keeps P (transaction (approve_issue_request_in_tx id remark))
  Keeps-approve id remark =
      Keeps-transaction _ k.mono (λ bound. Keeps-approve_in_tx (grows bound) id remark)
        (Keeps-approve_in_tx k id remark)

  Keeps-reject :
      (id : ℕ) (remark : Text) → Keeps P (transaction (reject_issue_request_in_tx id remark))
  Keeps-reject id remark =
      Keeps-transaction _ k.mono (λ bound. Keeps-reject_in_tx (grows bound) id remark)
        (Keeps-reject_in_tx k id remark)

  Keeps-init_issue_budget : (i : ℕ) → Keeps P (transaction (init_issue_budget_in_tx i))
  Keeps-init_issue_budget i =
      Keeps-transaction _ k.mono
        (λ bound. Keeps-init (grows bound).fund (Keeps-mark_ongoing (grows bound)) i)
        (Keeps-init k.fund (Keeps-mark_ongoing k) i)

  Keeps-create : (r : IssueRequest) → Keeps P (create r)
  unfolding create
  Keeps-create r = search (keeps_rules, Keeps-new_ids, k.mono, Keeps-execute, k.frame) depth 20

  pub others_requests : IsKeptByRequests P
  others_requests = record {
    submit = Keeps-submit;
    approve = Keeps-approve;
    reject = Keeps-reject;
    init = Keeps-init_issue_budget;
    make = λ r draft. Keeps-create r;
  }

  pub Keeps-update_issue_request :
      (doc_id : Text) (id : ℕ) (body : Option UpdateRequest)
      → Keeps P (update_issue_request doc_id id body)
  unfolding update_issue_request load_editable_issue_request update_fields
  Keeps-update_issue_request doc_id id body =
      search
        (
          keeps_rules, Keeps-load_issue_request_for_doc, Keeps-parse_update,
          Keeps-ensure_available_amount, Keeps-to_column, Keeps-execute, k.frame,
        )
        depth 30

  -- … and so it is not about project budgets and payments, nor about finance docs if no change of
  -- them matters.
  pub others_docs : IsOfDocs P
  others_docs = record { mono = k.mono; frame = λ u t n i b r q m. k.frame u t n b r q m }

  pub others_finance :
      ((f : List FinanceDoc → List FinanceDoc) (t : Tables) (n : ℕ) → P t n → P (on_docs f t) n)
      → IsOfOtherTables P
  others_finance docs = record {
    mono = k.mono;
    frame = λ u t n i b r q m h.
        k.frame u (on_docs (λ _. u.finance_docs) t) n b r q m refl
          (docs (λ _. u.finance_docs) t n h);
  }

new_budget-IsFresh : (r : IssueRequest) → IsFresh (new_issue_budget r)
new_budget-IsFresh r = record { available = refl; issued = refl; refunded = refl }

Keeps-fund : (r : IssueRequest) → Keeps IsAccounted (create_budget (new_issue_budget r))
unfolding create_budget new_ids execute_if
Keeps-fund r = record {
  at = λ env w s.
      let more = IsAccounted-IsMonotone.at w.tables w.next_id (w.next_id + 1) (omega arith) s in
      if_Holds IsAccounted (env.fails w.calls) _ _ more (
        if_Holds IsAccounted (not (has (has_issue_request_id r.id) w.tables.issue_budgets)) _ _
          (fund-IsAccounted (new_issue_budget r) w.tables w.next_id (new_budget-IsFresh r) s) more);
}

-- The accounts are of this kind.
pub accounts : IsOfDistribution IsAccounted
accounts = record {
  mono = IsAccounted-IsMonotone;
  frame = λ u t n b r q m d. frame-IsAccounted u t n b r q;
  fund = Keeps-fund;
}
