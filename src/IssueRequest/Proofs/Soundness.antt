-- ===== src/IssueRequest/Proofs/Soundness.antt =====
-- Every method of server/service/issue_request.go keeps the budgets backed.
use reward_mservice.Common.{ℕ, Text, refl, arith}
use reward_mservice.Model.{RequestStatus}
use reward_mservice.World.{Tables, World, transaction}
use reward_mservice.World.Keeps.{
  Keeps, IsMonotone, keeps_rules, Above, Keeps-transaction_success, Keeps-execute, Keeps-execute_if,
}
use reward_mservice.Sql.Laws.{Keyed, IsBelow, IsBelow-mono, update-Keyed, update-IsBelow}
use reward_mservice.Dao
use reward_mservice.Dao.ProjectBudgets.{
  get_by_project_id_voucher_type_unit, lock_by_id, apply_submit_withhold, apply_approve_issued,
  apply_reject_release,
}
use reward_mservice.Dao.IssueRequests.{get_by_id_for_update, update_status_in_tx}
use reward_mservice.IssueRequest.Input.{
  validate_issue_request_transition, ensure_available_gte, ensure_withhold_gte,
}
use reward_mservice.IssueRequest.Service.Tx.{
  submit_issue_request_in_tx, approve_issue_request_in_tx, reject_issue_request_in_tx,
  lock_project_budget,
}
use reward_mservice.IssueRequest.Proofs.Outcomes.{
  budget_id, Moves, submit_outcome, approve_outcome, reject_outcome,
}
use reward_mservice.IssueRequest.Proofs.Backing.{
  IsBacked, submit-IsBacked, approve-IsBacked, reject-IsBacked,
}

-- Primary keys differ and are below the next one; what is withheld waits for approval.
pub record IsSound (t : Tables) (n : ℕ) : Type 0 where
  pub keyed : Keyed budget_id t.project_budgets
  pub below : IsBelow budget_id n t.project_budgets
  pub backed : (project : ℕ) (voucher unit : Text) → IsBacked project voucher unit t

-- … in the tables of a world.
abbrev pub IsSoundIn : World → Type 0
IsSoundIn w = IsSound w.tables w.next_id

pub IsSound-IsMonotone : IsMonotone IsSound
IsSound-IsMonotone = record {
  at = λ t m n l s. record {
    keyed = s.keyed;
    below = IsBelow-mono budget_id m n t.project_budgets l s.below;
    backed = s.backed;
  };
}

module _ (bound : ℕ) where
  submit_grows :
      (id : ℕ) (remark : Text) → Keeps (Above bound) (submit_issue_request_in_tx id remark)
  unfolding submit_issue_request_in_tx lock_project_budget validate_issue_request_transition
      ensure_available_gte get_by_id_for_update update_status_in_tx
      get_by_project_id_voucher_type_unit lock_by_id apply_submit_withhold
  submit_grows id remark = search (keeps_rules, Keeps-execute, Keeps-execute_if) depth 20

  approve_grows :
      (id : ℕ) (remark : Text) → Keeps (Above bound) (approve_issue_request_in_tx id remark)
  unfolding approve_issue_request_in_tx lock_project_budget validate_issue_request_transition
      ensure_withhold_gte get_by_id_for_update update_status_in_tx
      get_by_project_id_voucher_type_unit lock_by_id apply_approve_issued
  approve_grows id remark = search (keeps_rules, Keeps-execute, Keeps-execute_if) depth 20

  reject_grows :
      (id : ℕ) (remark : Text) → Keeps (Above bound) (reject_issue_request_in_tx id remark)
  unfolding reject_issue_request_in_tx lock_project_budget validate_issue_request_transition
      ensure_withhold_gte get_by_id_for_update update_status_in_tx
      get_by_project_id_voucher_type_unit lock_by_id apply_reject_release
  reject_grows id remark = search (keeps_rules, Keeps-execute, Keeps-execute_if) depth 20

submit-IsSound :
    (t t' : Tables) (n : ℕ) (id : ℕ) (remark : Text)
    → IsSound t n
    → Moves t t' id remark RequestStatus.to_approve
        (λ b. b.available_amount)
        Dao.ProjectBudgets.withhold
    → IsSound t' n
submit-IsSound t t' n id remark s m = record {
  keyed = rw m.written (update-Keyed budget_id _ _ t.project_budgets (λ b. refl) s.keyed);
  below = rw m.written (update-IsBelow budget_id n _ _ t.project_budgets (λ b. refl) s.below);
  backed = λ project voucher unit.
      submit-IsBacked project voucher unit t t' id remark s.keyed m (s.backed project voucher unit);
}

pub Keeps-submit :
    (id : ℕ) (remark : Text) → Keeps IsSound (transaction (submit_issue_request_in_tx id remark))
Keeps-submit id remark =
    Keeps-transaction_success (submit_issue_request_in_tx id remark) IsSound-IsMonotone
      (λ bound. submit_grows bound id remark)
      (λ env w w' a s ran.
        let sound =
          submit-IsSound w.tables w'.tables w.next_id id remark s
            (submit_outcome id remark env w w' s.keyed ran) in
        let grown = (submit_grows w.next_id id remark).at env w (omega arith) in
        IsSound-IsMonotone.at w'.tables w.next_id w'.next_id (rw ran at grown) sound)

approve-IsSound :
    (t t' : Tables) (n : ℕ) (id : ℕ) (remark : Text)
    → IsSound t n
    → Moves t t' id remark RequestStatus.approved
        (λ b. b.withhold_amount)
        Dao.ProjectBudgets.issue_withheld
    → IsSound t' n
approve-IsSound t t' n id remark s m = record {
  keyed = rw m.written (update-Keyed budget_id _ _ t.project_budgets (λ b. refl) s.keyed);
  below = rw m.written (update-IsBelow budget_id n _ _ t.project_budgets (λ b. refl) s.below);
  backed = λ project voucher unit.
      approve-IsBacked project voucher unit t t' id remark s.keyed m
        (s.backed project voucher unit);
}

pub Keeps-approve :
    (id : ℕ) (remark : Text) → Keeps IsSound (transaction (approve_issue_request_in_tx id remark))
Keeps-approve id remark =
    Keeps-transaction_success (approve_issue_request_in_tx id remark) IsSound-IsMonotone
      (λ bound. approve_grows bound id remark)
      (λ env w w' a s ran.
        let sound =
          approve-IsSound w.tables w'.tables w.next_id id remark s
            (approve_outcome id remark env w w' s.keyed ran) in
        let grown = (approve_grows w.next_id id remark).at env w (omega arith) in
        IsSound-IsMonotone.at w'.tables w.next_id w'.next_id (rw ran at grown) sound)

reject-IsSound :
    (t t' : Tables) (n : ℕ) (id : ℕ) (remark : Text)
    → IsSound t n
    → Moves t t' id remark RequestStatus.rejected
        (λ b. b.withhold_amount)
        Dao.ProjectBudgets.release_withheld
    → IsSound t' n
reject-IsSound t t' n id remark s m = record {
  keyed = rw m.written (update-Keyed budget_id _ _ t.project_budgets (λ b. refl) s.keyed);
  below = rw m.written (update-IsBelow budget_id n _ _ t.project_budgets (λ b. refl) s.below);
  backed = λ project voucher unit.
      reject-IsBacked project voucher unit t t' id remark s.keyed m (s.backed project voucher unit);
}

pub Keeps-reject :
    (id : ℕ) (remark : Text) → Keeps IsSound (transaction (reject_issue_request_in_tx id remark))
Keeps-reject id remark =
    Keeps-transaction_success (reject_issue_request_in_tx id remark) IsSound-IsMonotone
      (λ bound. reject_grows bound id remark)
      (λ env w w' a s ran.
        let sound =
          reject-IsSound w.tables w'.tables w.next_id id remark s
            (reject_outcome id remark env w w' s.keyed ran) in
        let grown = (reject_grows w.next_id id remark).at env w (omega arith) in
        IsSound-IsMonotone.at w'.tables w.next_id w'.next_id (rw ran at grown) sound)
