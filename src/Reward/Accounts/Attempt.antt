-- ===== src/Reward/Accounts/Attempt.antt =====
-- A first attempt of a distribution keeps the accounts in order.
use reward_mservice.Common.{
  ℕ, ◌+◌, ℤ, Option, none, some, find, ◌≡◌, sym, ap, ◌∙◌, subst, arith, inl, inr,
}
use reward_mservice.Errs.{distribution_retry, distribution_deferred}
use reward_mservice.Model.{ProjectBudget, IssueBudget, RewardRequest, IssueRecord}
use reward_mservice.World.{Tables, World, Env, ok, execute_if, new_ids}
use reward_mservice.World.Keeps.{Invariant, Keeps, keeps_rules, IsMonotone, Keeps-execute_if}
use reward_mservice.World.Triple.{
  Triple, Triple-bind, Triple-query_to, Triple-require_to, Triple-Keeps_to, Triple-pure, Triple-pre,
  Triple-throw, Triple-world, Triple-transaction, Triple-weaken, Triple-Keeps,
}
use reward_mservice.Sql.Laws.{find-id}
use reward_mservice.Sql.Rows.{has_key}
use reward_mservice.Dao
use reward_mservice.Dao.Rewards.{update_status, create_record}
use reward_mservice.Dao.ProjectBudgets.{get_by_project_id_voucher_type_unit}
use reward_mservice.Dao.IssueBudgets.{get_first_available_for_distribution}
use reward_mservice.Reward.Issuer.{Issued, issue_succeeded, issue_refused, issue_error}
use reward_mservice.Reward.Budgets.{
  Attempt, Outcome, new_record, complete, handle_reward_request_complete, give_up,
  load_issue_budget, load_distribution_budgets, pre_occupy_in_tx, pre_occupy_budget,
  apply_issue_record_outcome, finalize_distribution,
}
use reward_mservice.Reward.Service.{finish_attempt, attempt_with, occupy, run_new_attempt}
use reward_mservice.Reward.Proofs.Keeps.{Keeps-issue, Keeps-ignore_completed, Keeps-voucher_id}
use reward_mservice.Reward.Proofs.Methods.{grows, Keeps-pre_occupy_in_tx, Keeps-finalize}
use reward_mservice.Reward.Proofs.Outcomes.{pre_occupy_outcome}
use reward_mservice.Reward.Proofs.Settlement.{settles}
use reward_mservice.Reward.Accounts.{budget_id, client_ref, IsAccounted}
use reward_mservice.Reward.Accounts.Rows.{IsAccounted-IsMonotone, status-IsAccounted}
use reward_mservice.Reward.Accounts.Moves.{IsUnderWay, occupied-IsUnderWay}
use reward_mservice.Reward.Accounts.Settle.{done-IsClosed, outcome-IsAccounted}

pub Keeps-complete : (i : ℕ) → Keeps IsAccounted (complete i)
unfolding complete update_status
Keeps-complete i = Keeps-execute_if _ _ _ (λ t n s met. status-IsAccounted _ _ t n s)

Keeps-handle_complete : (i : ℕ) → Keeps IsAccounted (handle_reward_request_complete i)
unfolding handle_reward_request_complete
Keeps-handle_complete i = search (keeps_rules, Keeps-complete, Keeps-ignore_completed)

-- The accounts are in order, and the request is the row with its client reference.
abbrev pub Asked : RewardRequest → Invariant
Asked r t n =
    IsAccounted t n × (find (has_key client_ref r.client_ref_id) t.reward_requests ≡ some r)

-- … and the issue budget is a row.
abbrev pub HasBudget : RewardRequest → IssueBudget → Invariant
HasBudget r budget t n =
    Asked r t n × (find (Dao.IssueBudgets.has_id budget.id) t.issue_budgets ≡ some budget)

HasBudget-IsMonotone : (r : RewardRequest) (budget : IssueBudget) → IsMonotone (HasBudget r budget)
HasBudget-IsMonotone r budget = record {
  at = λ t m n l h. ((IsAccounted-IsMonotone.at t m n l h.0.0, h.0.1), h.1);
}

abbrev Loaded : RewardRequest → Option (ProjectBudget × IssueBudget) → Invariant
Loaded r none = IsAccounted
Loaded r (some p) = HasBudget r p.1

abbrev pub Underway : RewardRequest → Option Attempt → Invariant
Underway r none = IsAccounted
Underway r (some a) = IsUnderWay r a

pub Triple-give_up :
    {A : Type 0} (r : RewardRequest) (Q : Option A → Invariant)
    → ((t : Tables) (n : ℕ) → IsAccounted t n → Q none t n)
    → Triple IsAccounted (give_up {A = A} r) Q IsAccounted
Triple-give_up r Q k =
    Triple-bind _ _
      (Triple-Keeps (handle_reward_request_complete r.id) (Keeps-handle_complete r.id))
      (λ _. Triple-pure none k)

Triple-load_issue_budget :
    (r : RewardRequest) (o : Option ProjectBudget)
    → Triple (Asked r) (load_issue_budget r o) (Loaded r) IsAccounted
unfolding get_first_available_for_distribution
Triple-load_issue_budget r none =
    Triple-pre _ (λ t n h. h.0) (Triple-give_up r (Loaded r) (λ t n s. s))
Triple-load_issue_budget r (some project) =
    Triple-bind _ _ (Triple-query_to (λ t n h. h.0) _) (λ found.
      Triple-bind _ _ (Triple-require_to (λ t n h. h.0.0) found distribution_deferred) (λ budget.
        Triple-pure (some (project, budget)) (λ t n h.
          (h.0.0, find-id budget_id _ t.issue_budgets budget h.0.0.0.budgets_keyed (h.0.1 ∙ h.1)))))

Triple-load_budgets :
    (r : RewardRequest) → Triple (Asked r) (load_distribution_budgets r) (Loaded r) IsAccounted
unfolding load_distribution_budgets get_by_project_id_voucher_type_unit
Triple-load_budgets r =
    Triple-bind _ _ (Triple-query_to (λ t n h. h.0) _)
      (λ o. Triple-pre _ (λ t n h. h.0) (Triple-load_issue_budget r o))

pre_occupy_new :
    (project : ProjectBudget) (budget : IssueBudget) (new rec : IssueRecord) (a : ℤ) (env : Env)
    (w w' : World)
    → pre_occupy_in_tx project budget new a env w ≡ (ok rec, w')
    → (rec ≡ record new { id = w.next_id }) × (w'.next_id ≡ w.next_id + 1)
unfolding pre_occupy_in_tx create_record execute_if new_ids
    Dao.ProjectBudgets.apply_distribution_deduct_available
    Dao.IssueBudgets.apply_distribution_deduct_available
pre_occupy_new project budget new rec a env w w' h = (ground arith, ground arith)

-- The record that `preOccupyBudget` returns is under way.
Triple-pre_occupy :
    (r : RewardRequest) (project : ProjectBudget) (budget : IssueBudget)
    → Triple
        (HasBudget r budget)
        (pre_occupy_budget project budget r)
        (λ rec.
          IsUnderWay r
            (record { project_budget = project; issue_budget = budget; issue_record = rec }))
        IsAccounted
unfolding pre_occupy_budget
Triple-pre_occupy r project budget =
    Triple-bind _ _ (Triple-Keeps_to (λ t n h. h.0.0) _ Keeps-voucher_id) (λ v.
      let new = record (new_record r v) { issue_request_id = some budget.issue_request_id } in
      Triple-weaken _
        (Triple-transaction (pre_occupy_in_tx project budget new r.amount)
          (HasBudget-IsMonotone r budget)
          (λ bound. Keeps-pre_occupy_in_tx (grows bound) project budget new r.amount)
          (λ env w w' rec h ran.
            let made = pre_occupy_new project budget new rec r.amount env w w' ran in
            subst
              (λ n.
                IsUnderWay r
                  (record { project_budget = project; issue_budget = budget; issue_record = rec })
                  w'.tables n)
              (sym made.1)
              (occupied-IsUnderWay r project budget rec w.tables w'.tables w.next_id h.0.0 h.1 h.0.1
                (record {
                  id = ap (λ x. x.id) made.0;
                  ref = ap (λ x. x.client_reference_id) made.0;
                  amount = ap (λ x. x.reward_amount) made.0;
                  status = ap (λ x. x.issue_status) made.0;
                  pointed = ap (λ x. x.issue_request_id) made.0;
                })
                (pre_occupy_outcome project budget new rec r.amount env w w' ran))))
        (λ a t n h. h) (λ t n h. h.0.0))

Triple-occupy :
    (r : RewardRequest) (o : Option (ProjectBudget × IssueBudget))
    → Triple (Loaded r o) (occupy r o) (Underway r) IsAccounted
Triple-occupy r none = Triple-pure none (λ t n h. h)
Triple-occupy r (some p) =
    Triple-bind _ _ (Triple-pre_occupy r p.0 p.1) (λ rec. Triple-pure _ (λ t n h. h))

Triple-finalize :
    (r : RewardRequest) (a : Attempt) (o : Outcome)
    → Triple
        (IsUnderWay r a)
        (finalize_distribution r a.issue_record a.project_budget.id a.issue_budget.id o)
        (λ _. IsAccounted)
        IsAccounted
Triple-finalize r a o = Triple-world _ (λ env w u.
    let rec = a.issue_record in
    let out = finalize_distribution r rec a.project_budget.id a.issue_budget.id o env w in
    let done = apply_issue_record_outcome rec r.amount o in
    let grown =
      (Keeps-finalize (grows w.next_id) r rec a.project_budget.id a.issue_budget.id o).at env w
        (omega arith) in
    IsAccounted-IsMonotone.at out.1.tables w.next_id out.1.next_id grown
      (elim (settles r rec a.project_budget.id a.issue_budget.id o env w) [
        | inl same ↦ subst (λ t. IsAccounted t w.next_id) (sym same.0) u.accounted
        | inr settled ↦
            outcome-IsAccounted r a a.project_budget.id o done w.tables w.next_id u
              (done-IsClosed rec r.amount o) out.1.tables settled.0
      ]))

Triple-finish :
    (r : RewardRequest) (a : Attempt) (i : Issued)
    → Triple (IsUnderWay r a) (finish_attempt r a i) (λ _. IsAccounted) IsAccounted
Triple-finish r a issue_error = Triple-throw distribution_retry (λ t n u. u.accounted)
Triple-finish r a issue_succeeded = Triple-finalize r a none
Triple-finish r a (issue_refused reason) = Triple-finalize r a (some reason)

pub Triple-attempt :
    (r : RewardRequest) (o : Option Attempt)
    → Triple (Underway r o) (attempt_with r o) (λ _. IsAccounted) IsAccounted
Triple-attempt r none = Triple-pure tt (λ t n h. h)
Triple-attempt r (some a) =
    Triple-bind _ _ (Triple-Keeps_to (λ t n u. u.accounted) _ (Keeps-issue a.issue_record r.amount))
      (λ i. Triple-finish r a i)

pub Triple-new_attempt :
    (r : RewardRequest) → Triple (Asked r) (run_new_attempt r) (λ _. IsAccounted) IsAccounted
unfolding run_new_attempt
Triple-new_attempt r =
    Triple-bind _ _ (Triple-load_budgets r)
      (λ o. Triple-bind _ _ (Triple-occupy r o) (λ a. Triple-attempt r a))
