-- ===== src/Reward/Proofs/Soundness.antt =====
-- The distribution of rewards leaves the money withheld for issue requests as it is.
use reward_mservice.Common.{ℕ, ℤ, Bool, Option, Text, ◌≡◌, refl}
use reward_mservice.Model.{ProjectBudget}
use reward_mservice.World.{Tables, Env, World}
use reward_mservice.World.Keeps.{Keeps, Keeps-execute, Keeps-execute_if}
use reward_mservice.Sql.{update}
use reward_mservice.Sql.Laws.{sum_of-update_same, update-Keyed, update-IsBelow}
use reward_mservice.Dao
use reward_mservice.Dao.ProjectBudgets.{
  on_budgets, deduct_available, add_issued, add_refund, has_id_and_available, has_id,
  get_by_project_id_voucher_type_unit, get_by_id,
}
use reward_mservice.IssueRequest.Proofs.Outcomes.{budget_id}
use reward_mservice.IssueRequest.Proofs.Backing.{IsBacked, held}
use reward_mservice.IssueRequest.Proofs.Soundness.{IsSound, IsSoundIn, IsSound-IsMonotone}
use reward_mservice.IssueRequest.Proofs.Methods.{frame-IsSound}
use reward_mservice.Reward.Input.{RewardDistributionRequest}
use reward_mservice.Reward.Service.{process_voucher_issue_request, execute_reward_distribution}
use reward_mservice.Reward.Proofs.Keeps.{IsKeptByWrites}
use reward_mservice.Reward.Proofs.Methods.{Keeps-execute_distribution, Keeps-process_request}

-- A change of columns other than the id, the key and the withheld amount.
pub columns-IsSound :
    (p : ProjectBudget → Bool) (f : ProjectBudget → ProjectBudget) (t : Tables) (n : ℕ)
    → ((b : ProjectBudget) → budget_id (f b) ≡ budget_id b)
    → ((project : ℕ) (voucher unit : Text) (b : ProjectBudget)
        → held project voucher unit (f b) ≡ held project voucher unit b)
    → IsSound t n
    → IsSound (on_budgets (update p f) t) n
unfolding IsBacked
columns-IsSound p f t n ids same s = record {
  keyed = update-Keyed budget_id p f t.project_budgets ids s.keyed;
  below = update-IsBelow budget_id n p f t.project_budgets ids s.below;
  backed = λ project voucher unit.
      rw
        (sum_of-update_same (held project voucher unit) p f t.project_budgets
          (λ b met. same project voucher unit b))
        (s.backed project voucher unit);
}

Keeps-deduct :
    (i : ℕ) (a : ℤ) → Keeps IsSound (Dao.ProjectBudgets.apply_distribution_deduct_available i a)
unfolding Dao.ProjectBudgets.apply_distribution_deduct_available
Keeps-deduct i a = Keeps-execute_if _ _ _ (λ t n s met.
    columns-IsSound (has_id_and_available i a) (deduct_available a) t n (λ b. refl)
      (λ p v u b. refl) s)

Keeps-issued : (i : ℕ) (a : ℤ) → Keeps IsSound (Dao.ProjectBudgets.apply_distribution_issued i a)
unfolding Dao.ProjectBudgets.apply_distribution_issued
Keeps-issued i a =
    Keeps-execute _
      (λ t n s. columns-IsSound (has_id i) (add_issued a) t n (λ b. refl) (λ p v u b. refl) s)

Keeps-refund : (i : ℕ) (a : ℤ) → Keeps IsSound (Dao.ProjectBudgets.apply_distribution_refund i a)
unfolding Dao.ProjectBudgets.apply_distribution_refund
Keeps-refund i a =
    Keeps-execute _
      (λ t n s. columns-IsSound (has_id i) (add_refund a) t n (λ b. refl) (λ p v u b. refl) s)

pub kept : IsKeptByWrites IsSound
kept = record {
  mono = IsSound-IsMonotone;
  deduct = Keeps-deduct;
  issued = Keeps-issued;
  refund = Keeps-refund;
  frame = λ u t n p r m d. frame-IsSound u t n p r;
}

module _ (env : Env) (w : World) (sound : IsSoundIn w) where
  -- `ExecuteRewardDistribution` from sound tables leaves them sound, whether it returns or fails:
  -- it touches no withheld amount and no issue request, whatever the risk check and the asset
  -- service answer.
  pub execute_reward_distribution-IsSound :
      (id : ℕ) → IsSoundIn (execute_reward_distribution id env w).1
  execute_reward_distribution-IsSound id = (Keeps-execute_distribution kept id).at env w sound

  -- `ProcessVoucherIssueRequest` from sound tables leaves them sound, whether it returns or fails.
  pub process_voucher_issue_request-IsSound :
      (body : Option RewardDistributionRequest)
      → IsSoundIn (process_voucher_issue_request body env w).1
  process_voucher_issue_request-IsSound body = (Keeps-process_request kept body).at env w sound
