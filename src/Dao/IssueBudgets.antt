-- ===== src/Dao/IssueBudgets.antt =====
-- server/repository/dao/issue_budget_dao.go
use reward_mservice.Common.{
  ℕ, ◌==◌, ℤ, ◌+ℤ◌, ◌-ℤ◌, leb_ℤ, Bool, not, ◌&&◌, Option, List, [], ◌∷◌, ◌++◌, Text, eq_text, find,
}
use reward_mservice.Errs.{issue_budget_already_exists, budget_insufficient}
use reward_mservice.Model.{IssueBudget, IssueRequest, is_issue_budget_ongoing}
use reward_mservice.World.{Tables, M, duplicate_key, query, execute, execute_if, new_ids, ◌>>=◌}
use reward_mservice.Sql.{update, has}

abbrev pub has_id : ℕ → IssueBudget → Bool
has_id i b = b.id == i

abbrev pub has_issue_request_id : ℕ → IssueBudget → Bool
has_issue_request_id i b = b.issue_request_id == i

abbrev pub on_budgets : (List IssueBudget → List IssueBudget) → Tables → Tables
on_budgets f t = record t { issue_budgets = f t.issue_budgets }

-- The unique key is issue_request_id; the id is given by the database.
unfoldable pub create : IssueBudget → M (Unit {0})
create b = do
  e ← duplicate_key issue_budget_already_exists
  n ← new_ids 1
  execute_if (λ t. not (has (has_issue_request_id b.issue_request_id) t.issue_budgets)) e
      (on_budgets (λ old. old ++ (record b { id = n }) ∷ []))

unfoldable pub get_by_issue_request_id : ℕ → M (Option IssueBudget)
get_by_issue_request_id i = query (λ t. find (has_issue_request_id i) t.issue_budgets)

unfoldable pub get_by_id : ℕ → M (Option IssueBudget)
get_by_id i = query (λ t. find (has_id i) t.issue_budgets)

unfoldable pub lock_by_id : ℕ → M (Option IssueBudget)
lock_by_id i = query (λ t. find (has_id i) t.issue_budgets)

-- The JOIN with issue_requests and the WHERE.
abbrev pub is_available : List IssueRequest → ℕ → Text → Text → ℤ → IssueBudget → Bool
is_available requests project voucher unit a b =
    has (λ r. r.id == b.issue_request_id && r.project_id == project) requests
    && (eq_text b.voucher_type voucher && eq_text b.unit unit)
    && (is_issue_budget_ongoing b.status && leb_ℤ a b.available_amount)

unfoldable pub get_first_available_for_distribution : ℕ → Text → Text → ℤ → M (Option IssueBudget)
get_first_available_for_distribution project voucher unit a =
    query (λ t. find (is_available t.issue_requests project voucher unit a) t.issue_budgets)

-- id = ? and available_amount >= ?
abbrev pub has_id_and_available : ℕ → ℤ → IssueBudget → Bool
has_id_and_available i a b = b.id == i && leb_ℤ a b.available_amount

abbrev pub deduct_available : ℤ → IssueBudget → IssueBudget
deduct_available a b = record b { available_amount = b.available_amount -ℤ a }

unfoldable pub apply_distribution_deduct_available : ℕ → ℤ → M (Unit {0})
apply_distribution_deduct_available i a =
    execute_if (λ t. has (has_id_and_available i a) t.issue_budgets) budget_insufficient
      (on_budgets (update (has_id_and_available i a) (deduct_available a)))

abbrev pub add_issued : ℤ → IssueBudget → IssueBudget
add_issued a b = record b { issued_amount = b.issued_amount +ℤ a }

unfoldable pub apply_distribution_issued : ℕ → ℤ → M (Unit {0})
apply_distribution_issued i a = execute (on_budgets (update (has_id i) (add_issued a)))

abbrev pub add_refund : ℤ → IssueBudget → IssueBudget
add_refund a b = record b { refund_amount = b.refund_amount +ℤ a }

unfoldable pub apply_distribution_refund : ℕ → ℤ → M (Unit {0})
apply_distribution_refund i a = execute (on_budgets (update (has_id i) (add_refund a)))
