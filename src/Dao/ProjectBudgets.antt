-- ===== src/Dao/ProjectBudgets.antt =====
-- server/repository/dao/project_budget_dao.go
use reward_mservice.Common.{
  ℕ, ◌+◌, ◌==◌, length, false, ◌||◌, ℤ, ◌+ℤ◌, ◌-ℤ◌, leb_ℤ, Bool, ◌&&◌, Option, List, [], ◌∷◌, ◌++◌,
  Text, eq_text, find, select, not,
}
use reward_mservice.Errs.{budget_already_exists, budget_insufficient}
use reward_mservice.Model.{ProjectBudget}
use reward_mservice.World.{
  Tables, M, pure, duplicate_key, query, execute, execute_if, new_ids, ◌>>=◌,
}
use reward_mservice.Sql.{update, has}

abbrev pub has_id : ℕ → ProjectBudget → Bool
has_id i b = b.id == i

-- project_id = ? AND voucher_type = ? AND unit = ?
abbrev pub is_for : ℕ → Text → Text → ProjectBudget → Bool
is_for project voucher unit b =
    b.project_id == project && (eq_text b.voucher_type voucher && eq_text b.unit unit)

-- finance_doc_id = ? AND voucher_type = ? AND unit = ?
abbrev pub is_for_doc : Text → Text → Text → ProjectBudget → Bool
is_for_doc doc voucher unit b =
    eq_text b.finance_doc_id doc && (eq_text b.voucher_type voucher && eq_text b.unit unit)

unfoldable pub get_by_project_id_voucher_type_unit : ℕ → Text → Text → M (Option ProjectBudget)
get_by_project_id_voucher_type_unit project voucher unit =
    query (λ t. find (is_for project voucher unit) t.project_budgets)

unfoldable pub get_by_doc_id_voucher_type_unit : Text → Text → Text → M (Option ProjectBudget)
get_by_doc_id_voucher_type_unit doc voucher unit =
    query (λ t. find (is_for_doc doc voucher unit) t.project_budgets)

unfoldable pub list_by_finance_doc_id : Text → M (List ProjectBudget)
list_by_finance_doc_id doc =
    query (λ t. select (λ b. eq_text b.finance_doc_id doc) t.project_budgets)

unfoldable pub get_by_id : ℕ → M (Option ProjectBudget)
get_by_id i = query (λ t. find (has_id i) t.project_budgets)

-- The row lock has no other effect here: a transaction is one step.
unfoldable pub lock_by_id : ℕ → M (Option ProjectBudget)
lock_by_id i = query (λ t. find (has_id i) t.project_budgets)

abbrev pub on_budgets : (List ProjectBudget → List ProjectBudget) → Tables → Tables
on_budgets f t = record t { project_budgets = f t.project_budgets }

abbrev pub add_total_and_available : ℤ → ProjectBudget → ProjectBudget
add_total_and_available a b = record b {
  total_amount = b.total_amount +ℤ a;
  available_amount = b.available_amount +ℤ a;
}

unfoldable pub update_total_and_available_amount : ℕ → ℤ → M (Unit {0})
update_total_and_available_amount i a =
    execute (on_budgets (update (has_id i) (add_total_and_available a)))

abbrev pub withhold : ℤ → ProjectBudget → ProjectBudget
withhold a b = record b {
  available_amount = b.available_amount -ℤ a;
  withhold_amount = b.withhold_amount +ℤ a;
}

unfoldable pub apply_submit_withhold : ℕ → ℤ → M (Unit {0})
apply_submit_withhold i a = execute (on_budgets (update (has_id i) (withhold a)))

abbrev pub issue_withheld : ℤ → ProjectBudget → ProjectBudget
issue_withheld a b = record b {
  issued_amount = b.issued_amount +ℤ a;
  withhold_amount = b.withhold_amount -ℤ a;
}

unfoldable pub apply_approve_issued : ℕ → ℤ → M (Unit {0})
apply_approve_issued i a = execute (on_budgets (update (has_id i) (issue_withheld a)))

abbrev pub release_withheld : ℤ → ProjectBudget → ProjectBudget
release_withheld a b = record b {
  available_amount = b.available_amount +ℤ a;
  withhold_amount = b.withhold_amount -ℤ a;
}

unfoldable pub apply_reject_release : ℕ → ℤ → M (Unit {0})
apply_reject_release i a = execute (on_budgets (update (has_id i) (release_withheld a)))

-- id = ? and available_amount >= ?
abbrev pub has_id_and_available : ℕ → ℤ → ProjectBudget → Bool
has_id_and_available i a b = b.id == i && leb_ℤ a b.available_amount

abbrev pub deduct_available : ℤ → ProjectBudget → ProjectBudget
deduct_available a b = record b { available_amount = b.available_amount -ℤ a }

unfoldable pub apply_distribution_deduct_available : ℕ → ℤ → M (Unit {0})
apply_distribution_deduct_available i a =
    execute_if (λ t. has (has_id_and_available i a) t.project_budgets) budget_insufficient
      (on_budgets (update (has_id_and_available i a) (deduct_available a)))

abbrev pub add_issued : ℤ → ProjectBudget → ProjectBudget
add_issued a b = record b { issued_amount = b.issued_amount +ℤ a }

unfoldable pub apply_distribution_issued : ℕ → ℤ → M (Unit {0})
apply_distribution_issued i a = execute (on_budgets (update (has_id i) (add_issued a)))

abbrev pub add_refund : ℤ → ProjectBudget → ProjectBudget
add_refund a b = record b { refund_amount = b.refund_amount +ℤ a }

unfoldable pub apply_distribution_refund : ℕ → ℤ → M (Unit {0})
apply_distribution_refund i a = execute (on_budgets (update (has_id i) (add_refund a)))

-- The unique keys (finance_doc_id, voucher_type, unit) and (project_id, voucher_type, unit).
abbrev clashes : ProjectBudget → ProjectBudget → Bool
clashes b c =
    is_for_doc b.finance_doc_id b.voucher_type b.unit c
    || is_for b.project_id b.voucher_type b.unit c

-- Whether the rows of one INSERT clash with `old` or with one another.
unfoldable pub any_clash : List ProjectBudget → List ProjectBudget → Bool
any_clash [] old = false
any_clash (b ∷ bs) old = has (clashes b) old || any_clash bs (old ++ b ∷ [])

-- The rows of one INSERT take consecutive ids.
unfoldable pub number_from : ℕ → List ProjectBudget → List ProjectBudget
number_from n [] = []
number_from n (b ∷ bs) = record b { id = n } ∷ number_from (n + 1) bs

unfoldable pub batch_create : List ProjectBudget → M (Unit {0})
batch_create [] = pure tt
batch_create (b ∷ bs) = do
  e ← duplicate_key budget_already_exists
  n ← new_ids (length (b ∷ bs))
  execute_if (λ t. not (any_clash (b ∷ bs) t.project_budgets)) e
      (on_budgets (λ old. old ++ number_from n (b ∷ bs)))

unfoldable pub count_by_finance_doc_id : Text → M ℕ
count_by_finance_doc_id doc =
    query (λ t. length (select (λ b. eq_text b.finance_doc_id doc) t.project_budgets))

-- available_amount >= ?
unfoldable pub has_available_for_distribution : ℕ → Text → Text → ℤ → M Bool
has_available_for_distribution project voucher unit a =
    query (λ t.
      has (λ b. is_for project voucher unit b && leb_ℤ a b.available_amount) t.project_budgets)
