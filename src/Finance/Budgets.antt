-- ===== src/Finance/Budgets.antt =====
-- server/service/project_budget.go: the budgets of an approved finance doc.
use reward_mservice.Common.{ℕ, pos, not, List, map, Text, trim_space, is_empty}
use reward_mservice.Errs.{
  Err, app, wrap, invalid_request, internal_error, invalid_status_transition, budget_already_exists,
}
use reward_mservice.Model.{ProjectBudget, DocStatus, is_doc_status}
use reward_mservice.World.{M, pure, throw, throw_if, rescue, transaction, ◌>>=◌, ◌>>◌}
use reward_mservice.Dao
use reward_mservice.Finance.Docs.{BudgetItem, load_doc, resolve_budget_items}

abbrev pub new_project_budget : Text → ℕ → BudgetItem → ProjectBudget
new_project_budget doc_id project_id item = record {
  id = 0;
  finance_doc_id = doc_id;
  project_id = project_id;
  voucher_type = item.voucher_type;
  unit = item.unit;
  total_amount = pos 0;
  available_amount = pos 0;
  withhold_amount = pos 0;
  issued_amount = pos 0;
  refund_amount = pos 0;
}

-- `toProjectBudgets`
unfoldable pub to_project_budgets : Text → ℕ → List BudgetItem → List ProjectBudget
to_project_budgets doc_id project_id items = map (new_project_budget doc_id project_id) items

-- Budgets that exist already are no error.
abbrev pub skip_existing : Err → M (Unit {0})
skip_existing budget_already_exists = pure tt
skip_existing e = throw (wrap internal_error e)

unfoldable pub init_from_approved_doc : Text → M (Unit {0})
init_from_approved_doc raw = do
  let doc_id = trim_space raw
  throw_if (is_empty doc_id) (app invalid_request)
  doc ← load_doc doc_id
  throw_if (not (is_doc_status doc.status DocStatus.approved)) (app invalid_status_transition)
  items ← resolve_budget_items doc.application_detail
  rescue
      (transaction
        (Dao.ProjectBudgets.batch_create (to_project_budgets doc_id doc.project_id items)))
      skip_existing
