-- ===== src/Finance/Payment.antt =====
-- server/service/finance_payment.go
use reward_mservice.Common.{
  ℕ, ℤ, pos, Bool, true, false, not, ◌||◌, Option, none, some, List, [], ◌∷◌, Text, eq_text,
  trim_space, is_empty, if◌then◌else◌,
}
use reward_mservice.Errs.{
  app, wrap, invalid_request, internal_error, finance_doc_not_found, finance_doc_not_approved,
  invalid_pay_address, project_budget_not_found, payment_exceeds_doc_amount,
  finance_payment_not_found,
}
use reward_mservice.Amount.{
  decimal, text, Cmp, greater, less, same, parse_amount, add_amount, cmp_amount,
}
use reward_mservice.Model.{
  FinanceDoc, ApplicationDetailItem, DocStatus, PaymentStatus, FinancePayment, ProjectBudget,
  is_doc_status,
}
use reward_mservice.World.{ok, M, pure, asks, require, throw_if, or_else, transaction, ◌>>=◌, ◌>>◌}
use reward_mservice.Dao
use reward_mservice.IssueRequest.Input.{to_column}

pub record CreateFinancePaymentRequest : Type 0 where
  pub payment_address : Text
  pub unit : Text
  pub amount : Text

-- `createPaymentInput`; the voucher type and the unit that count are those of the payment config.
pub record CreatePaymentInput : Type 0 where
  pub doc_id : Text
  pub payment_address : Text
  pub unit : Text
  pub amount : Text

unfoldable pub parse_create_payment_input :
    Text → Option CreateFinancePaymentRequest → M CreatePaymentInput
parse_create_payment_input raw body = do
  let doc_id = trim_space raw
  throw_if (is_empty doc_id) (app invalid_request)
  req ← require body (app invalid_request)
  let address = trim_space req.payment_address
  let unit = trim_space req.unit
  let amount = trim_space req.amount
  throw_if (is_empty address || is_empty unit || is_empty amount) (app invalid_request)
  set_string ← asks (λ env. env.set_string)
  require (parse_amount set_string (text amount)) (app invalid_request)
  pure (record { doc_id = doc_id; payment_address = address; unit = unit; amount = amount })

-- `loadApprovedFinanceDoc`
unfoldable pub load_approved_finance_doc : Text → M FinanceDoc
load_approved_finance_doc doc_id = do
  found ← or_else (Dao.Finance.get_by_doc_id doc_id) (wrap internal_error)
  doc ← require found (app finance_doc_not_found)
  throw_if (not (is_doc_status doc.status DocStatus.approved)) (app finance_doc_not_approved)
  pure doc

-- `findApplicationDetailAmount`: the first item with the address, if its amount is not empty.
unfoldable pub find_application_detail_amount : List ApplicationDetailItem → Text → Option Text
find_application_detail_amount [] address = none
find_application_detail_amount (item ∷ items) address =
    let rest = find_application_detail_amount items address in
    let amount = trim_space item.amount in
    if eq_text (trim_space item.pay_address) address
    then if is_empty amount then none else some amount
    else rest

abbrev pub is_greater : Cmp → Bool
is_greater greater = true
is_greater less = false
is_greater same = false

-- `validatePaymentBudgetAmount`: the budget's total with the payment is not above the doc's amount.
unfoldable pub validate_payment_budget_amount : ProjectBudget → Text → Text → M (Unit {0})
validate_payment_budget_amount budget amount doc_amount = do
  set_string ← asks (λ env. env.set_string)
  next ←
      require (add_amount set_string (decimal budget.total_amount) (text amount))
        (app invalid_request)
  c ← require (cmp_amount set_string next (text doc_amount)) (app internal_error)
  throw_if (is_greater c) (app payment_exceeds_doc_amount)

-- `newFinancePayment`, with the amount as it is stored.
abbrev pub new_finance_payment : CreatePaymentInput → Text → ℤ → FinancePayment
new_finance_payment input payment_id amount = record {
  finance_doc_id = input.doc_id;
  payment_id = payment_id;
  payment_address = input.payment_address;
  amount = amount;
  payment_status = PaymentStatus.paid;
  offsetted_amount = pos 0;
  offsetting_amount = pos 0;
  refunded_amount = pos 0;
  refunding_amount = pos 0;
}

-- `createFinancePaymentInTx`
unfoldable pub create_finance_payment_in_tx :
    CreatePaymentInput → Text → ℕ → Text → M FinancePayment
create_finance_payment_in_tx input payment_id budget_id doc_amount = do
  found ← Dao.ProjectBudgets.lock_by_id budget_id
  locked ← require found (app project_budget_not_found)
  validate_payment_budget_amount locked input.amount doc_amount
  stored ← to_column (text input.amount)
  let payment = new_finance_payment input payment_id stored
  Dao.Finance.create_payment payment
  Dao.ProjectBudgets.update_total_and_available_amount locked.id stored
  pure payment

-- `generatePaymentID`
unfoldable pub generate_payment_id : M Text
generate_payment_id env w = (ok (env.uuid w.calls), w)

unfoldable pub create_finance_payment : Text → Option CreateFinancePaymentRequest → M FinancePayment
create_finance_payment doc_id body = do
  input ← parse_create_payment_input doc_id body
  doc ← load_approved_finance_doc input.doc_id
  config_found ←
      or_else (Dao.Finance.get_by_pay_address input.payment_address) (wrap internal_error)
  config ← require config_found (app invalid_pay_address)
  doc_amount ←
      require (find_application_detail_amount doc.application_detail input.payment_address)
        (app invalid_request)
  budget_found ←
      or_else
        (Dao.ProjectBudgets.get_by_doc_id_voucher_type_unit input.doc_id config.voucher_type
          config.unit)
        (wrap internal_error)
  budget ← require budget_found (app project_budget_not_found)
  validate_payment_budget_amount budget input.amount doc_amount
  payment_id ← generate_payment_id
  or_else (transaction (create_finance_payment_in_tx input payment_id budget.id doc_amount))
      (wrap internal_error)

-- `ensureFinanceDocExists`
unfoldable pub ensure_finance_doc_exists : Text → M (Unit {0})
ensure_finance_doc_exists doc_id = do
  found ← or_else (Dao.Finance.get_by_doc_id doc_id) (wrap internal_error)
  require found (app finance_doc_not_found)
  pure tt

unfoldable pub get_finance_payment : Text → Text → M FinancePayment
get_finance_payment raw_doc raw_payment = do
  let doc_id = trim_space raw_doc
  let payment_id = trim_space raw_payment
  throw_if (is_empty doc_id || is_empty payment_id) (app invalid_request)
  ensure_finance_doc_exists doc_id
  found ← or_else (Dao.Finance.get_by_payment_id_and_doc_id payment_id doc_id) (wrap internal_error)
  require found (app finance_payment_not_found)

unfoldable pub get_finance_payment_list_by_doc_id : Text → M (List FinancePayment)
get_finance_payment_list_by_doc_id raw = do
  let doc_id = trim_space raw
  throw_if (is_empty doc_id) (app invalid_request)
  ensure_finance_doc_exists doc_id
  or_else (Dao.Finance.list_by_doc_id doc_id) (wrap internal_error)
