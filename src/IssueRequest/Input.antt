-- ===== src/IssueRequest/Input.antt =====
-- server/service/issue_request.go: what a request is checked for before the database is written.
use reward_mservice.Common.{
  ℤ, Bool, true, false, not, Option, none, some, Text, codes, eq_text, trim_space, to_upper,
  is_empty, if◌then◌else◌,
}
use reward_mservice.Errs.{
  Err, app, invalid_request, internal_error, insufficient_available, insufficient_withhold,
  invalid_status_transition, driver,
}
use reward_mservice.Amount.{Amount, decimal, text, Cmp, less, parse_amount, cmp_amount}
use reward_mservice.Model.{RequestStatus, ExpenseType}
use reward_mservice.Util.{validate_voucher_type, validate_unit}
use reward_mservice.World.{ok, err, M, pure, asks, require, ◌>>=◌, ◌>>◌, throw_if}

pub record IssueRequestInput : Type 0 where
  pub voucher_type : Text
  pub unit : Text
  pub amount : Amount

-- The `switch` on expense_type, after ToUpper and TrimSpace.
unfoldable pub read_expense_type : Text → Option ExpenseType
read_expense_type raw =
    let s = to_upper (trim_space raw) in
    if eq_text s (codes "REFUND")
    then some ExpenseType.refund
    else if eq_text s (codes "REWARD")
    then some ExpenseType.reward
    else if eq_text s (codes "OTHERS")
    then some ExpenseType.others
    else none

unfoldable pub parse_issue_request_update : Text → Text → Text → M IssueRequestInput
parse_issue_request_update voucher_type unit amount = do
  voucher ← require (validate_voucher_type voucher_type) (app invalid_request)
  u ← require (validate_unit unit) (app invalid_request)
  let value = trim_space amount
  throw_if (is_empty value) (app invalid_request)
  set_string ← asks (λ env. env.set_string)
  require (parse_amount set_string (text value)) (app invalid_request)
  pure (record { voucher_type = voucher; unit = u; amount = text value })

unfoldable pub parse_issue_request_input :
    Text → Text → Text → Text → M (IssueRequestInput × ExpenseType)
parse_issue_request_input voucher_type unit amount expense_type = do
  parsed ← parse_issue_request_update voucher_type unit amount
  expense ← require (read_expense_type expense_type) (app invalid_request)
  pure (parsed, expense)

-- The statuses that a client may name, after ToUpper and TrimSpace; `none` is any other text.
unfoldable pub read_request_status : Text → Option RequestStatus
read_request_status raw =
    let s = to_upper (trim_space raw) in
    if eq_text s (codes "TO_APPROVE")
    then some RequestStatus.to_approve
    else if eq_text s (codes "APPROVED")
    then some RequestStatus.approved
    else if eq_text s (codes "REJECTED")
    then some RequestStatus.rejected
    else none

-- `validateIssueRequestTransition` allows the step.
unfoldable pub is_transition : RequestStatus → RequestStatus → Bool
is_transition RequestStatus.draft RequestStatus.to_approve = true
is_transition RequestStatus.rejected RequestStatus.to_approve = true
is_transition RequestStatus.to_approve RequestStatus.approved = true
is_transition RequestStatus.to_approve RequestStatus.rejected = true
is_transition _ _ = false

unfoldable pub validate_issue_request_transition : RequestStatus → RequestStatus → M (Unit {0})
unfolding is_transition
validate_issue_request_transition current target =
    throw_if (not (is_transition current target)) (app invalid_status_transition)

abbrev pub at_least : Option Cmp → Err → M (Unit {0})
at_least o e env w =
    (elim o [ none ↦ err (app internal_error) | some less ↦ err e | some _ ↦ ok tt ], w)

-- `ensureAvailableGTE` and `ensureWithholdGTE`: the column, the amount, and the error if it is less.
ensure_gte : Err → ℤ → Amount → M (Unit {0})
ensure_gte e column amount = do
  set_string ← asks (λ env. env.set_string)
  at_least (cmp_amount set_string (decimal column) amount) e

unfoldable pub ensure_available_gte : ℤ → Amount → M (Unit {0})
unfolding ensure_gte
ensure_available_gte = ensure_gte (app insufficient_available)

unfoldable pub ensure_withhold_gte : ℤ → Amount → M (Unit {0})
unfolding ensure_gte
ensure_withhold_gte = ensure_gte (app insufficient_withhold)

-- What the database stores for an amount.
unfoldable pub to_column : Amount → M ℤ
to_column (decimal d) = pure d
to_column (text s) = do stored ← asks (λ env. env.column s); require stored driver
