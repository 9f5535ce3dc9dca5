-- ===== src/Errs.antt =====
-- server/errs/errcode.go, and the error values of the other packages. A message is kept only where
-- the program stores or publishes it; an `*errs.AppError` is its code.
use reward_mservice.Common.{ℕ, Bool, true, false}

pub data Code : Type 0 where
  invalid_request invalid_status_transition invalid_pay_address invalid_pagination : Code
  finance_doc_project_exists duplicate_budget_pair payment_exceeds_doc_amount : Code
  finance_doc_not_approved insufficient_available insufficient_withhold : Code
  duplicate_client_ref_id : Code
  project_not_found finance_doc_not_found project_budget_not_found : Code
  finance_payment_not_found issue_request_not_found template_not_found : Code
  internal_error : Code

-- The number of each code.
pub code_number : Code → ℕ
code_number invalid_request = 40001
code_number invalid_status_transition = 40002
code_number invalid_pay_address = 40003
code_number invalid_pagination = 40004
code_number finance_doc_project_exists = 40005
code_number duplicate_budget_pair = 40006
code_number payment_exceeds_doc_amount = 40007
code_number finance_doc_not_approved = 40008
code_number insufficient_available = 40009
code_number insufficient_withhold = 40010
code_number duplicate_client_ref_id = 40011
code_number project_not_found = 40401
code_number finance_doc_not_found = 40402
code_number project_budget_not_found = 40403
code_number finance_payment_not_found = 40404
code_number issue_request_not_found = 40405
code_number template_not_found = 40406
code_number internal_error = 50001

-- An `error` of the program. `driver` is any error of the database, the broker or a remote service,
-- or a producer's that refuses an event without an id;
-- `panic` is no error value but a nil dereference, which unwinds in the same way.
pub data Err : Type 0 where
  app : Code → Err
  invalid_amount_error : Err
  duplicate_client_ref_id_error budget_already_exists issue_budget_already_exists : Err
  budget_insufficient : Err
  distribution_deferred distribution_retry : Err
  driver panic : Err

-- `errs.Wrap`: an AppError keeps its own code.
abbrev pub wrap : Code → Err → Err
wrap c (app d) = app d
wrap c panic = panic
wrap c _ = app c

-- `isRewardRequestAlreadyCompleted`, `isTemplateStatusTransitionFailed`.
abbrev pub is_status_transition_error : Err → Bool
is_status_transition_error (app invalid_status_transition) = true
is_status_transition_error _ = false
