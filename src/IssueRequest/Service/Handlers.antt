-- ===== src/IssueRequest/Service/Handlers.antt =====
-- server/service/issue_request.go: the methods of `IssueRequestService`, but for the list.
use reward_mservice.Common.{
  ℕ, ◌==◌, Bool, true, false, not, ◌||◌, Option, none, some, Text, trim_space, is_empty,
  if◌then◌else◌,
}
use reward_mservice.Errs.{
  app, wrap, invalid_request, internal_error, invalid_status_transition, finance_doc_not_found,
  finance_doc_not_approved, issue_request_not_found, project_budget_not_found,
}
use reward_mservice.Amount.{Amount, decimal}
use reward_mservice.Model.{
  FinanceDoc, DocStatus, IssueRequest, RequestStatus, is_request_status, is_doc_status,
}
use reward_mservice.Util.{current_user_id_string}
use reward_mservice.World.{ok, M, pure, require, throw_if, or_else, transaction, ◌>>=◌, ◌>>◌}
use reward_mservice.Kafka.Producer.{publish_issue_request_updated}
use reward_mservice.Dao
use reward_mservice.IssueRequest.Input.{
  parse_issue_request_update, parse_issue_request_input, read_request_status,
  validate_issue_request_transition, ensure_available_gte, ensure_withhold_gte, to_column,
}
use reward_mservice.IssueRequest.Service.Tx.{
  submit_issue_request_in_tx, approve_issue_request_in_tx, reject_issue_request_in_tx,
  init_issue_budget_in_tx,
}

pub record CreateRequest : Type 0 where
  pub voucher_type : Text
  pub unit : Text
  pub amount : Text
  pub expense_type : Text
  pub remark : Text

-- The body of an update, without the expense type.
pub record UpdateRequest : Type 0 where
  pub voucher_type : Text
  pub unit : Text
  pub amount : Text
  pub remark : Text

-- The body of a submit and of an approval.
pub record StatusRequest : Type 0 where
  pub status : Text
  pub remark : Text

-- `IssueRequestVO`, with the amount as the client wrote it.
pub record IssueRequestVo : Type 0 where
  pub request : IssueRequest
  pub amount : Amount

pub record StatusResponse : Type 0 where
  pub id : ℕ
  pub request_status : RequestStatus
  pub remark : Text

-- `loadApprovedDoc`
unfoldable pub load_approved_doc : Text → M FinanceDoc
load_approved_doc raw = do
  let doc_id = trim_space raw
  throw_if (is_empty doc_id) (app invalid_request)
  found ← or_else (Dao.Finance.get_by_doc_id doc_id) (wrap internal_error)
  doc ← require found (app finance_doc_not_found)
  throw_if (not (is_doc_status doc.status DocStatus.approved)) (app finance_doc_not_approved)
  pure doc

-- `loadIssueRequestForDoc`
unfoldable pub load_issue_request_for_doc : Text → ℕ → M (FinanceDoc × IssueRequest)
load_issue_request_for_doc doc_id id = do
  doc ← load_approved_doc doc_id
  found ← or_else (Dao.IssueRequests.get_by_id id) (wrap internal_error)
  request ← require found (app issue_request_not_found)
  throw_if (not (request.project_id == doc.project_id)) (app issue_request_not_found)
  pure (doc, request)

-- `loadEditableIssueRequest`
unfoldable pub load_editable_issue_request : Text → ℕ → M (FinanceDoc × IssueRequest)
load_editable_issue_request doc_id id = do
  loaded ← load_issue_request_for_doc doc_id id
  throw_if
      (not (
        is_request_status loaded.1.request_status RequestStatus.draft
        || is_request_status loaded.1.request_status RequestStatus.rejected))
      (app invalid_status_transition)
  pure loaded

-- `ensureAvailableAmount`
unfoldable pub ensure_available_amount : ℕ → Text → Text → Amount → M (Unit {0})
ensure_available_amount project voucher unit amount = do
  found ←
      or_else (Dao.ProjectBudgets.get_by_project_id_voucher_type_unit project voucher unit)
        (wrap internal_error)
  budget ← require found (app project_budget_not_found)
  ensure_available_gte budget.available_amount amount

-- `ensureWithholdAmount`
unfoldable pub ensure_withhold_amount : IssueRequest → M (Unit {0})
ensure_withhold_amount r = do
  found ←
      or_else
        (Dao.ProjectBudgets.get_by_project_id_voucher_type_unit r.project_id r.voucher_type r.unit)
        (wrap internal_error)
  budget ← require found (app project_budget_not_found)
  ensure_withhold_gte budget.withhold_amount (decimal r.amount)

unfoldable pub create_issue_request : Text → Option CreateRequest → M IssueRequestVo
create_issue_request doc_id body = do
  doc ← load_approved_doc doc_id
  req ← require body (app invalid_request)
  parsed ← parse_issue_request_input req.voucher_type req.unit req.amount req.expense_type
  ensure_available_amount doc.project_id parsed.0.voucher_type parsed.0.unit parsed.0.amount
  creator ← current_user_id_string
  stored ← or_else (to_column parsed.0.amount) (wrap internal_error)
  request ←
      or_else
        (Dao.IssueRequests.create (record {
          id = 0;
          project_id = doc.project_id;
          voucher_type = parsed.0.voucher_type;
          unit = parsed.0.unit;
          amount = stored;
          request_status = RequestStatus.draft;
          expense_type = parsed.1;
          creator = creator;
          remark = trim_space req.remark;
        }))
        (wrap internal_error)
  pure (record { request = request; amount = parsed.0.amount })

unfoldable pub update_issue_request : Text → ℕ → Option UpdateRequest → M IssueRequestVo
update_issue_request doc_id id body = do
  loaded ← load_editable_issue_request doc_id id
  req ← require body (app invalid_request)
  input ← parse_issue_request_update req.voucher_type req.unit req.amount
  ensure_available_amount loaded.0.project_id input.voucher_type input.unit input.amount
  let remark = trim_space req.remark
  stored ← or_else (to_column input.amount) (wrap internal_error)
  or_else (Dao.IssueRequests.update_fields loaded.1.id input.voucher_type input.unit stored remark)
      (wrap internal_error)
  pure (record {
    request = Dao.IssueRequests.set_fields input.voucher_type input.unit stored remark loaded.1;
    amount = input.amount;
  })

abbrev pub is_to_approve : Option RequestStatus → Bool
is_to_approve (some RequestStatus.to_approve) = true
is_to_approve _ = false

unfoldable pub submit_issue_request : Text → ℕ → Option StatusRequest → M StatusResponse
submit_issue_request doc_id id body = do
  loaded ← load_issue_request_for_doc doc_id id
  req ← require body (app invalid_request)
  throw_if (not (is_to_approve (read_request_status req.status))) (app invalid_request)
  validate_issue_request_transition loaded.1.request_status RequestStatus.to_approve
  ensure_available_amount loaded.0.project_id loaded.1.voucher_type loaded.1.unit
      (decimal loaded.1.amount)
  let remark = trim_space req.remark
  or_else (transaction (submit_issue_request_in_tx loaded.1.id remark)) (wrap internal_error)
  pure (record { id = loaded.1.id; request_status = RequestStatus.to_approve; remark = remark })

-- APPROVED and REJECTED alone are targets of an approval.
abbrev pub approval_target : Option RequestStatus → Option RequestStatus
approval_target (some RequestStatus.approved) = some RequestStatus.approved
approval_target (some RequestStatus.rejected) = some RequestStatus.rejected
approval_target _ = none

-- `validateApproveIssueRequest`
unfoldable pub validate_approve_issue_request :
    IssueRequest → Option StatusRequest → M (RequestStatus × Text)
validate_approve_issue_request request body = do
  req ← require body (app invalid_request)
  target ← require (approval_target (read_request_status req.status)) (app invalid_request)
  validate_issue_request_transition request.request_status target
  pure (target, trim_space req.remark)

-- `approveIssueRequest`: the event is sent once the transaction has been committed.
unfoldable pub approve_and_publish : IssueRequest → Text → M (Unit {0})
approve_and_publish request remark = do
  ensure_withhold_amount request
  transaction (approve_issue_request_in_tx request.id remark)
  or_else (publish_issue_request_updated request.id) (wrap internal_error)

-- `applyIssueRequestApproval`
abbrev pub apply_issue_request_approval : IssueRequest → RequestStatus → Text → M (Unit {0})
apply_issue_request_approval request RequestStatus.approved remark =
    approve_and_publish request remark
apply_issue_request_approval request _ remark =
    transaction (reject_issue_request_in_tx request.id remark)

unfoldable pub approve_issue_request : Text → ℕ → Option StatusRequest → M StatusResponse
approve_issue_request doc_id id body = do
  loaded ← load_issue_request_for_doc doc_id id
  target ← validate_approve_issue_request loaded.1 body
  apply_issue_request_approval loaded.1 target.0 target.1
  pure (record { id = loaded.1.id; request_status = target.0; remark = target.1 })

abbrev pub process_status : IssueRequest → M (Unit {0})
process_status r env w =
    if is_request_status r.request_status RequestStatus.approved
    then transaction (init_issue_budget_in_tx r.id) env w
    else (ok tt, w)

-- `ProcessKafkaEvent`: ONGOING, and any status but APPROVED, is skipped.
unfoldable pub process_kafka_event : ℕ → M (Unit {0})
process_kafka_event id = do
  found ← or_else (Dao.IssueRequests.get_by_id id) (wrap internal_error)
  request ← require found (app issue_request_not_found)
  process_status request
