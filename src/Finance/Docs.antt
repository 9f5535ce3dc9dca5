-- ===== src/Finance/Docs.antt =====
-- server/service/finance_doc.go and budget_helper.go
use reward_mservice.Common.{
  ℕ, Bool, true, false, not, ◌||◌, Option, none, some, List, [], ◌∷◌, ◌++◌, map, Text, codes,
  eq_text, trim_space, to_upper, is_empty, if◌then◌else◌,
}
use reward_mservice.Errs.{
  app, wrap, invalid_request, internal_error, project_not_found, finance_doc_not_found,
  finance_doc_project_exists, invalid_pay_address, duplicate_budget_pair, invalid_status_transition,
}
use reward_mservice.Model.{
  Project, FinanceDoc, ApplicationDetailItem, DocStatus, PaymentConfig, is_doc_status, is_positive,
}
use reward_mservice.World.{ok, M, pure, throw_if, require, or_else, ◌>>=◌, ◌>>◌}
use reward_mservice.Kafka.Producer.{publish_finance_doc_approved}
use reward_mservice.Dao
use reward_mservice.Util.{is_one_of, current_user_id_string}

-- `budgetItem`
pub record BudgetItem : Type 0 where
  pub voucher_type : Text
  pub unit : Text
  pub amount : Text

-- fmt.Sprintf("%s:%s", …), the key of a budget pair.
abbrev pub pair_key : PaymentConfig → Text
pair_key cfg = cfg.voucher_type ++ codes ":" ++ cfg.unit

-- The loop of `resolveBudgetItems`, with the keys seen before.
unfoldable pub resolve_items : List Text → List ApplicationDetailItem → M (List BudgetItem)
resolve_items seen [] = pure []
resolve_items seen (item ∷ items) = do
  throw_if (is_empty (trim_space item.pay_address) || is_empty (trim_space item.amount))
      (app invalid_request)
  found ←
      or_else (Dao.Finance.get_by_pay_address (trim_space item.pay_address)) (wrap internal_error)
  cfg ← require found (app invalid_pay_address)
  throw_if (is_one_of (pair_key cfg) seen) (app duplicate_budget_pair)
  rest ← resolve_items (pair_key cfg ∷ seen) items
  pure (
      record { voucher_type = cfg.voucher_type; unit = cfg.unit; amount = trim_space item.amount }
      ∷ rest)

abbrev pub is_nil : {A : Type 0} → List A → Bool
is_nil [] = true
is_nil (x ∷ xs) = false

unfoldable pub resolve_budget_items : List ApplicationDetailItem → M (List BudgetItem)
resolve_budget_items detail = do
  throw_if (is_nil detail) (app invalid_request)
  resolve_items [] detail

abbrev trimmed : ApplicationDetailItem → ApplicationDetailItem
trimmed item = record { pay_address = trim_space item.pay_address; amount = trim_space item.amount }

unfoldable pub to_application_detail_items : List ApplicationDetailItem → List ApplicationDetailItem
to_application_detail_items detail = map trimmed detail

pub record CreateFinanceDocRequest : Type 0 where
  pub project_id : ℕ
  pub description : Text
  pub application_detail : List ApplicationDetailItem

pub record UpdateFinanceDocContentRequest : Type 0 where
  pub description : Text
  pub application_detail : List ApplicationDetailItem

-- The body of an update of the status and of an approval.
pub record UpdateFinanceDocRequest : Type 0 where
  pub status : Text
  pub remark : Text

-- `generateDocID`
unfoldable pub generate_doc_id : M Text
generate_doc_id env w = (ok (env.uuid w.calls), w)

unfoldable pub create_finance_doc : Option CreateFinanceDocRequest → M Text
create_finance_doc body = do
  req ← require body (app invalid_request)
  throw_if (not (is_positive req.project_id)) (app invalid_request)
  throw_if (is_nil req.application_detail) (app invalid_request)
  project ← or_else (Dao.Finance.get_project_by_id req.project_id) (wrap internal_error)
  require project (app project_not_found)
  exists ← or_else (Dao.Finance.exists_by_project_id req.project_id) (wrap internal_error)
  throw_if exists (app finance_doc_project_exists)
  let detail = to_application_detail_items req.application_detail
  resolve_budget_items detail
  creator ← current_user_id_string
  doc_id ← generate_doc_id
  or_else
      (Dao.Finance.create_doc (record {
        doc_id = doc_id;
        project_id = req.project_id;
        description = trim_space req.description;
        application_detail = detail;
        creator = creator;
        status = DocStatus.draft;
        remark = codes "";
      }))
      (wrap internal_error)
  pure doc_id

-- `toFinanceDocVO`: the doc with its project.
unfoldable pub to_finance_doc_vo : FinanceDoc → M (FinanceDoc × Project)
to_finance_doc_vo doc = do
  found ← or_else (Dao.Finance.get_project_by_id doc.project_id) (wrap internal_error)
  project ← require found (app project_not_found)
  pure (doc, project)

-- The doc with an id that is not empty.
unfoldable pub load_doc : Text → M FinanceDoc
load_doc doc_id = do
  found ← or_else (Dao.Finance.get_by_doc_id doc_id) (wrap internal_error)
  require found (app finance_doc_not_found)

unfoldable pub get_finance_doc_detail : Text → M (FinanceDoc × Project)
get_finance_doc_detail raw = do
  let doc_id = trim_space raw
  throw_if (is_empty doc_id) (app invalid_request)
  doc ← load_doc doc_id
  to_finance_doc_vo doc

-- `validateFinanceDocEditable` allows an update.
unfoldable pub is_editable : DocStatus → Bool
is_editable DocStatus.draft = true
is_editable DocStatus.rejected = true
is_editable _ = false

unfoldable pub update_finance_doc :
    Text → Option UpdateFinanceDocContentRequest → M (FinanceDoc × Project)
update_finance_doc raw body = do
  let doc_id = trim_space raw
  throw_if (is_empty doc_id) (app invalid_request)
  req ← require body (app invalid_request)
  throw_if (is_nil req.application_detail) (app invalid_request)
  doc ← load_doc doc_id
  throw_if (not (is_editable doc.status)) (app invalid_status_transition)
  let detail = to_application_detail_items req.application_detail
  resolve_budget_items detail
  let description = trim_space req.description
  or_else (Dao.Finance.update_content doc_id description detail) (wrap internal_error)
  to_finance_doc_vo (Dao.Finance.set_content description detail doc)

-- The targets of `validateFinanceDocTransition`, after ToUpper and TrimSpace; `none` is any other
-- text.
unfoldable pub read_doc_status : Text → Option DocStatus
read_doc_status raw =
    let s = to_upper (trim_space raw) in
    if eq_text s (codes "TO_APPROVE")
    then some DocStatus.to_approve
    else if eq_text s (codes "APPROVED")
    then some DocStatus.approved
    else if eq_text s (codes "REJECTED")
    then some DocStatus.rejected
    else none

-- `validateFinanceDocTransition` allows the step.
unfoldable pub is_doc_transition : DocStatus → DocStatus → Bool
is_doc_transition DocStatus.draft DocStatus.to_approve = true
is_doc_transition DocStatus.rejected DocStatus.to_approve = true
is_doc_transition DocStatus.to_approve DocStatus.approved = true
is_doc_transition DocStatus.to_approve DocStatus.rejected = true
is_doc_transition _ _ = false

pub record UpdateFinanceDocResponse : Type 0 where
  pub doc_id : Text
  pub status : DocStatus
  pub remark : Text

unfoldable pub update_finance_doc_status :
    Text → Option UpdateFinanceDocRequest → M UpdateFinanceDocResponse
update_finance_doc_status raw body = do
  let doc_id = trim_space raw
  throw_if (is_empty doc_id) (app invalid_request)
  req ← require body (app invalid_request)
  throw_if (is_empty (trim_space req.status)) (app invalid_request)
  doc ← load_doc doc_id
  target ← require (read_doc_status req.status) (app invalid_status_transition)
  throw_if (not (is_doc_transition doc.status target)) (app invalid_status_transition)
  let remark = trim_space req.remark
  or_else (Dao.Finance.update_doc_status doc_id target remark) (wrap internal_error)
  pure (record { doc_id = doc_id; status = target; remark = remark })

-- The event for the doc as it is after its approval.
unfoldable pub publish_approved : Text → M (Unit {0})
publish_approved doc_id = do
  doc ← load_doc doc_id
  or_else (publish_finance_doc_approved doc.doc_id doc.project_id) (wrap internal_error)

abbrev pub publish_if_approved : UpdateFinanceDocResponse → M (Unit {0})
publish_if_approved response env w =
    if is_doc_status response.status DocStatus.approved
    then publish_approved response.doc_id env w
    else (ok tt, w)

unfoldable pub approve_finance_doc :
    Text → Option UpdateFinanceDocRequest → M UpdateFinanceDocResponse
approve_finance_doc raw body = do
  req ← require body (app invalid_request)
  throw_if (is_empty (trim_space req.status)) (app invalid_request)
  response ← update_finance_doc_status raw (some req)
  publish_if_approved response
  pure response
