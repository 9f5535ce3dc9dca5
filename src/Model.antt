-- ===== src/Model.antt =====
-- The rows that the services keep: server/repository/model/*.go. Time stamps are left out: they are
-- only displayed and used to order lists. A JSON column is the value that it encodes. An id, a
-- Go int64, is its 64-bit pattern.
mod Status
pub use Status.*
use reward_mservice.Amount.{Rat, Amount}
use reward_mservice.Common.{ℕ, ◌^◌, ℤ, pos, ◌+ℤ◌, Bool, ◌&&◌, ltb, List, Option, Text, ◌≡◌}

-- `id > 0` for an int64.
abbrev pub is_positive : ℕ → Bool
is_positive n = ltb 0 n && ltb n 9223372036854775808

-- model/project.go
pub record Project : Type 0 where
  pub id : ℕ
  pub name : Text
  pub description : Text

-- model/payment_config.go
pub record PaymentConfig : Type 0 where
  pub id : ℕ
  pub pay_address : Text
  pub voucher_type : Text
  pub unit : Text
  pub payment_account : Text

-- model/finance_doc.go
pub record ApplicationDetailItem : Type 0 where
  pub pay_address : Text
  pub amount : Text

pub record FinanceDoc : Type 0 where
  pub doc_id : Text
  pub project_id : ℕ
  pub description : Text
  pub application_detail : List ApplicationDetailItem
  pub creator : Text
  pub status : DocStatus
  pub remark : Text

-- model/project_budget.go. The amounts are columns, in units of 10^-8.
pub record ProjectBudget : Type 0 where
  pub id : ℕ
  pub finance_doc_id : Text
  pub project_id : ℕ
  pub voucher_type : Text
  pub unit : Text
  pub total_amount : ℤ
  pub available_amount : ℤ
  pub withhold_amount : ℤ
  pub issued_amount : ℤ
  pub refund_amount : ℤ

-- model/finance_payment.go
pub record FinancePayment : Type 0 where
  pub finance_doc_id : Text
  pub payment_id : Text
  pub payment_address : Text
  pub amount : ℤ
  pub payment_status : PaymentStatus
  pub offsetted_amount : ℤ
  pub offsetting_amount : ℤ
  pub refunded_amount : ℤ
  pub refunding_amount : ℤ

-- model/template.go. The Config column is JSON, kept as what `json.Unmarshal` makes of it for each
-- of the two configurations; `rate`, a float64, is its exact value.
pub record FixTemplateConfig : Type 0 where
  pub amount : Amount

pub record DynamicTemplateConfig : Type 0 where
  pub base_metric : Text
  pub rate : Rat
  pub cap : Amount

-- http/data/template.go: the dynamic config of a request.
pub record DynamicTemplateConfigVo : Type 0 where
  pub base_metric : Text
  pub rate : Rat
  pub cap : Text

pub data TemplateType : Type 0 where
  fixed dynamic unknown_type : TemplateType

pub data TemplateStatus : Type 0 where
  draft published : TemplateStatus

pub record TemplateConfig : Type 0 where
  pub as_fixed : Option FixTemplateConfig
  pub as_dynamic : Option DynamicTemplateConfig

pub record Template : Type 0 where
  pub id : ℕ
  pub title : Text
  pub voucher_type : Text
  pub unit : Text
  pub template_type : TemplateType
  pub config : TemplateConfig
  pub status : TemplateStatus

-- model/issue_request.go
pub record IssueRequest : Type 0 where
  pub id : ℕ
  pub project_id : ℕ
  pub voucher_type : Text
  pub unit : Text
  pub amount : ℤ
  pub request_status : RequestStatus
  pub expense_type : ExpenseType
  pub creator : Text
  pub remark : Text

-- model/issue_budget.go
pub record IssueBudget : Type 0 where
  pub id : ℕ
  pub issue_request_id : ℕ
  pub voucher_type : Text
  pub unit : Text
  pub available_amount : ℤ
  pub total_amount : ℤ
  pub issued_amount : ℤ
  pub refund_amount : ℤ
  pub status : IssueBudgetStatus

-- model/reward_request.go
pub record RewardRequest : Type 0 where
  pub id : ℕ
  pub client_ref_id : Text
  pub user_id : ℕ
  pub project_id : ℕ
  pub voucher_type : Text
  pub unit : Text
  pub amount : ℤ
  pub status : RewardStatus

-- model/issue_record.go, without `OffsetStatus`, which no code of the service reads or writes.
pub record IssueRecord : Type 0 where
  pub id : ℕ
  pub voucher_id : Text
  pub reward_request_id : ℕ
  pub issue_request_id : Option ℕ
  pub project_id : ℕ
  pub user_id : ℕ
  pub voucher_type : Text
  pub unit : Text
  pub reward_amount : ℤ
  pub issue_status : RecordStatus
  pub reason : Text
  pub client_reference_id : Text
