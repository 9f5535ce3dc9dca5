-- ===== src/System.antt =====
-- The service as a whole: a run is a sequence of requests and Kafka messages, one at a time, each with
-- what its surroundings answer.
pub mod Soundness
pub mod Accounts
pub mod Templates
pub mod Docs
pub mod Life
use reward_mservice.Common.{ℕ, Option, some, Text, find, ◌≡◌, refl}
use reward_mservice.World.{Tables, World, Env}
use reward_mservice.IssueRequest.Service.Handlers.{
  CreateRequest, UpdateRequest, StatusRequest, create_issue_request, update_issue_request,
  submit_issue_request, approve_issue_request, process_kafka_event,
}
use reward_mservice.IssueRequest.Proofs.Soundness.{IsSound, IsSoundIn, IsSound-IsMonotone}
use reward_mservice.IssueRequest.Proofs.Methods.{frame-IsSound}
use reward_mservice.IssueRequest.Proofs.Invariant.{
  create_issue_request-IsSound, update_issue_request-IsSound, submit_issue_request-IsSound,
  approve_issue_request-IsSound, process_kafka_event-IsSound,
}
use reward_mservice.Reward.Input.{RewardDistributionRequest}
use reward_mservice.Reward.Service.{process_voucher_issue_request, execute_reward_distribution}
use reward_mservice.Reward.Proofs.Soundness.{
  execute_reward_distribution-IsSound, process_voucher_issue_request-IsSound,
}
use reward_mservice.Finance.Payment.{CreateFinancePaymentRequest, create_finance_payment}
use reward_mservice.Finance.Soundness.{create_finance_payment-IsSound}
use reward_mservice.Finance.Docs.{
  CreateFinanceDocRequest, UpdateFinanceDocContentRequest, UpdateFinanceDocRequest,
  create_finance_doc, update_finance_doc, update_finance_doc_status, approve_finance_doc,
}
use reward_mservice.Finance.Budgets.{init_from_approved_doc}
use reward_mservice.Finance.DocSoundness.{
  create_finance_doc-IsSound, update_finance_doc-IsSound, update_finance_doc_status-IsSound,
  approve_finance_doc-IsSound, init_from_approved_doc-IsSound,
}
use reward_mservice.Reward.Accounts.{IsAccounted, IsAccountedIn}
use reward_mservice.Reward.Accounts.Rows.{IsAccounted-IsMonotone, frame-IsAccounted}
use reward_mservice.Reward.Accounts.Methods.{
  execute_reward_distribution-IsAccounted, process_voucher_issue_request-IsAccounted,
}
use reward_mservice.Model.{Template, TemplateStatus}
use reward_mservice.Dao
use reward_mservice.World.Keeps.{Keeps, Keeps-execute, Keeps-execute_if}
use reward_mservice.Reward.Proofs.Keeps.{IsKeptByWrites}
use reward_mservice.Reward.Proofs.Methods.{Keeps-execute_distribution, Keeps-process_request}
use reward_mservice.Project.Service.{CreateProjectRequest, create_project}
use reward_mservice.Template.Service.{
  CreateTemplateRequest, UpdateTemplateRequest, create_template, update_template, publish_template,
}
use reward_mservice.Template.Proofs.{
  IsOfOthers, Keeps-create_template, Keeps-update_template, Keeps-publish_template, IsThere,
  IsThere-IsMonotone, Keeps-create_IsThere, Keeps-update_IsThere, Keeps-publish_IsThere,
}

-- The calls that reach the modelled methods that write.
pub data Call : Type 0 where
  on_create : (doc_id : Text) (body : Option CreateRequest) → Call
  on_update : (doc_id : Text) (id : ℕ) (body : Option UpdateRequest) → Call
  on_submit : (doc_id : Text) (id : ℕ) (body : Option StatusRequest) → Call
  on_approve : (doc_id : Text) (id : ℕ) (body : Option StatusRequest) → Call
  on_issue_request_updated : ℕ → Call
  on_distribution_request : Option RewardDistributionRequest → Call
  on_distribution_execute : ℕ → Call
  on_create_doc : Option CreateFinanceDocRequest → Call
  on_update_doc : (doc_id : Text) (body : Option UpdateFinanceDocContentRequest) → Call
  on_doc_status : (doc_id : Text) (body : Option UpdateFinanceDocRequest) → Call
  on_approve_doc : (doc_id : Text) (body : Option UpdateFinanceDocRequest) → Call
  on_finance_doc_approved : Text → Call
  on_payment : (doc_id : Text) (body : Option CreateFinancePaymentRequest) → Call
  on_create_template : Option CreateTemplateRequest → Call
  on_update_template : (id : ℕ) (body : Option UpdateTemplateRequest) → Call
  on_publish_template : ℕ → Call
  on_create_project : Option CreateProjectRequest → Call

abbrev pub after : Call → Env → World → World
after (on_create doc_id body) env w = (create_issue_request doc_id body env w).1
after (on_update doc_id id body) env w = (update_issue_request doc_id id body env w).1
after (on_submit doc_id id body) env w = (submit_issue_request doc_id id body env w).1
after (on_approve doc_id id body) env w = (approve_issue_request doc_id id body env w).1
after (on_issue_request_updated id) env w = (process_kafka_event id env w).1
after (on_distribution_request body) env w = (process_voucher_issue_request body env w).1
after (on_distribution_execute id) env w = (execute_reward_distribution id env w).1
after (on_create_doc body) env w = (create_finance_doc body env w).1
after (on_update_doc doc_id body) env w = (update_finance_doc doc_id body env w).1
after (on_doc_status doc_id body) env w = (update_finance_doc_status doc_id body env w).1
after (on_approve_doc doc_id body) env w = (approve_finance_doc doc_id body env w).1
after (on_finance_doc_approved doc_id) env w = (init_from_approved_doc doc_id env w).1
after (on_payment doc_id body) env w = (create_finance_payment doc_id body env w).1
after (on_create_template body) env w = (create_template body env w).1
after (on_update_template id body) env w = (update_template id body env w).1
after (on_publish_template id) env w = (publish_template id env w).1
after (on_create_project body) env w = (create_project body env w).1

-- Worlds that are reached from a first one.
pub data Reaches (first : World) : World → Type 0 where
  here : Reaches first first
  later : (call : Call) (env : Env) {w : World} → Reaches first w → Reaches first (after call env w)
