-- ===== src/IssueRequest/Proofs/Invariant.antt =====
-- Every method of `IssueRequestService` that writes leaves the project budgets sound: the money that
-- they withhold is what the requests that wait for approval ask for.
use reward_mservice.Common.{ℕ, Option, Text}
use reward_mservice.World.{World, Env}
use reward_mservice.IssueRequest.Service.Handlers.{
  CreateRequest, UpdateRequest, StatusRequest, create_issue_request, update_issue_request,
  submit_issue_request, approve_issue_request, process_kafka_event,
}
use reward_mservice.IssueRequest.Proofs.Soundness.{IsSound, IsSoundIn}
use reward_mservice.IssueRequest.Proofs.Handlers.{
  IsSound-requests, set_fields-IsSound, Keeps-create_issue_request, Keeps-submit_issue_request,
  Keeps-approve_issue_request, Keeps-process_kafka_event,
}
use reward_mservice.IssueRequest.Proofs.Update.{Keeps-update_issue_request}

module _ (env : Env) (w : World) (sound : IsSoundIn w) where
  -- `CreateIssueRequest` from sound tables leaves them sound, whether it returns or fails: project budgets have
  -- distinct ids below the next one, and for every project, voucher type and unit the withheld
  -- amounts of the budgets add up to the amounts of the issue requests that wait for approval.
  pub create_issue_request-IsSound :
      (doc_id : Text) (body : Option CreateRequest)
      → IsSoundIn (create_issue_request doc_id body env w).1
  create_issue_request-IsSound doc_id body =
      (Keeps-create_issue_request IsSound-requests doc_id body).at env w sound

  -- `UpdateIssueRequest` from sound tables leaves them sound, whether it returns or fails: project budgets have
  -- distinct ids below the next one, and for every project, voucher type and unit the withheld
  -- amounts of the budgets add up to the amounts of the issue requests that wait for approval.
  pub update_issue_request-IsSound :
      (doc_id : Text) (id : ℕ) (body : Option UpdateRequest)
      → IsSoundIn (update_issue_request doc_id id body env w).1
  update_issue_request-IsSound doc_id id body =
      (Keeps-update_issue_request IsSound set_fields-IsSound doc_id id body).at env w sound

  -- `SubmitIssueRequest` from sound tables leaves them sound, whether it returns or fails: project budgets have
  -- distinct ids below the next one, and for every project, voucher type and unit the withheld
  -- amounts of the budgets add up to the amounts of the issue requests that wait for approval.
  pub submit_issue_request-IsSound :
      (doc_id : Text) (id : ℕ) (body : Option StatusRequest)
      → IsSoundIn (submit_issue_request doc_id id body env w).1
  submit_issue_request-IsSound doc_id id body =
      (Keeps-submit_issue_request IsSound-requests doc_id id body).at env w sound

  -- `ApproveIssueRequest` from sound tables leaves them sound, whether it returns or fails: project budgets have
  -- distinct ids below the next one, and for every project, voucher type and unit the withheld
  -- amounts of the budgets add up to the amounts of the issue requests that wait for approval.
  pub approve_issue_request-IsSound :
      (doc_id : Text) (id : ℕ) (body : Option StatusRequest)
      → IsSoundIn (approve_issue_request doc_id id body env w).1
  approve_issue_request-IsSound doc_id id body =
      (Keeps-approve_issue_request IsSound-requests doc_id id body).at env w sound

  -- `ProcessKafkaEvent` from sound tables leaves them sound, whether it returns or fails: project budgets have
  -- distinct ids below the next one, and for every project, voucher type and unit the withheld
  -- amounts of the budgets add up to the amounts of the issue requests that wait for approval.
  pub process_kafka_event-IsSound : (id : ℕ) → IsSoundIn (process_kafka_event id env w).1
  process_kafka_event-IsSound id = (Keeps-process_kafka_event IsSound-requests id).at env w sound
