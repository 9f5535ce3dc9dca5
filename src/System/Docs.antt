-- ===== src/System/Docs.antt =====
-- The service as a whole never changes an approved finance doc.
use reward_mservice.Common.{some, find, ◌≡◌}
use reward_mservice.World.{World, Env}
use reward_mservice.Reward.Accounts.Frame.{
  IsOfDistribution, others_requests, others_docs, Keeps-update_issue_request,
}
use reward_mservice.IssueRequest.Proofs.Handlers.{
  Keeps-create_issue_request, Keeps-submit_issue_request, Keeps-approve_issue_request,
  Keeps-process_kafka_event,
}
use reward_mservice.Finance.Frame.{Keeps-init_from_approved_doc, Keeps-create_finance_payment}
use reward_mservice.Model.{FinanceDoc, DocStatus, IssueRequest}
use reward_mservice.Dao
use reward_mservice.Dao.IssueBudgets.{create as create_budget}
use reward_mservice.IssueRequest.Service.Tx.{new_issue_budget}
use reward_mservice.World.Keeps.{Keeps, keeps_rules, Keeps-new_ids, Keeps-execute, Keeps-execute_if}
use reward_mservice.Reward.Proofs.Keeps.{IsKeptByWrites}
use reward_mservice.Reward.Proofs.Methods.{Keeps-execute_distribution, Keeps-process_request}
use reward_mservice.Project.Proofs.{Keeps-create_project}
use reward_mservice.Template.Proofs.{
  IsOfOthers, Keeps-create_template, Keeps-update_template, Keeps-publish_template,
}
use reward_mservice.Finance.Approved.{
  IsApproved, IsApproved-IsMonotone, Keeps-create_IsApproved, Keeps-update_IsApproved,
  Keeps-status_IsApproved, Keeps-approve_IsApproved,
}
use reward_mservice.System.{
  Call, on_create, on_update, on_submit, on_approve, on_issue_request_updated,
  on_distribution_request, on_distribution_execute, on_create_doc, on_update_doc, on_doc_status,
  on_approve_doc, on_finance_doc_approved, on_payment, on_create_template, on_update_template,
  on_publish_template, on_create_project, after, Reaches, here, later,
}

module _ (r : FinanceDoc) (approved : r.status ≡ DocStatus.approved) where
  distribution_keeps : IsKeptByWrites (IsApproved r approved)
  unfolding Dao.ProjectBudgets.apply_distribution_deduct_available
      Dao.ProjectBudgets.apply_distribution_issued Dao.ProjectBudgets.apply_distribution_refund
  distribution_keeps = record {
    mono = IsApproved-IsMonotone r approved;
    deduct = λ i a. Keeps-execute_if _ _ _ (λ t n h met. h);
    issued = λ i a. Keeps-execute _ (λ t n h. h);
    refund = λ i a. Keeps-execute _ (λ t n h. h);
    frame = λ u t n p q m d h. rw d h;
  }

  funded_Keeps :
      (x : IssueRequest) → Keeps (IsApproved r approved) (create_budget (new_issue_budget x))
  unfolding create_budget
  funded_Keeps x =
      search (keeps_rules, Keeps-new_ids, IsApproved-IsMonotone r approved, Keeps-execute_if) depth
        20

  others_keep : IsOfDistribution (IsApproved r approved)
  others_keep = record {
    mono = IsApproved-IsMonotone r approved;
    frame = λ u t n b q p m d h. rw d h;
    fund = funded_Keeps;
  }

  templates_keep : IsOfOthers (IsApproved r approved)
  templates_keep = record {
    mono = IsApproved-IsMonotone r approved;
    frame = λ f t n h. h;
    projects = λ f t n h. h;
  }

  after-IsApproved :
      (call : Call) (env : Env) (w : World)
      → IsApproved r approved w.tables w.next_id
      → IsApproved r approved (after call env w).tables (after call env w).next_id
  after-IsApproved (on_create doc_id body) env w =
      (Keeps-create_issue_request (others_requests others_keep) doc_id body).at env w
  after-IsApproved (on_update doc_id id body) env w =
      (Keeps-update_issue_request others_keep doc_id id body).at env w
  after-IsApproved (on_submit doc_id id body) env w =
      (Keeps-submit_issue_request (others_requests others_keep) doc_id id body).at env w
  after-IsApproved (on_approve doc_id id body) env w =
      (Keeps-approve_issue_request (others_requests others_keep) doc_id id body).at env w
  after-IsApproved (on_issue_request_updated id) env w =
      (Keeps-process_kafka_event (others_requests others_keep) id).at env w
  after-IsApproved (on_distribution_request body) env w =
      (Keeps-process_request distribution_keeps body).at env w
  after-IsApproved (on_distribution_execute id) env w =
      (Keeps-execute_distribution distribution_keeps id).at env w
  after-IsApproved (on_create_doc body) env w = (Keeps-create_IsApproved r approved body).at env w
  after-IsApproved (on_update_doc doc_id body) env w =
      (Keeps-update_IsApproved r approved doc_id body).at env w
  after-IsApproved (on_doc_status doc_id body) env w =
      (Keeps-status_IsApproved r approved doc_id body).at env w
  after-IsApproved (on_approve_doc doc_id body) env w =
      (Keeps-approve_IsApproved r approved doc_id body).at env w
  after-IsApproved (on_finance_doc_approved doc_id) env w =
      (Keeps-init_from_approved_doc (others_docs others_keep) doc_id).at env w
  after-IsApproved (on_payment doc_id body) env w =
      (Keeps-create_finance_payment (others_docs others_keep) doc_id body).at env w
  after-IsApproved (on_create_template body) env w =
      (Keeps-create_template templates_keep body).at env w
  after-IsApproved (on_update_template id body) env w =
      (Keeps-update_template templates_keep id body).at env w
  after-IsApproved (on_publish_template id) env w =
      (Keeps-publish_template templates_keep id).at env w
  after-IsApproved (on_create_project body) env w =
      (Keeps-create_project (IsApproved-IsMonotone r approved) (λ f t n h. h) body).at env w

-- A finance doc that is approved in one world is the same row in every world reached from it, with
-- its amounts, by any calls of the modelled methods with any failures on the way.
pub reaches-IsApproved :
    (first w : World) (r : FinanceDoc)
    → Reaches first w
    → r.status ≡ DocStatus.approved
    → find (Dao.Finance.has_doc_id r.doc_id) first.tables.finance_docs ≡ some r
    → find (Dao.Finance.has_doc_id r.doc_id) w.tables.finance_docs ≡ some r
reaches-IsApproved first _ r here approved found = found
reaches-IsApproved first _ r (later call env {w} run) approved found =
    after-IsApproved r approved call env w (reaches-IsApproved first w r run approved found)
