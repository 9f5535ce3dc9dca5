-- ===== src/System/Templates.antt =====
-- The service as a whole never changes a published template.
use reward_mservice.Common.{some, find, ◌≡◌}
use reward_mservice.World.{World, Env}
use reward_mservice.Reward.Accounts.Frame.{
  IsOfDistribution, others_requests, others_finance, others_docs, Keeps-update_issue_request,
}
use reward_mservice.IssueRequest.Proofs.Handlers.{
  Keeps-create_issue_request, Keeps-submit_issue_request, Keeps-approve_issue_request,
  Keeps-process_kafka_event,
}
use reward_mservice.Finance.Frame.{
  IsOfOtherTables, Keeps-create_finance_doc, Keeps-update_finance_doc,
  Keeps-update_finance_doc_status, Keeps-approve_finance_doc, Keeps-init_from_approved_doc,
  Keeps-create_finance_payment,
}
use reward_mservice.Model.{Template, TemplateStatus, IssueRequest}
use reward_mservice.Dao
use reward_mservice.Dao.IssueBudgets.{create as create_budget}
use reward_mservice.IssueRequest.Service.Tx.{new_issue_budget}
use reward_mservice.World.Keeps.{Keeps, keeps_rules, Keeps-new_ids, Keeps-execute, Keeps-execute_if}
use reward_mservice.Reward.Proofs.Keeps.{IsKeptByWrites}
use reward_mservice.Reward.Proofs.Methods.{Keeps-execute_distribution, Keeps-process_request}
use reward_mservice.Project.Proofs.{Keeps-create_project}
use reward_mservice.Template.Proofs.{
  IsThere, IsThere-IsMonotone, Keeps-create_IsThere, Keeps-update_IsThere, Keeps-publish_IsThere,
}
use reward_mservice.System.{
  Call, on_create, on_update, on_submit, on_approve, on_issue_request_updated,
  on_distribution_request, on_distribution_execute, on_create_doc, on_update_doc, on_doc_status,
  on_approve_doc, on_finance_doc_approved, on_payment, on_create_template, on_update_template,
  on_publish_template, on_create_project, after, Reaches, here, later,
}

module _ (r : Template) (published : r.status ≡ TemplateStatus.published) where
  distribution_keeps : IsKeptByWrites (IsThere r published)
  unfolding Dao.ProjectBudgets.apply_distribution_deduct_available
      Dao.ProjectBudgets.apply_distribution_issued Dao.ProjectBudgets.apply_distribution_refund
  distribution_keeps = record {
    mono = IsThere-IsMonotone r published;
    deduct = λ i a. Keeps-execute_if _ _ _ (λ t n h met. h);
    issued = λ i a. Keeps-execute _ (λ t n h. h);
    refund = λ i a. Keeps-execute _ (λ t n h. h);
    frame = λ u t n p q m d h. rw m h;
  }

  fund-Keeps : (x : IssueRequest) → Keeps (IsThere r published) (create_budget (new_issue_budget x))
  unfolding create_budget
  fund-Keeps x = search (keeps_rules, Keeps-new_ids, IsThere-IsMonotone, Keeps-execute_if) depth 20

  others_keep : IsOfDistribution (IsThere r published)
  others_keep = record {
    mono = IsThere-IsMonotone r published;
    frame = λ u t n b q p m d h. rw m h;
    fund = fund-Keeps;
  }

  docs_keep : IsOfOtherTables (IsThere r published)
  docs_keep = others_finance others_keep (λ f t n h. h)

  after-IsThere :
      (call : Call) (env : Env) (w : World)
      → IsThere r published w.tables w.next_id
      → IsThere r published (after call env w).tables (after call env w).next_id
  after-IsThere (on_create doc_id body) env w =
      (Keeps-create_issue_request (others_requests others_keep) doc_id body).at env w
  after-IsThere (on_update doc_id id body) env w =
      (Keeps-update_issue_request others_keep doc_id id body).at env w
  after-IsThere (on_submit doc_id id body) env w =
      (Keeps-submit_issue_request (others_requests others_keep) doc_id id body).at env w
  after-IsThere (on_approve doc_id id body) env w =
      (Keeps-approve_issue_request (others_requests others_keep) doc_id id body).at env w
  after-IsThere (on_issue_request_updated id) env w =
      (Keeps-process_kafka_event (others_requests others_keep) id).at env w
  after-IsThere (on_distribution_request body) env w =
      (Keeps-process_request distribution_keeps body).at env w
  after-IsThere (on_distribution_execute id) env w =
      (Keeps-execute_distribution distribution_keeps id).at env w
  after-IsThere (on_create_doc body) env w = (Keeps-create_finance_doc docs_keep body).at env w
  after-IsThere (on_update_doc doc_id body) env w =
      (Keeps-update_finance_doc docs_keep doc_id body).at env w
  after-IsThere (on_doc_status doc_id body) env w =
      (Keeps-update_finance_doc_status docs_keep doc_id body).at env w
  after-IsThere (on_approve_doc doc_id body) env w =
      (Keeps-approve_finance_doc docs_keep doc_id body).at env w
  after-IsThere (on_finance_doc_approved doc_id) env w =
      (Keeps-init_from_approved_doc (others_docs others_keep) doc_id).at env w
  after-IsThere (on_payment doc_id body) env w =
      (Keeps-create_finance_payment (others_docs others_keep) doc_id body).at env w
  after-IsThere (on_create_template body) env w = (Keeps-create_IsThere r published body).at env w
  after-IsThere (on_update_template id body) env w =
      (Keeps-update_IsThere r published id body).at env w
  after-IsThere (on_publish_template id) env w = (Keeps-publish_IsThere r published id).at env w
  after-IsThere (on_create_project body) env w =
      (Keeps-create_project (IsThere-IsMonotone r published) (λ f t n h. h) body).at env w

-- A template that is published in one world is the same row in every world reached from it, by any
-- calls of the modelled methods with any failures on the way.
pub reaches-IsThere :
    (first w : World) (r : Template)
    → Reaches first w
    → r.status ≡ TemplateStatus.published
    → find (Dao.Templates.has_id r.id) first.tables.templates ≡ some r
    → find (Dao.Templates.has_id r.id) w.tables.templates ≡ some r
reaches-IsThere first _ r here published found = found
reaches-IsThere first _ r (later call env {w} run) published found =
    after-IsThere r published call env w (reaches-IsThere first w r run published found)
