-- ===== src/System/Soundness.antt =====
-- The service as a whole keeps the withheld amounts backed.
use reward_mservice.Common.{refl}
use reward_mservice.World.{World, Env}
use reward_mservice.IssueRequest.Proofs.Soundness.{IsSound, IsSoundIn, IsSound-IsMonotone}
use reward_mservice.IssueRequest.Proofs.Methods.{frame-IsSound}
use reward_mservice.IssueRequest.Proofs.Invariant.{
  create_issue_request-IsSound, update_issue_request-IsSound, submit_issue_request-IsSound,
  approve_issue_request-IsSound, process_kafka_event-IsSound,
}
use reward_mservice.Reward.Proofs.Soundness.{
  execute_reward_distribution-IsSound, process_voucher_issue_request-IsSound,
}
use reward_mservice.Finance.Soundness.{create_finance_payment-IsSound}
use reward_mservice.Finance.DocSoundness.{
  create_finance_doc-IsSound, update_finance_doc-IsSound, update_finance_doc_status-IsSound,
  approve_finance_doc-IsSound, init_from_approved_doc-IsSound,
}
use reward_mservice.Project.Proofs.{Keeps-create_project}
use reward_mservice.Template.Proofs.{
  IsOfOthers, Keeps-create_template, Keeps-update_template, Keeps-publish_template,
}
use reward_mservice.System.{
  Call, on_create, on_update, on_submit, on_approve, on_issue_request_updated,
  on_distribution_request, on_distribution_execute, on_create_doc, on_update_doc, on_doc_status,
  on_approve_doc, on_finance_doc_approved, on_payment, on_create_template, on_update_template,
  on_publish_template, on_create_project, after, Reaches, here, later,
}

IsSound-frame : IsOfOthers IsSound
IsSound-frame = record {
  mono = IsSound-IsMonotone;
  frame = λ f t n s. frame-IsSound _ t n refl refl s;
  projects = λ f t n s. frame-IsSound _ t n refl refl s;
}

after-IsSound : (call : Call) (env : Env) (w : World) → IsSoundIn w → IsSoundIn (after call env w)
after-IsSound (on_create doc_id body) env w s = create_issue_request-IsSound env w s doc_id body
after-IsSound (on_update doc_id id body) env w s =
    update_issue_request-IsSound env w s doc_id id body
after-IsSound (on_submit doc_id id body) env w s =
    submit_issue_request-IsSound env w s doc_id id body
after-IsSound (on_approve doc_id id body) env w s =
    approve_issue_request-IsSound env w s doc_id id body
after-IsSound (on_issue_request_updated id) env w s = process_kafka_event-IsSound env w s id
after-IsSound (on_distribution_request body) env w s =
    process_voucher_issue_request-IsSound env w s body
after-IsSound (on_distribution_execute id) env w s = execute_reward_distribution-IsSound env w s id
after-IsSound (on_create_doc body) env w s = create_finance_doc-IsSound env w s body
after-IsSound (on_update_doc doc_id body) env w s = update_finance_doc-IsSound env w s doc_id body
after-IsSound (on_doc_status doc_id body) env w s =
    update_finance_doc_status-IsSound env w s doc_id body
after-IsSound (on_approve_doc doc_id body) env w s = approve_finance_doc-IsSound env w s doc_id body
after-IsSound (on_finance_doc_approved doc_id) env w s =
    init_from_approved_doc-IsSound env w s doc_id
after-IsSound (on_payment doc_id body) env w s = create_finance_payment-IsSound env w s doc_id body
after-IsSound (on_create_template body) env w s =
    (Keeps-create_template IsSound-frame body).at env w s
after-IsSound (on_update_template id body) env w s =
    (Keeps-update_template IsSound-frame id body).at env w s
after-IsSound (on_publish_template id) env w s =
    (Keeps-publish_template IsSound-frame id).at env w s
after-IsSound (on_create_project body) env w s =
    (Keeps-create_project IsSound-frame.mono IsSound-frame.projects body).at env w s

-- In every world reached from a sound one, by any calls of the modelled methods with any failures
-- on the way, the withheld amounts of the project budgets are, for every project, voucher type and
-- unit, the amounts of the issue requests that wait for approval.
pub reaches-IsSound : (first w : World) → Reaches first w → IsSoundIn first → IsSoundIn w
reaches-IsSound first _ here s = s
reaches-IsSound first _ (later call env {w} r) s =
    after-IsSound call env w (reaches-IsSound first w r s)
