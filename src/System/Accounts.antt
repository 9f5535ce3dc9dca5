-- ===== src/System/Accounts.antt =====
-- The service as a whole keeps the accounts of the issue budgets in order.
use reward_mservice.Common.{refl}
use reward_mservice.World.{World, Env}
use reward_mservice.Reward.Accounts.{IsAccounted, IsAccountedIn}
use reward_mservice.Reward.Accounts.Rows.{IsAccounted-IsMonotone, frame-IsAccounted}
use reward_mservice.Reward.Accounts.Methods.{
  execute_reward_distribution-IsAccounted, process_voucher_issue_request-IsAccounted,
}
use reward_mservice.Reward.Accounts.Frame.{
  accounts, others_requests, others_finance, others_docs, Keeps-update_issue_request,
}
use reward_mservice.IssueRequest.Proofs.Handlers.{
  Keeps-create_issue_request, Keeps-submit_issue_request, Keeps-approve_issue_request,
  Keeps-process_kafka_event,
}
use reward_mservice.Finance.Frame.{
  IsOfOtherTables, Keeps-create_finance_doc, Keeps-update_finance_doc,
  Keeps-update_finance_doc_status, Keeps-approve_finance_doc, Keeps-init_from_approved_doc,
  Keeps-create_finance_payment,
}
use reward_mservice.Project.Proofs.{Keeps-create_project}
use reward_mservice.Template.Proofs.{
  IsOfOthers, Keeps-create_template, Keeps-update_template, Keeps-publish_template,
}
use reward_mservice.System.{
  Call, on_create, on_update, on_submit, on_approve, on_issue_request_updated,
  on_distribution_request, on_distribution_execute, on_create_doc, on_update_doc, on_doc_status,
  on_approve_doc, on_finance_doc_approved, on_payment, on_create_template, on_update_template,
  on_publish_template, on_create_project, after, Reaches, here, later,
}

IsAccounted-frame : IsOfOthers IsAccounted
IsAccounted-frame = record {
  mono = IsAccounted-IsMonotone;
  frame = λ f t n s. frame-IsAccounted _ t n refl refl refl s;
  projects = λ f t n s. frame-IsAccounted _ t n refl refl refl s;
}

accounts_docs : IsOfOtherTables IsAccounted
accounts_docs = others_finance accounts (λ f t n s. frame-IsAccounted _ t n refl refl refl s)

after-IsAccounted :
    (call : Call) (env : Env) (w : World) → IsAccountedIn w → IsAccountedIn (after call env w)
after-IsAccounted (on_create doc_id body) env w =
    (Keeps-create_issue_request (others_requests accounts) doc_id body).at env w
after-IsAccounted (on_update doc_id id body) env w =
    (Keeps-update_issue_request accounts doc_id id body).at env w
after-IsAccounted (on_submit doc_id id body) env w =
    (Keeps-submit_issue_request (others_requests accounts) doc_id id body).at env w
after-IsAccounted (on_approve doc_id id body) env w =
    (Keeps-approve_issue_request (others_requests accounts) doc_id id body).at env w
after-IsAccounted (on_issue_request_updated id) env w =
    (Keeps-process_kafka_event (others_requests accounts) id).at env w
after-IsAccounted (on_distribution_request body) env w =
    λ s. process_voucher_issue_request-IsAccounted env w s body
after-IsAccounted (on_distribution_execute id) env w =
    λ s. execute_reward_distribution-IsAccounted env w s id
after-IsAccounted (on_create_doc body) env w =
    (Keeps-create_finance_doc accounts_docs body).at env w
after-IsAccounted (on_update_doc doc_id body) env w =
    (Keeps-update_finance_doc accounts_docs doc_id body).at env w
after-IsAccounted (on_doc_status doc_id body) env w =
    (Keeps-update_finance_doc_status accounts_docs doc_id body).at env w
after-IsAccounted (on_approve_doc doc_id body) env w =
    (Keeps-approve_finance_doc accounts_docs doc_id body).at env w
after-IsAccounted (on_finance_doc_approved doc_id) env w =
    (Keeps-init_from_approved_doc (others_docs accounts) doc_id).at env w
after-IsAccounted (on_payment doc_id body) env w =
    (Keeps-create_finance_payment (others_docs accounts) doc_id body).at env w
after-IsAccounted (on_create_template body) env w =
    (Keeps-create_template IsAccounted-frame body).at env w
after-IsAccounted (on_update_template id body) env w =
    (Keeps-update_template IsAccounted-frame id body).at env w
after-IsAccounted (on_publish_template id) env w =
    (Keeps-publish_template IsAccounted-frame id).at env w
after-IsAccounted (on_create_project body) env w =
    (Keeps-create_project IsAccounted-frame.mono IsAccounted-frame.projects body).at env w

-- In every world reached from one whose accounts are in order, by any calls of the modelled methods
-- with any failures on the way, the accounts are in order: for every issue request, the available,
-- the issued and the refunded amounts of its budgets and the amounts of its pending records add up
-- to the total amounts of its budgets; the ids of the issue budgets and of the issue records are
-- distinct and below the next one, the client references of the reward requests are distinct, and
-- every issue record has the client reference of a reward request, and its amount too while it is
-- pending.
pub reaches-IsAccounted :
    (first w : World) → Reaches first w → IsAccountedIn first → IsAccountedIn w
reaches-IsAccounted first _ here s = s
reaches-IsAccounted first _ (later call env {w} r) s =
    after-IsAccounted call env w (reaches-IsAccounted first w r s)
