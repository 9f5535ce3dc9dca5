-- ===== src/System/Life.antt =====
-- The service as a whole follows the life of the issue requests.
use reward_mservice.Common.{ℕ, ◌∙◌, arith, refl, subst, sym, some, find, ◌≡◌}
use reward_mservice.World.{World, Env}
use reward_mservice.Reward.Accounts.Frame
use reward_mservice.Reward.Accounts.Frame.{
  IsOfDistribution, accounts, others_requests, others_finance,
}
use reward_mservice.IssueRequest.Proofs.Handlers.{
  Keeps-create_issue_request, Keeps-submit_issue_request, Keeps-approve_issue_request,
  Keeps-process_kafka_event, IsKeptByRequests,
}
use reward_mservice.Finance.Frame.{
  of_docs, Keeps-create_finance_doc, Keeps-update_finance_doc, Keeps-update_finance_doc_status,
  Keeps-approve_finance_doc, Keeps-init_from_approved_doc, Keeps-create_finance_payment,
  IsOfOtherTables,
}
use reward_mservice.Dao
use reward_mservice.Model.{IssueRequest, RequestStatus}
use reward_mservice.World.Keeps.{Keeps-execute, Keeps-execute_if, Keeps-transaction}
use reward_mservice.Reward.Proofs.Keeps.{IsKeptByWrites}
use reward_mservice.Reward.Proofs.Methods.{Keeps-execute_distribution, Keeps-process_request}
use reward_mservice.Project.Proofs.{Keeps-create_project}
use reward_mservice.System.{
  Call, on_create, on_update, on_submit, on_approve, on_issue_request_updated,
  on_distribution_request, on_distribution_execute, on_create_doc, on_update_doc, on_doc_status,
  on_approve_doc, on_finance_doc_approved, on_payment, on_create_template, on_update_template,
  on_publish_template, on_create_project, after, Reaches, here, later,
}
use reward_mservice.IssueRequest.Proofs.Methods.{Keeps-init}
use reward_mservice.IssueRequest.Proofs.Update.{Keeps-update_issue_request}
use reward_mservice.IssueRequest.Life.{Step, edited, moved, begun, Lives, born, goes_on}
use reward_mservice.IssueRequest.Input.{is_transition}
use reward_mservice.IssueRequest.Life.Proofs
use reward_mservice.IssueRequest.Life.Proofs.{
  IsAlive, IsAlive-IsMonotone, frame-IsAlive, edited-IsAlive,
}
use reward_mservice.Template.Proofs.{
  IsOfOthers, Keeps-create_template, Keeps-update_template, Keeps-publish_template,
}

module _ (i : ℕ) (first : IssueRequest) where
  requests_follow : IsKeptByRequests (IsAlive i first)
  requests_follow = record {
    submit = λ id remark.
        Keeps-transaction _ (IsAlive-IsMonotone i first)
          (λ bound. Frame.Keeps-submit_in_tx (Frame.grows bound) id remark)
          (Proofs.Keeps-submit_in_tx i first id remark);
    approve = λ id remark.
        Keeps-transaction _ (IsAlive-IsMonotone i first)
          (λ bound. Frame.Keeps-approve_in_tx (Frame.grows bound) id remark)
          (Proofs.Keeps-approve_in_tx i first id remark);
    reject = λ id remark.
        Keeps-transaction _ (IsAlive-IsMonotone i first)
          (λ bound. Frame.Keeps-reject_in_tx (Frame.grows bound) id remark)
          (Proofs.Keeps-reject_in_tx i first id remark);
    init = λ id.
        Keeps-transaction _ (IsAlive-IsMonotone i first)
          (λ bound.
            Keeps-init (Frame.grows bound).fund (Frame.Keeps-mark_ongoing (Frame.grows bound)) id)
          (Keeps-init (Proofs.Keeps-fund i first) (Proofs.Keeps-begun i first) id);
    make = λ r draft. Proofs.Keeps-create i first r;
  }

  distribution_follows : IsKeptByWrites (IsAlive i first)
  unfolding Dao.ProjectBudgets.apply_distribution_deduct_available
      Dao.ProjectBudgets.apply_distribution_issued Dao.ProjectBudgets.apply_distribution_refund
  distribution_follows = record {
    mono = IsAlive-IsMonotone i first;
    deduct = λ j a. Keeps-execute_if _ _ _ (λ t n h met. frame-IsAlive i first _ t n refl h);
    issued = λ j a. Keeps-execute _ (λ t n h. frame-IsAlive i first _ t n refl h);
    refund = λ j a. Keeps-execute _ (λ t n h. frame-IsAlive i first _ t n refl h);
    frame = λ u t n p q m d h. frame-IsAlive i first u t n q h;
  }

  finance_follows : IsOfOtherTables (IsAlive i first)
  finance_follows = record {
    mono = IsAlive-IsMonotone i first;
    frame = λ u t n r b q p m h. frame-IsAlive i first u t n r h;
  }

  templates_follow : IsOfOthers (IsAlive i first)
  templates_follow = record {
    mono = IsAlive-IsMonotone i first;
    frame = λ f t n h. frame-IsAlive i first _ t n refl h;
    projects = λ f t n h. frame-IsAlive i first _ t n refl h;
  }

  after-IsAlive :
      (call : Call) (env : Env) (w : World)
      → IsAlive i first w.tables w.next_id
      → IsAlive i first (after call env w).tables (after call env w).next_id
  after-IsAlive (on_create doc_id body) env w =
      (Keeps-create_issue_request requests_follow doc_id body).at env w
  after-IsAlive (on_update doc_id id body) env w =
      (Keeps-update_issue_request (IsAlive i first) (edited-IsAlive i first) doc_id id body).at env
        w
  after-IsAlive (on_submit doc_id id body) env w =
      (Keeps-submit_issue_request requests_follow doc_id id body).at env w
  after-IsAlive (on_approve doc_id id body) env w =
      (Keeps-approve_issue_request requests_follow doc_id id body).at env w
  after-IsAlive (on_issue_request_updated id) env w =
      (Keeps-process_kafka_event requests_follow id).at env w
  after-IsAlive (on_distribution_request body) env w =
      (Keeps-process_request distribution_follows body).at env w
  after-IsAlive (on_distribution_execute id) env w =
      (Keeps-execute_distribution distribution_follows id).at env w
  after-IsAlive (on_create_doc body) env w =
      (Keeps-create_finance_doc finance_follows body).at env w
  after-IsAlive (on_update_doc doc_id body) env w =
      (Keeps-update_finance_doc finance_follows doc_id body).at env w
  after-IsAlive (on_doc_status doc_id body) env w =
      (Keeps-update_finance_doc_status finance_follows doc_id body).at env w
  after-IsAlive (on_approve_doc doc_id body) env w =
      (Keeps-approve_finance_doc finance_follows doc_id body).at env w
  after-IsAlive (on_finance_doc_approved doc_id) env w =
      (Keeps-init_from_approved_doc (of_docs finance_follows) doc_id).at env w
  after-IsAlive (on_payment doc_id body) env w =
      (Keeps-create_finance_payment (of_docs finance_follows) doc_id body).at env w
  after-IsAlive (on_create_template body) env w =
      (Keeps-create_template templates_follow body).at env w
  after-IsAlive (on_update_template id body) env w =
      (Keeps-update_template templates_follow id body).at env w
  after-IsAlive (on_publish_template id) env w =
      (Keeps-publish_template templates_follow id).at env w
  after-IsAlive (on_create_project body) env w =
      (Keeps-create_project templates_follow.mono templates_follow.projects body).at env w

IsAlive-later :
    (i : ℕ) (r : IssueRequest) (first w : World)
    → Reaches first w
    → find (Dao.IssueRequests.has_id i) first.tables.issue_requests ≡ some r
    → IsAlive i r w.tables w.next_id
IsAlive-later i r first _ here found = record { now = r; found = found; life = born }
IsAlive-later i r first _ (later call env {w} run) found =
    after-IsAlive i r call env w (IsAlive-later i r first w run found)

-- What is ongoing has no step.
ongoing_stays : (r s : IssueRequest) → Step r s → r.request_status ≡ RequestStatus.ongoing → s ≡ r
unfolding is_transition
ongoing_stays r _ (edited v u a remark editable) ongoing = ground arith
ongoing_stays r _ (moved to remark allowed) ongoing = ground arith
ongoing_stays r _ (begun approved) ongoing = cc

Lives-ongoing : (r s : IssueRequest) → Lives r s → r.request_status ≡ RequestStatus.ongoing → s ≡ r
Lives-ongoing r _ born ongoing = refl
Lives-ongoing r _ (goes_on {r = m} {s = s} life step) ongoing =
    let same = Lives-ongoing r m life ongoing in
    ongoing_stays m s step
      (subst (λ x. x.request_status ≡ RequestStatus.ongoing) (sym same) ongoing)
    ∙ same

-- An issue request that is a row of one world is a row of every world reached from it, by any calls
-- of the modelled methods with any failures on the way, and has become what it is then by steps of
-- the life of a request: edits of its fields while it is a draft or rejected, the status changes
-- that `validateIssueRequestTransition` allows, and APPROVED to ONGOING.
pub reaches-Lives :
    (first w : World) (i : ℕ) (r : IssueRequest)
    → Reaches first w
    → find (Dao.IssueRequests.has_id i) first.tables.issue_requests ≡ some r
    → (now : IssueRequest) × (find (Dao.IssueRequests.has_id i) w.tables.issue_requests ≡ some now)
      × Lives r now
reaches-Lives first w i r run found =
    let alive = IsAlive-later i r first w run found in (alive.now, alive.found, alive.life)

-- An issue request that is ONGOING is the same row in every world reached from there.
pub reaches-ongoing :
    (first w : World) (i : ℕ) (r : IssueRequest)
    → Reaches first w
    → find (Dao.IssueRequests.has_id i) first.tables.issue_requests ≡ some r
    → r.request_status ≡ RequestStatus.ongoing
    → find (Dao.IssueRequests.has_id i) w.tables.issue_requests ≡ some r
reaches-ongoing first w i r run found ongoing =
    let alive = reaches-Lives first w i r run found in
    subst (λ x. find (Dao.IssueRequests.has_id i) w.tables.issue_requests ≡ some x)
      (Lives-ongoing r alive.0 alive.2 ongoing) alive.1
