-- ===== src/IssueRequest/Proofs/Handlers.antt =====
-- The methods of `IssueRequestService` that write, one rule for each.
use reward_mservice.Kafka.Producer.{publish_issue_request_updated}
use reward_mservice.Common.{
  ℕ, ℤ, pos, ◌+ℤ◌, int_laws, true, Option, none, some, [], ◌∷◌, ◌++◌, Text, ◌≡◌, refl, arith, find,
  ◌||◌, ◌∙◌,
}
use reward_mservice.Model.{IssueRequest, RequestStatus, is_request_status}
use reward_mservice.World.{Tables, transaction}
use reward_mservice.IssueRequest.Service.Tx.{
  submit_issue_request_in_tx, approve_issue_request_in_tx, reject_issue_request_in_tx,
  init_issue_budget_in_tx,
}
use reward_mservice.World.Keeps.{
  Invariant, Keeps, keeps_rules, Keeps-execute, Keeps-new_ids, Keeps-pure,
}
use reward_mservice.Sql.{update}
use reward_mservice.Sql.Laws.{sum_of-append, sum_of-update}
use reward_mservice.Dao.Finance.{get_by_doc_id}
use reward_mservice.Dao.ProjectBudgets.{get_by_project_id_voucher_type_unit}
use reward_mservice.Dao.IssueRequests.{has_id, set_fields, on_requests, create, get_by_id}
use reward_mservice.Util.{current_user_id_string, creator_of}
use reward_mservice.Amount.{Amount, decimal, text}
use reward_mservice.IssueRequest.Input.{
  parse_issue_request_update, parse_issue_request_input, validate_issue_request_transition,
  ensure_available_gte, ensure_withhold_gte, to_column,
}
use reward_mservice.IssueRequest.Service.Handlers.{
  load_approved_doc, load_issue_request_for_doc, ensure_available_amount, ensure_withhold_amount,
  create_issue_request, submit_issue_request, validate_approve_issue_request, approve_and_publish,
  apply_issue_request_approval, approve_issue_request, process_kafka_event, CreateRequest,
  StatusRequest,
}
use reward_mservice.IssueRequest.Proofs.Backing.{waiting}
use reward_mservice.IssueRequest.Proofs.Soundness.{
  IsSound, IsSound-IsMonotone, Keeps-submit, Keeps-approve, Keeps-reject,
}
use reward_mservice.IssueRequest.Proofs.Methods.{requests-IsSound, Keeps-init_issue_budget}

-- What only reads keeps every invariant.
module _ {P : Invariant} where
  pub Keeps-load_approved_doc : (raw : Text) → Keeps P (load_approved_doc raw)
  unfolding load_approved_doc get_by_doc_id
  Keeps-load_approved_doc raw = search keeps_rules depth 20

  pub Keeps-load_issue_request_for_doc :
      (raw : Text) (id : ℕ) → Keeps P (load_issue_request_for_doc raw id)
  unfolding load_issue_request_for_doc get_by_id
  Keeps-load_issue_request_for_doc raw id = search (keeps_rules, Keeps-load_approved_doc) depth 20

  pub Keeps-ensure_available_amount :
      (p : ℕ) (v u : Text) (a : Amount) → Keeps P (ensure_available_amount p v u a)
  unfolding ensure_available_amount get_by_project_id_voucher_type_unit ensure_available_gte
  Keeps-ensure_available_amount p v u a = search keeps_rules depth 20

  pub Keeps-ensure_withhold_amount : (r : IssueRequest) → Keeps P (ensure_withhold_amount r)
  unfolding ensure_withhold_amount get_by_project_id_voucher_type_unit ensure_withhold_gte
  Keeps-ensure_withhold_amount r = search keeps_rules depth 20

  pub Keeps-parse_update : (v u a : Text) → Keeps P (parse_issue_request_update v u a)
  unfolding parse_issue_request_update
  Keeps-parse_update v u a = search keeps_rules depth 20

  pub Keeps-parse_input : (v u a e : Text) → Keeps P (parse_issue_request_input v u a e)
  unfolding parse_issue_request_input
  Keeps-parse_input v u a e = search (keeps_rules, Keeps-parse_update) depth 20

  pub Keeps-to_column : (a : Amount) → Keeps P (to_column a)
  unfolding to_column
  Keeps-to_column (decimal d) = Keeps-pure d
  Keeps-to_column (text s) = search keeps_rules depth 20

  Keeps-creator_of : (o : Option ℕ) → Keeps P (creator_of o)
  Keeps-creator_of none = search keeps_rules
  Keeps-creator_of (some user) = search keeps_rules

  pub Keeps-current_user_id_string : Keeps P current_user_id_string
  unfolding current_user_id_string
  Keeps-current_user_id_string = search (keeps_rules, Keeps-creator_of) depth 20

-- What the writes of the methods have to keep, for the methods to keep it.
pub record IsKeptByRequests (P : Invariant) : Type 0 where
  pub submit :
      (id : ℕ) (remark : Text) → Keeps P (transaction (submit_issue_request_in_tx id remark))
  pub approve :
      (id : ℕ) (remark : Text) → Keeps P (transaction (approve_issue_request_in_tx id remark))
  pub reject :
      (id : ℕ) (remark : Text) → Keeps P (transaction (reject_issue_request_in_tx id remark))
  pub init : (id : ℕ) → Keeps P (transaction (init_issue_budget_in_tx id))
  pub make : (r : IssueRequest) → r.request_status ≡ RequestStatus.draft → Keeps P (create r)

module _ {P : Invariant} (k : IsKeptByRequests P) where
  -- `ProcessKafkaEvent`
  pub Keeps-process_kafka_event : (id : ℕ) → Keeps P (process_kafka_event id)
  unfolding process_kafka_event get_by_id
  Keeps-process_kafka_event id = search (keeps_rules, k.init) depth 20

  -- `SubmitIssueRequest`
  pub Keeps-submit_issue_request :
      (doc_id : Text) (id : ℕ) (body : Option StatusRequest)
      → Keeps P (submit_issue_request doc_id id body)
  unfolding submit_issue_request validate_issue_request_transition
  Keeps-submit_issue_request doc_id id body =
      search
        (keeps_rules, Keeps-load_issue_request_for_doc, Keeps-ensure_available_amount, k.submit)
        depth 20

  Keeps-validate :
      (r : IssueRequest) (body : Option StatusRequest)
      → Keeps P (validate_approve_issue_request r body)
  unfolding validate_approve_issue_request validate_issue_request_transition
  Keeps-validate r body = search keeps_rules depth 20

  Keeps-apply :
      (r : IssueRequest) (to : RequestStatus) (remark : Text)
      → Keeps P (apply_issue_request_approval r to remark)
  unfolding approve_and_publish publish_issue_request_updated
  Keeps-apply r RequestStatus.approved remark =
      search (keeps_rules, Keeps-ensure_withhold_amount, k.approve) depth 20
  Keeps-apply r _ remark = k.reject r.id remark

  -- `ApproveIssueRequest`
  pub Keeps-approve_issue_request :
      (doc_id : Text) (id : ℕ) (body : Option StatusRequest)
      → Keeps P (approve_issue_request doc_id id body)
  unfolding approve_issue_request
  Keeps-approve_issue_request doc_id id body =
      search (keeps_rules, Keeps-load_issue_request_for_doc, Keeps-validate, Keeps-apply) depth 20

  -- `CreateIssueRequest`
  pub Keeps-create_issue_request :
      (doc_id : Text) (body : Option CreateRequest) → Keeps P (create_issue_request doc_id body)
  unfolding create_issue_request
  Keeps-create_issue_request doc_id body =
      search
        (
          keeps_rules, Keeps-load_approved_doc, Keeps-parse_input, Keeps-ensure_available_amount,
          k.make, Keeps-to_column, Keeps-current_user_id_string,
        )
        depth 30

-- A draft waits for nothing.
draft_waits_not :
    (project : ℕ) (voucher unit : Text) (r : IssueRequest) (s : ℤ)
    → r.request_status ≡ RequestStatus.draft
    → s +ℤ waiting project voucher unit r ≡ s
draft_waits_not project voucher unit r s draft =
    let nothing : waiting project voucher unit r ≡ pos 0 = ground arith in
    rw nothing (omega int_laws)

append-IsSound :
    (r : IssueRequest) (t : Tables) (n : ℕ)
    → r.request_status ≡ RequestStatus.draft
    → IsSound t n
    → IsSound (on_requests (λ old. old ++ r ∷ []) t) n
append-IsSound r t n draft =
    requests-IsSound (on_requests (λ old. old ++ r ∷ [])) t n refl (λ project voucher unit.
      sum_of-append (waiting project voucher unit) t.issue_requests r
      ∙ draft_waits_not project voucher unit r _ draft)

Keeps-create :
    (r : IssueRequest) → r.request_status ≡ RequestStatus.draft → Keeps IsSound (create r)
unfolding create
Keeps-create r draft =
    search (keeps_rules, Keeps-new_ids, IsSound-IsMonotone, Keeps-execute, append-IsSound, draft)
      depth 20

pub IsSound-requests : IsKeptByRequests IsSound
IsSound-requests = record {
  submit = Keeps-submit;
  approve = Keeps-approve;
  reject = Keeps-reject;
  init = Keeps-init_issue_budget;
  make = Keeps-create;
}

cancel : (s' s x y : ℤ) → s' +ℤ x ≡ s +ℤ y → x ≡ pos 0 → y ≡ pos 0 → s' ≡ s
cancel s' s x y h ex ey = grind int_laws

abbrev pub IsEditable : IssueRequest → Type 0
IsEditable r =
    (is_request_status r.request_status RequestStatus.draft
      || is_request_status r.request_status RequestStatus.rejected)
    ≡ true

-- While the request is a draft or rejected, its fields may change.
pub set_fields-IsSound :
    (i : ℕ) (v u : Text) (a : ℤ) (remark : Text) (r : IssueRequest) (t : Tables) (n : ℕ)
    → find (has_id i) t.issue_requests ≡ some r
    → IsEditable r
    → IsSound t n
    → IsSound (on_requests (update (has_id i) (set_fields v u a remark)) t) n
set_fields-IsSound i v u a remark r t n found editable =
    requests-IsSound (on_requests (update (has_id i) (set_fields v u a remark))) t n refl
      (λ project voucher unit.
        let before : waiting project voucher unit r ≡ pos 0 = ground arith in
        let after : waiting project voucher unit (set_fields v u a remark r) ≡ pos 0 =
          ground arith in
        cancel _ _ _ _
          (sum_of-update (waiting project voucher unit) (has_id i) (set_fields v u a remark)
            t.issue_requests r found)
          before after)
