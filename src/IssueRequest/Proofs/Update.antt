-- ===== src/IssueRequest/Proofs/Update.antt =====
-- `UpdateIssueRequest` writes the request that it has found to be editable.
use reward_mservice.Common.{ap, trim_space, ℕ, ℤ, Option, some, Text, ◌≡◌, arith, find, ◌∙◌}
use reward_mservice.Model.{IssueRequest, FinanceDoc}
use reward_mservice.World.{Tables}
use reward_mservice.World.Keeps.{Invariant, Keeps}
use reward_mservice.World.Triple.{
  Triple, Triple-bind, Triple-query, Triple-or_else, Triple-Keeps, Keeps-Triple, Triple-pure,
  Triple-throw_if_to, Triple-require_to, Triple-Keeps_to, Triple-execute,
}
use reward_mservice.Sql.{update}
use reward_mservice.Sql.Laws.{find_sound}
use reward_mservice.Dao.IssueRequests.{has_id, set_fields, on_requests, update_fields, get_by_id}
use reward_mservice.IssueRequest.Service.Handlers.{
  load_issue_request_for_doc, load_editable_issue_request, update_issue_request, UpdateRequest,
}
use reward_mservice.IssueRequest.Proofs.Handlers.{
  IsEditable, Keeps-load_approved_doc, Keeps-parse_update, Keeps-ensure_available_amount,
  Keeps-to_column,
}

module _ (P : Invariant) where
  -- The request that a method has loaded is a row of the table.
  abbrev pub HasLoaded : ℕ → FinanceDoc × IssueRequest → Invariant
  HasLoaded id loaded t n = P t n × (find (has_id id) t.issue_requests ≡ some loaded.1)

  Triple-load_issue_request :
      (raw : Text) (id : ℕ) → Triple P (load_issue_request_for_doc raw id) (HasLoaded id) P
  unfolding load_issue_request_for_doc get_by_id
  Triple-load_issue_request raw id =
      Triple-bind _ _ (Triple-Keeps _ (Keeps-load_approved_doc raw)) (λ doc.
        Triple-bind _ _ (Triple-or_else _ _ (Triple-query _)) (λ found.
          Triple-bind _ _ (Triple-require_to (λ t n h. h.0) found _) (λ r.
            Triple-bind _ _ (Triple-throw_if_to (λ t n h. h.0.0) _ _)
              (λ _. Triple-pure (doc, r) (λ t n h. (h.0.0.0, h.0.0.1 ∙ h.0.1))))))

  -- `loadEditableIssueRequest` returns a row in a status that may be edited.
  abbrev pub MayEdit : ℕ → FinanceDoc × IssueRequest → Invariant
  MayEdit id loaded t n = HasLoaded id loaded t n × IsEditable loaded.1

  Triple-load_editable :
      (raw : Text) (id : ℕ) → Triple P (load_editable_issue_request raw id) (MayEdit id) P
  unfolding load_editable_issue_request
  Triple-load_editable raw id = Triple-bind _ _ (Triple-load_issue_request raw id) (λ loaded.
      Triple-bind _ _ (Triple-throw_if_to (λ t n h. h.0) _ _)
        (λ _. Triple-pure loaded (λ t n h. (h.0, ground (arith, h.1)))))

  abbrev IsKeptByEdits : Type 0
  IsKeptByEdits =
      (id : ℕ) (v u : Text) (a : ℤ) (remark : Text) (r : IssueRequest) (t : Tables) (n : ℕ)
      → find (has_id id) t.issue_requests ≡ some r
      → IsEditable r
      → P t n
      → P (on_requests (update (has_id id) (set_fields v u a remark)) t) n

  module _ (k : IsKeptByEdits) where
    -- A loaded request may be written anew.
    set_loaded :
        (id : ℕ) (v u : Text) (a : ℤ) (remark : Text) (loaded : FinanceDoc × IssueRequest)
        (t : Tables) (n : ℕ)
        → MayEdit id loaded t n
        → P (on_requests (update (has_id loaded.1.id) (set_fields v u a remark)) t) n
    set_loaded id v u a remark loaded t n h =
        let same : loaded.1.id ≡ id = ground (arith, find_sound (has_id id) _ _ h.0.1) in
        k loaded.1.id v u a remark loaded.1 t n
          (ap (λ i. find (has_id i) t.issue_requests) same ∙ h.0.1) h.1 h.0.0

    -- `UpdateIssueRequest`
    pub Keeps-update_issue_request :
        (doc_id : Text) (id : ℕ) (body : Option UpdateRequest)
        → Keeps P (update_issue_request doc_id id body)
    unfolding update_issue_request update_fields
    Keeps-update_issue_request doc_id id body = Keeps-Triple _ (
        Triple-bind _ _ (Triple-load_editable doc_id id) (λ loaded.
          Triple-bind _ _ (Triple-require_to (λ t n h. h.0.0) body _) (λ req.
            Triple-bind _ _
              (Triple-Keeps_to (λ t n h. h.0.0.0) _
                (Keeps-parse_update req.voucher_type req.unit req.amount))
              (λ input.
                Triple-bind _ _
                  (Triple-Keeps_to (λ t n h. h.0.0.0) _
                    (Keeps-ensure_available_amount loaded.0.project_id input.voucher_type input.unit
                      input.amount))
                  (λ _.
                    Triple-bind _ _
                      (Triple-or_else _ _
                        (Triple-Keeps_to (λ t n h. h.0.0.0) _ (Keeps-to_column input.amount)))
                      (λ stored.
                        Triple-bind _ _
                          (Triple-or_else _ _ (
                            Triple-execute _ _ _ _
                              (λ t n h.
                                set_loaded id input.voucher_type input.unit stored
                                  (trim_space req.remark) loaded t n h.0)
                              (λ t n h. h.0.0.0)))
                          (λ _. Triple-pure _ (λ t n h. h))))))))
