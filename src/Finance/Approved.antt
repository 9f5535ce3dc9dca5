-- ===== src/Finance/Approved.antt =====
-- An approved finance doc never changes.
use reward_mservice.Common.{
  ℕ, Bool, false, Option, some, List, [], ◌∷◌, Text, find, ◌≡◌, ◌≢◌, refl, not, ◌∙◌, sym, subst,
  arith, Bool-cases, inl, inr, trim_space, eq_text, eq_text_sound,
}
use reward_mservice.Errs.{wrap, internal_error}
use reward_mservice.Model.{FinanceDoc, ApplicationDetailItem, DocStatus}
use reward_mservice.World.{Tables}
use reward_mservice.World.Keeps.{
  Invariant, Keeps, keeps_rules, IsMonotone, Keeps-execute_if, Keeps-pure,
}
use reward_mservice.World.Triple.{
  Triple, Triple-bind, Triple-query, Triple-or_else, Triple-Keeps, Keeps-Triple, Triple-weaken,
  Triple-throw_if_to, Triple-require_to, Triple-Keeps_to, Triple-execute, Triple-pre,
}
use reward_mservice.Sql.{update}
use reward_mservice.Sql.Rows.{find-append}
use reward_mservice.Dao.Finance.{
  has_doc_id, on_docs, create_doc, get_by_doc_id, update_content, update_doc_status, set_content,
  set_doc_status, get_project_by_id, exists_by_project_id,
}
use reward_mservice.IssueRequest.Proofs.Handlers.{Keeps-current_user_id_string}
use reward_mservice.Finance.Docs.{
  CreateFinanceDocRequest, UpdateFinanceDocContentRequest, UpdateFinanceDocRequest, load_doc,
  create_finance_doc, update_finance_doc, update_finance_doc_status, approve_finance_doc,
  is_editable, is_doc_transition, read_doc_status,
}
use reward_mservice.Finance.DocSoundness.{
  Keeps-resolve, Keeps-vo, Keeps-doc_id, Keeps-publish_if_approved,
}

module _ (r : FinanceDoc) (approved : r.status ≡ DocStatus.approved) where
  abbrev pub IsApproved : Invariant
  IsApproved t n = find (has_doc_id r.doc_id) t.finance_docs ≡ some r

  pub IsApproved-IsMonotone : IsMonotone IsApproved
  IsApproved-IsMonotone = record { at = λ t m n l h. h }

  untouched :
      (p : FinanceDoc → Bool) (f : FinanceDoc → FinanceDoc) (rows : List FinanceDoc)
      → p r ≡ false
      → ((s : FinanceDoc) → (f s).doc_id ≡ s.doc_id)
      → find (has_doc_id r.doc_id) rows ≡ some r
      → find (has_doc_id r.doc_id) (update p f rows) ≡ some r
  unfolding update find
  untouched p f [] other keep h = h
  untouched p f (x ∷ rows) other keep h = ground (arith, keep x, untouched p f rows other keep)

  -- The doc that was loaded.
  Loaded : Text → FinanceDoc → Invariant
  Loaded id x t n = IsApproved t n × (find (has_doc_id id) t.finance_docs ≡ some x)

  Triple-load_doc : (id : Text) → Triple IsApproved (load_doc id) (Loaded id) IsApproved
  unfolding load_doc get_by_doc_id Loaded
  Triple-load_doc id =
      Triple-bind _ _ (Triple-or_else _ (wrap internal_error) (Triple-query _)) (λ found.
        Triple-weaken _ (Triple-require_to (λ t n h. h.0) found _) (λ x t n h. (h.0.0, h.0.1 ∙ h.1))
          (λ t n h. h))

  other_id :
      (id : Text) (x : FinanceDoc) (t : Tables) (n : ℕ)
      → Loaded id x t n
      → x.status ≢ DocStatus.approved
      → eq_text r.doc_id id ≡ false
  unfolding Loaded
  other_id id x t n h free = elim (Bool-cases (eq_text r.doc_id id)) [
    | inl clash ↦
        let same : find (has_doc_id r.doc_id) t.finance_docs ≡ some x =
          subst (λ i. find (has_doc_id i) t.finance_docs ≡ some x)
            (sym (eq_text_sound r.doc_id id clash)) h.1 in
        absurd (free (cc (same, h.0, approved)))
    | inr other ↦ other
  ]

  pub Keeps-create_IsApproved :
      (body : Option CreateFinanceDocRequest) → Keeps IsApproved (create_finance_doc body)
  unfolding create_finance_doc get_project_by_id exists_by_project_id create_doc
  Keeps-create_IsApproved body =
      search
        (
          keeps_rules,
          Keeps-resolve,
          Keeps-current_user_id_string,
          Keeps-doc_id,
          Keeps-execute_if,
          λ (x : FinanceDoc) (t : Tables) (m : ℕ) (h : IsApproved t m).
              find-append (has_doc_id r.doc_id) t.finance_docs (x ∷ []) r h,
        )
        depth 40

  content-IsApproved :
      (id description : Text) (detail : List ApplicationDetailItem) (x : FinanceDoc) (t : Tables)
      (n : ℕ)
      → Loaded id x t n
      → x.status ≢ DocStatus.approved
      → IsApproved (on_docs (update (has_doc_id id) (set_content description detail)) t) n
  unfolding Loaded
  content-IsApproved id description detail x t n h free =
      untouched (has_doc_id id) _ t.finance_docs (other_id id x t n h free) (λ s. refl) h.0

  status-IsApproved :
      (id : Text) (to : DocStatus) (remark : Text) (x : FinanceDoc) (t : Tables) (n : ℕ)
      → Loaded id x t n
      → x.status ≢ DocStatus.approved
      → IsApproved (on_docs (update (has_doc_id id) (set_doc_status to remark)) t) n
  unfolding Loaded
  status-IsApproved id to remark x t n h free =
      untouched (has_doc_id id) _ t.finance_docs (other_id id x t n h free) (λ s. refl) h.0

  editable_is_free : (x : DocStatus) → not (is_editable x) ≡ false → x ≢ DocStatus.approved
  unfolding is_editable
  editable_is_free x h e = ground arith

  moving_is_free :
      (x to : DocStatus) → not (is_doc_transition x to) ≡ false → x ≢ DocStatus.approved
  unfolding is_doc_transition
  moving_is_free x to h e = ground arith

  pub Keeps-update_IsApproved :
      (raw : Text) (body : Option UpdateFinanceDocContentRequest)
      → Keeps IsApproved (update_finance_doc raw body)
  unfolding update_finance_doc update_content Loaded
  Keeps-update_IsApproved raw body = Keeps-Triple _ (
      Triple-bind _ _ (Triple-throw_if_to (λ t n h. h) _ _) (λ _.
        Triple-bind _ _ (Triple-require_to (λ t n h. h.0) body _) (λ req.
          Triple-bind _ _ (Triple-throw_if_to (λ t n h. h.0.0) _ _) (λ _.
            Triple-bind _ _ (Triple-pre _ (λ t n h. h.0.0.0) (Triple-load_doc (trim_space raw)))
              (λ x. Triple-bind _ _ (Triple-throw_if_to (λ t n h. h.0) _ _) (λ _.
                Triple-bind _ _ (Triple-Keeps_to (λ t n h. h.0.0) _ (Keeps-resolve _)) (λ _.
                  Triple-bind {Q = λ _. IsApproved} _ _
                    (Triple-or_else _ _ (
                      Triple-execute _ _ _ _
                        (λ t n h.
                          content-IsApproved (trim_space raw) _ _ x t n h.0
                            (editable_is_free x.status h.1))
                        (λ t n h. h.0.0)))
                    (λ _. Triple-Keeps _ (Keeps-vo _)))))))))

  pub Keeps-status_IsApproved :
      (raw : Text) (body : Option UpdateFinanceDocRequest)
      → Keeps IsApproved (update_finance_doc_status raw body)
  unfolding update_finance_doc_status update_doc_status Loaded
  Keeps-status_IsApproved raw body = Keeps-Triple _ (
      Triple-bind _ _ (Triple-throw_if_to (λ t n h. h) _ _) (λ _.
        Triple-bind _ _ (Triple-require_to (λ t n h. h.0) body _) (λ req.
          Triple-bind _ _ (Triple-throw_if_to (λ t n h. h.0.0) _ _) (λ _.
            Triple-bind _ _ (Triple-pre _ (λ t n h. h.0.0.0) (Triple-load_doc (trim_space raw)))
              (λ x.
                Triple-bind _ _ (Triple-require_to (λ t n h. h.0) (read_doc_status req.status) _)
                  (λ to. Triple-bind _ _ (Triple-throw_if_to (λ t n h. h.0.0) _ _) (λ _.
                    Triple-bind {Q = λ _. IsApproved} _ _
                      (Triple-or_else _ _ (
                        Triple-execute _ _ _ _
                          (λ t n h.
                            status-IsApproved (trim_space raw) to _ x t n h.0.0
                              (moving_is_free x.status to h.1))
                          (λ t n h. h.0.0.0)))
                      (λ _. Triple-Keeps _ (Keeps-pure _)))))))))

  pub Keeps-approve_IsApproved :
      (raw : Text) (body : Option UpdateFinanceDocRequest)
      → Keeps IsApproved (approve_finance_doc raw body)
  unfolding approve_finance_doc
  Keeps-approve_IsApproved raw body =
      search (keeps_rules, Keeps-status_IsApproved, Keeps-publish_if_approved) depth 40
