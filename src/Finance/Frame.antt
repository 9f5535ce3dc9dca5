-- ===== src/Finance/Frame.antt =====
-- What the methods of finance docs, project budgets and payments keep, which write to other tables
-- than those of the issue requests, the distribution and the templates.
use reward_mservice.Common.{ℕ, ℤ, Option, List, [], ◌∷◌, Text, ◌≡◌}
use reward_mservice.Model.{FinancePayment, ProjectBudget}
use reward_mservice.World.{Tables, transaction}
use reward_mservice.World.Keeps.{
  Invariant, Keeps, keeps_rules, IsMonotone, Above, Above-IsMonotone, Keeps-transaction,
  Keeps-execute, Keeps-execute_if, Keeps-new_ids, Keeps-pure,
}
use reward_mservice.Dao.Finance.{
  create_doc, update_content, update_doc_status, create_payment, get_by_doc_id, get_by_pay_address,
  get_project_by_id, exists_by_project_id,
}
use reward_mservice.Dao.ProjectBudgets.{
  batch_create, update_total_and_available_amount, get_by_doc_id_voucher_type_unit,
}
use reward_mservice.IssueRequest.Proofs.Handlers.{Keeps-current_user_id_string}
use reward_mservice.Finance.Docs.{
  CreateFinanceDocRequest, UpdateFinanceDocContentRequest, UpdateFinanceDocRequest,
  create_finance_doc, update_finance_doc, update_finance_doc_status, approve_finance_doc,
}
use reward_mservice.Finance.Budgets.{init_from_approved_doc}
use reward_mservice.Finance.DocSoundness.{
  Keeps-resolve, Keeps-load_doc, Keeps-vo, Keeps-doc_id, Keeps-publish_if_approved, Keeps-skip,
}
use reward_mservice.Finance.Payment.{
  CreatePaymentInput, CreateFinancePaymentRequest, parse_create_payment_input,
  load_approved_finance_doc, validate_payment_budget_amount, create_finance_payment_in_tx,
  create_finance_payment,
}
use reward_mservice.Finance.Soundness.{Keeps-in_tx, Keeps-payment_id}

-- `P` is not about the tables of these methods.
pub record IsOfOtherTables (P : Invariant) : Type 0 where
  pub mono : IsMonotone P
  pub frame :
      (u t : Tables) (n : ℕ)
      → u.issue_requests ≡ t.issue_requests
      → u.issue_budgets ≡ t.issue_budgets
      → u.issue_records ≡ t.issue_records
      → u.reward_requests ≡ t.reward_requests
      → u.templates ≡ t.templates
      → P t n
      → P u n

-- `P` may be about the finance docs as well.
pub record IsOfDocs (P : Invariant) : Type 0 where
  pub mono : IsMonotone P
  pub frame :
      (u t : Tables) (n : ℕ)
      → u.issue_requests ≡ t.issue_requests
      → u.issue_budgets ≡ t.issue_budgets
      → u.issue_records ≡ t.issue_records
      → u.reward_requests ≡ t.reward_requests
      → u.templates ≡ t.templates
      → u.finance_docs ≡ t.finance_docs
      → P t n
      → P u n

pub of_docs : {P : Invariant} → IsOfOtherTables P → IsOfDocs P
of_docs k = record { mono = k.mono; frame = λ u t n i b r q m d. k.frame u t n i b r q m }

grows : (bound : ℕ) → IsOfDocs (Above bound)
grows bound = record { mono = Above-IsMonotone bound; frame = λ u t n i b r q m d h. h }

module _ {P : Invariant} (k : IsOfDocs P) where
  Keeps-batch_create : (bs : List ProjectBudget) → Keeps P (batch_create bs)
  unfolding batch_create
  Keeps-batch_create [] = Keeps-pure tt
  Keeps-batch_create (b ∷ bs) =
      search (keeps_rules, Keeps-new_ids, k.mono, Keeps-execute_if, k.frame) depth 20

  Keeps-paid : (p : FinancePayment) → Keeps P (create_payment p)
  unfolding create_payment
  Keeps-paid p = search (keeps_rules, Keeps-execute_if, k.frame)

  Keeps-raised : (i : ℕ) (a : ℤ) → Keeps P (update_total_and_available_amount i a)
  unfolding update_total_and_available_amount
  Keeps-raised i a = search (keeps_rules, Keeps-execute, k.frame)

module _ {P : Invariant} (k : IsOfDocs P) where
  Keeps-init_budgets : (bs : List ProjectBudget) → Keeps P (transaction (batch_create bs))
  Keeps-init_budgets bs =
      Keeps-transaction _ k.mono (λ bound. Keeps-batch_create (grows bound) bs)
        (Keeps-batch_create k bs)

  pub Keeps-init_from_approved_doc : (raw : Text) → Keeps P (init_from_approved_doc raw)
  unfolding init_from_approved_doc
  Keeps-init_from_approved_doc raw =
      search (keeps_rules, Keeps-load_doc, Keeps-resolve, Keeps-init_budgets, Keeps-skip) depth 40

  Keeps-payment :
      (input : CreatePaymentInput) (payment_id : Text) (budget_id : ℕ) (doc_amount : Text)
      → Keeps P (transaction (create_finance_payment_in_tx input payment_id budget_id doc_amount))
  Keeps-payment input payment_id budget_id doc_amount =
      Keeps-transaction _ k.mono
        (λ bound.
          Keeps-in_tx (Keeps-paid (grows bound)) (Keeps-raised (grows bound)) input payment_id
            budget_id doc_amount)
        (Keeps-in_tx (Keeps-paid k) (Keeps-raised k) input payment_id budget_id doc_amount)

  pub Keeps-create_finance_payment :
      (doc_id : Text) (body : Option CreateFinancePaymentRequest)
      → Keeps P (create_finance_payment doc_id body)
  unfolding create_finance_payment parse_create_payment_input load_approved_finance_doc
      validate_payment_budget_amount get_by_doc_id get_by_pay_address
      get_by_doc_id_voucher_type_unit
  Keeps-create_finance_payment doc_id body =
      search (keeps_rules, Keeps-payment, Keeps-payment_id) depth 60

module _ {P : Invariant} (k : IsOfOtherTables P) where
  pub Keeps-create_finance_doc :
      (body : Option CreateFinanceDocRequest) → Keeps P (create_finance_doc body)
  unfolding create_finance_doc get_project_by_id exists_by_project_id create_doc
  Keeps-create_finance_doc body =
      search
        (
          keeps_rules, Keeps-resolve, Keeps-current_user_id_string, Keeps-doc_id, Keeps-execute_if,
          k.frame,
        )
        depth 40

  pub Keeps-update_finance_doc :
      (raw : Text) (body : Option UpdateFinanceDocContentRequest)
      → Keeps P (update_finance_doc raw body)
  unfolding update_finance_doc update_content
  Keeps-update_finance_doc raw body =
      search (keeps_rules, Keeps-load_doc, Keeps-resolve, Keeps-execute, k.frame, Keeps-vo) depth 40

  pub Keeps-update_finance_doc_status :
      (raw : Text) (body : Option UpdateFinanceDocRequest)
      → Keeps P (update_finance_doc_status raw body)
  unfolding update_finance_doc_status update_doc_status
  Keeps-update_finance_doc_status raw body =
      search (keeps_rules, Keeps-load_doc, Keeps-execute, k.frame) depth 40

  pub Keeps-approve_finance_doc :
      (raw : Text) (body : Option UpdateFinanceDocRequest) → Keeps P (approve_finance_doc raw body)
  unfolding approve_finance_doc
  Keeps-approve_finance_doc raw body =
      search (keeps_rules, Keeps-update_finance_doc_status, Keeps-publish_if_approved) depth 40
