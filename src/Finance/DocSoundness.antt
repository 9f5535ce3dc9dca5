-- ===== src/Finance/DocSoundness.antt =====
-- The methods of finance docs and the creation of project budgets leave the project budgets sound.
use reward_mservice.Kafka.Producer.{publish_finance_doc_approved}
use reward_mservice.Common.{ℕ, Option, none, some, List, [], ◌∷◌, Text, refl}
use reward_mservice.Errs.{Err, budget_already_exists}
use reward_mservice.Model.{ApplicationDetailItem, FinanceDoc, DocStatus, is_doc_status}
use reward_mservice.World.{World, Env, pure, transaction}
use reward_mservice.World.Keeps.{
  Invariant, Keeps, keeps_rules, Keeps-transaction, Keeps-execute, Keeps-execute_if, Keeps-pure,
  Keeps-throw, Keeps-if,
}
use reward_mservice.Dao.ProjectBudgets.{batch_create}
use reward_mservice.Dao.Finance.{
  create_doc, update_content, update_doc_status, get_by_doc_id, get_project_by_id,
  exists_by_project_id, get_by_pay_address,
}
use reward_mservice.Util.{current_user_id_string, creator_of}
use reward_mservice.IssueRequest.Proofs.Soundness.{IsSound, IsSoundIn, IsSound-IsMonotone}
use reward_mservice.IssueRequest.Proofs.Methods.{frame-IsSound}
use reward_mservice.Finance.Docs.{
  BudgetItem, CreateFinanceDocRequest, UpdateFinanceDocContentRequest, UpdateFinanceDocRequest,
  UpdateFinanceDocResponse, resolve_items, resolve_budget_items, generate_doc_id,
  create_finance_doc, to_finance_doc_vo, load_doc, update_finance_doc, update_finance_doc_status,
  publish_approved, publish_if_approved, approve_finance_doc,
}
use reward_mservice.Finance.Budgets.{to_project_budgets, init_from_approved_doc, skip_existing}
use reward_mservice.Finance.InitSoundness.{Keeps-batch_create, batch_create_grows}

module _ {P : Invariant} where
  Keeps-resolve_items :
      (seen : List Text) (detail : List ApplicationDetailItem) → Keeps P (resolve_items seen detail)
  unfolding resolve_items get_by_pay_address
  Keeps-resolve_items seen [] = Keeps-pure []
  Keeps-resolve_items seen (item ∷ items) =
      search (keeps_rules, λ (s : List Text). Keeps-resolve_items s items) depth 20

  pub Keeps-resolve : (detail : List ApplicationDetailItem) → Keeps P (resolve_budget_items detail)
  unfolding resolve_budget_items
  Keeps-resolve detail = search (keeps_rules, Keeps-resolve_items)

  pub Keeps-load_doc : (doc : Text) → Keeps P (load_doc doc)
  unfolding load_doc get_by_doc_id
  Keeps-load_doc doc = search keeps_rules

  pub Keeps-vo : (doc : FinanceDoc) → Keeps P (to_finance_doc_vo doc)
  unfolding to_finance_doc_vo get_project_by_id
  Keeps-vo doc = search keeps_rules depth 20

  pub Keeps-doc_id : Keeps P generate_doc_id
  unfolding generate_doc_id
  Keeps-doc_id = record { at = λ env w h. h }

  Keeps-creator : (o : Option ℕ) → Keeps P (creator_of o)
  Keeps-creator none = search keeps_rules
  Keeps-creator (some user) = search keeps_rules

  Keeps-user : Keeps P current_user_id_string
  unfolding current_user_id_string
  Keeps-user = search (keeps_rules, Keeps-creator)

  Keeps-publish_approved : (doc : Text) → Keeps P (publish_approved doc)
  unfolding publish_approved publish_finance_doc_approved
  Keeps-publish_approved doc = search (keeps_rules, Keeps-load_doc) depth 20

  pub Keeps-publish_if_approved : (r : UpdateFinanceDocResponse) → Keeps P (publish_if_approved r)
  Keeps-publish_if_approved r =
      Keeps-if (is_doc_status r.status DocStatus.approved) _ (pure tt)
        (Keeps-publish_approved r.doc_id) (Keeps-pure tt)

  pub Keeps-skip : (e : Err) → Keeps P (skip_existing e)
  Keeps-skip budget_already_exists = Keeps-pure tt
  Keeps-skip _ = Keeps-throw _

Keeps-create_doc : (d : FinanceDoc) → Keeps IsSound (create_doc d)
unfolding create_doc
Keeps-create_doc d = Keeps-execute_if _ _ _ (λ t n s met. frame-IsSound _ t n refl refl s)

Keeps-update_content :
    (doc description : Text) (detail : List ApplicationDetailItem)
    → Keeps IsSound (update_content doc description detail)
unfolding update_content
Keeps-update_content doc description detail =
    Keeps-execute _ (λ t n s. frame-IsSound _ t n refl refl s)

Keeps-update_doc_status :
    (doc : Text) (s : DocStatus) (remark : Text) → Keeps IsSound (update_doc_status doc s remark)
unfolding update_doc_status
Keeps-update_doc_status doc to remark = Keeps-execute _ (λ t n s. frame-IsSound _ t n refl refl s)

Keeps-create_finance_doc :
    (body : Option CreateFinanceDocRequest) → Keeps IsSound (create_finance_doc body)
unfolding create_finance_doc get_project_by_id exists_by_project_id
Keeps-create_finance_doc body =
    search (keeps_rules, Keeps-resolve, Keeps-user, Keeps-doc_id, Keeps-create_doc) depth 40

Keeps-update_finance_doc :
    (raw : Text) (body : Option UpdateFinanceDocContentRequest)
    → Keeps IsSound (update_finance_doc raw body)
unfolding update_finance_doc
Keeps-update_finance_doc raw body =
    search (keeps_rules, Keeps-load_doc, Keeps-resolve, Keeps-update_content, Keeps-vo) depth 40

Keeps-update_finance_doc_status :
    (raw : Text) (body : Option UpdateFinanceDocRequest)
    → Keeps IsSound (update_finance_doc_status raw body)
unfolding update_finance_doc_status
Keeps-update_finance_doc_status raw body =
    search (keeps_rules, Keeps-load_doc, Keeps-update_doc_status) depth 40

Keeps-approve_finance_doc :
    (raw : Text) (body : Option UpdateFinanceDocRequest)
    → Keeps IsSound (approve_finance_doc raw body)
unfolding approve_finance_doc
Keeps-approve_finance_doc raw body =
    search (keeps_rules, Keeps-update_finance_doc_status, Keeps-publish_if_approved) depth 40

Keeps-init_budgets :
    (doc : Text) (id : ℕ) (items : List BudgetItem)
    → Keeps IsSound (transaction (batch_create (to_project_budgets doc id items)))
Keeps-init_budgets doc id items =
    Keeps-transaction _ IsSound-IsMonotone (λ bound. batch_create_grows bound doc id items)
      (Keeps-batch_create doc id items)

pub Keeps-init_from_approved_doc : (raw : Text) → Keeps IsSound (init_from_approved_doc raw)
unfolding init_from_approved_doc
Keeps-init_from_approved_doc raw =
    search (keeps_rules, Keeps-load_doc, Keeps-resolve, Keeps-init_budgets, Keeps-skip) depth 40

module _ (env : Env) (w : World) (sound : IsSoundIn w) where
  pub create_finance_doc-IsSound :
      (body : Option CreateFinanceDocRequest) → IsSoundIn (create_finance_doc body env w).1
  create_finance_doc-IsSound body = (Keeps-create_finance_doc body).at env w sound

  pub update_finance_doc-IsSound :
      (raw : Text) (body : Option UpdateFinanceDocContentRequest)
      → IsSoundIn (update_finance_doc raw body env w).1
  update_finance_doc-IsSound raw body = (Keeps-update_finance_doc raw body).at env w sound

  pub update_finance_doc_status-IsSound :
      (raw : Text) (body : Option UpdateFinanceDocRequest)
      → IsSoundIn (update_finance_doc_status raw body env w).1
  update_finance_doc_status-IsSound raw body =
      (Keeps-update_finance_doc_status raw body).at env w sound

  pub approve_finance_doc-IsSound :
      (raw : Text) (body : Option UpdateFinanceDocRequest)
      → IsSoundIn (approve_finance_doc raw body env w).1
  approve_finance_doc-IsSound raw body = (Keeps-approve_finance_doc raw body).at env w sound

  -- `InitFromApprovedDoc` from sound tables leaves them sound, whether it returns or fails: the new
  -- project budgets have new ids and withhold nothing.
  pub init_from_approved_doc-IsSound : (raw : Text) → IsSoundIn (init_from_approved_doc raw env w).1
  init_from_approved_doc-IsSound raw = (Keeps-init_from_approved_doc raw).at env w sound
