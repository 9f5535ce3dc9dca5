-- ===== src/Finance/DocProofs.antt =====
-- The life of a finance doc, and the budget pairs that it asks for.
use reward_mservice.Common.{
  true, false, none, eq_text, to_upper, ◌||◌, Option, some, List, [], ◌∷◌, ◌++◌, Text, codes, ◌≡◌,
  refl, arith, find, Option-cases, inl, inr, trim_space, is_empty,
}
use reward_mservice.Errs.{
  app, wrap, invalid_request, internal_error, invalid_pay_address, duplicate_budget_pair,
}
use reward_mservice.Model.{FinanceDoc, DocStatus, ApplicationDetailItem}
use reward_mservice.World.{
  Tables, World, Env, Result, ok, err, query, execute, throw_if, or_else, require,
}
use reward_mservice.World.Transactions.{Atomic}
use reward_mservice.World.Yields.{
  Value, Yields, Yields-any, Yields-pure, Yields-throw_if, Yields-bind,
}
use reward_mservice.Sql.{update}
use reward_mservice.Dao
use reward_mservice.Dao.Finance.{get_by_doc_id, update_doc_status, get_by_pay_address}
use reward_mservice.Util.{is_one_of}
use reward_mservice.Finance.Docs.{
  BudgetItem, UpdateFinanceDocRequest, UpdateFinanceDocResponse, load_doc, is_doc_transition,
  read_doc_status, update_finance_doc_status, resolve_items, resolve_budget_items, pair_key, is_nil,
}

-- The steps of a finance doc: it is submitted, while it is a draft or rejected, and then approved or
-- rejected.
pub data DocStep : DocStatus → DocStatus → Type 0 where
  submitted : DocStep DocStatus.draft DocStatus.to_approve
  submitted_again : DocStep DocStatus.rejected DocStatus.to_approve
  approval : DocStep DocStatus.to_approve DocStatus.approved
  rejection : DocStep DocStatus.to_approve DocStatus.rejected

is_doc_transition-DocStep : (a b : DocStatus) → is_doc_transition a b ≡ true → DocStep a b
unfolding is_doc_transition
is_doc_transition-DocStep DocStatus.draft DocStatus.to_approve h = submitted
is_doc_transition-DocStep DocStatus.rejected DocStatus.to_approve h = submitted_again
is_doc_transition-DocStep DocStatus.to_approve DocStatus.approved h = approval
is_doc_transition-DocStep DocStatus.to_approve DocStatus.rejected h = rejection
is_doc_transition-DocStep _ _ h = cc

-- The name that a client gives a status.
abbrev pub name_of : DocStatus → Text
name_of DocStatus.draft = codes "DRAFT"
name_of DocStatus.to_approve = codes "TO_APPROVE"
name_of DocStatus.approved = codes "APPROVED"
name_of DocStatus.rejected = codes "REJECTED"

-- The body names the status, in capitals or not and with spaces around it or not.
abbrev pub Asks : Option UpdateFinanceDocRequest → DocStatus → Type 0
Asks body status =
    (req : UpdateFinanceDocRequest) × (body ≡ some req)
    × (eq_text (to_upper (trim_space req.status)) (name_of status) ≡ true)

read_doc_status-name_of :
    (raw : Text) (status : DocStatus)
    → read_doc_status raw ≡ some status
    → eq_text (to_upper (trim_space raw)) (name_of status) ≡ true
unfolding read_doc_status
read_doc_status-name_of raw DocStatus.draft h = absurd (ground arith)
read_doc_status-name_of raw DocStatus.to_approve h = ground arith
read_doc_status-name_of raw DocStatus.approved h = ground arith
read_doc_status-name_of raw DocStatus.rejected h = ground arith

-- The doc with the trimmed id has taken an allowed step to the status of the response.
pub record Stepped (raw : Text) (body : Option UpdateFinanceDocRequest)
    (response : UpdateFinanceDocResponse) (t t' : Tables) : Type 0 where
  pub doc : FinanceDoc
  pub located : find (Dao.Finance.has_doc_id (trim_space raw)) t.finance_docs ≡ some doc
  pub asked : Asks body response.status
  pub allowed : DocStep doc.status response.status
  pub named : response.doc_id ≡ trim_space raw
  pub written : t' ≡ record t {
    finance_docs =
        update
          (Dao.Finance.has_doc_id (trim_space raw))
          (Dao.Finance.set_doc_status response.status response.remark)
          t.finance_docs;
  }

update-Asks :
    (raw : Text) (body : Option UpdateFinanceDocRequest) (env : Env) (w w' : World)
    (response : UpdateFinanceDocResponse)
    → update_finance_doc_status raw body env w ≡ (ok response, w')
    → Asks body response.status
unfolding update_finance_doc_status load_doc get_by_doc_id update_doc_status query execute
update-Asks raw none env w w' response h = absurd (ground arith)
update-Asks raw (some req) env w w' response h =
    (req, refl, read_doc_status-name_of req.status response.status (ground arith))

module _ (raw : Text) (body : Option UpdateFinanceDocRequest) (env : Env) (w : World) where
  case-Atomic :
      (r : Result UpdateFinanceDocResponse) (w' : World)
      → update_finance_doc_status raw body env w ≡ (r, w')
      → Atomic w.tables (λ response t'. Stepped raw body response w.tables t') (r, w')
  unfolding update_finance_doc_status load_doc get_by_doc_id update_doc_status query execute
  case-Atomic (ok response) w' h =
      elim (Option-cases (find (Dao.Finance.has_doc_id (trim_space raw)) w.tables.finance_docs)) [
        | inl absent ↦ absurd (ground arith)
        | inr (doc, found) ↦ record {
          doc = doc;
          located = found;
          asked = update-Asks raw body env w w' response h;
          allowed = is_doc_transition-DocStep doc.status response.status (ground arith);
          named = ground arith;
          written = ground arith;
        }
      ]
  case-Atomic (err e) w' h = ground arith

  -- `UpdateFinanceDocStatus`. If it returns, the doc was in the tables in a status from which the new
  -- one may be reached, and the tables changed only in that its status and remark are those of the
  -- response. If it fails, the tables are the old ones.
  pub update_finance_doc_status-Atomic :
      Atomic w.tables
        (λ response t'. Stepped raw body response w.tables t')
        (update_finance_doc_status raw body env w)
  update_finance_doc_status-Atomic =
      let (r, w') = update_finance_doc_status raw body env w in case-Atomic r w' refl

-- The key of an item's pair.
abbrev pub item_key : BudgetItem → Text
item_key i = i.voucher_type ++ codes ":" ++ i.unit

-- No pair of the items is among `seen`, nor twice among them.
abbrev pub HasNewPairs : List Text → List BudgetItem → Type 0
HasNewPairs seen [] = Unit
HasNewPairs seen (i ∷ items) =
    (is_one_of (item_key i) seen ≡ false) × HasNewPairs (item_key i ∷ seen) items

resolve_items-HasNewPairs :
    (seen : List Text) (detail : List ApplicationDetailItem)
    → Yields (HasNewPairs seen) (resolve_items seen detail)
unfolding resolve_items
resolve_items-HasNewPairs seen [] = Yields-pure [] tt
resolve_items-HasNewPairs seen (item ∷ items) =
    Yields-bind _ _
      (Yields-any (
        throw_if (is_empty (trim_space item.pay_address) || is_empty (trim_space item.amount))
          (app invalid_request)))
      (λ _ _.
        Yields-bind _ _
          (Yields-any
            (or_else (get_by_pay_address (trim_space item.pay_address)) (wrap internal_error)))
          (λ found _.
            Yields-bind _ _ (Yields-any (require found (app invalid_pay_address))) (λ cfg _.
              Yields-bind _ _
                (Yields-throw_if (is_one_of (pair_key cfg) seen) (app duplicate_budget_pair))
                (λ _ new.
                  Yields-bind _ _ (resolve_items-HasNewPairs (pair_key cfg ∷ seen) items)
                    (λ rest others.
                      Yields-pure
                        (record {
                          voucher_type = cfg.voucher_type;
                          unit = cfg.unit;
                          amount = trim_space item.amount;
                        }
                          ∷ rest)
                        (new, others))))))

budget_items :
    (detail : List ApplicationDetailItem) → Yields (HasNewPairs []) (resolve_budget_items detail)
unfolding resolve_budget_items
budget_items detail =
    Yields-bind _ _ (Yields-any (throw_if (is_nil detail) (app invalid_request)))
      (λ _ _. resolve_items-HasNewPairs [] detail)

-- `resolveBudgetItems`: where it returns items, no two of them have the same voucher type and unit,
-- compared as the texts `voucher_type:unit`.
pub resolve_budget_items-HasNewPairs :
    (detail : List ApplicationDetailItem) (env : Env) (w : World)
    → Value (HasNewPairs []) (resolve_budget_items detail env w).0
resolve_budget_items-HasNewPairs detail env w = (budget_items detail).at env w
