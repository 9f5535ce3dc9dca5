-- ===== src/Dao/Finance.antt =====
-- server/repository/dao/finance_doc_dao.go, finance_payment_dao.go, payment_config_dao.go and the
-- lookup of project_dao.go
use reward_mservice.Common.{
  ℕ, ◌==◌, Bool, not, ◌&&◌, ◌||◌, Option, List, [], ◌∷◌, ◌++◌, Text, eq_text, find, select,
}
use reward_mservice.Errs.{driver}
use reward_mservice.Model.{
  FinanceDoc, ApplicationDetailItem, DocStatus, FinancePayment, PaymentConfig, Project,
}
use reward_mservice.World.{Tables, M, query, execute, execute_if}
use reward_mservice.Sql.{update, has}

abbrev pub has_doc_id : Text → FinanceDoc → Bool
has_doc_id doc d = eq_text d.doc_id doc

abbrev pub on_docs : (List FinanceDoc → List FinanceDoc) → Tables → Tables
on_docs f t = record t { finance_docs = f t.finance_docs }

-- The primary key is doc_id, and project_id is unique.
unfoldable pub create_doc : FinanceDoc → M (Unit {0})
create_doc d =
    execute_if
      (λ t.
        not (has (λ e. eq_text e.doc_id d.doc_id || e.project_id == d.project_id) t.finance_docs))
      driver (on_docs (λ old. old ++ d ∷ []))

unfoldable pub get_by_doc_id : Text → M (Option FinanceDoc)
get_by_doc_id doc = query (λ t. find (has_doc_id doc) t.finance_docs)

unfoldable pub exists_by_project_id : ℕ → M Bool
exists_by_project_id project = query (λ t. has (λ d. d.project_id == project) t.finance_docs)

abbrev pub set_doc_status : DocStatus → Text → FinanceDoc → FinanceDoc
set_doc_status s remark d = record d { status = s; remark = remark }

unfoldable pub update_doc_status : Text → DocStatus → Text → M (Unit {0})
update_doc_status doc s remark =
    execute (on_docs (update (has_doc_id doc) (set_doc_status s remark)))

abbrev pub set_content : Text → List ApplicationDetailItem → FinanceDoc → FinanceDoc
set_content description detail d = record d {
  description = description;
  application_detail = detail;
}

unfoldable pub update_content : Text → Text → List ApplicationDetailItem → M (Unit {0})
update_content doc description detail =
    execute (on_docs (update (has_doc_id doc) (set_content description detail)))

-- FinancePaymentDao

abbrev pub on_payments : (List FinancePayment → List FinancePayment) → Tables → Tables
on_payments f t = record t { finance_payments = f t.finance_payments }

-- The primary key is payment_id.
unfoldable pub create_payment : FinancePayment → M (Unit {0})
create_payment p =
    execute_if (λ t. not (has (λ q. eq_text q.payment_id p.payment_id) t.finance_payments)) driver
      (on_payments (λ old. old ++ p ∷ []))

unfoldable pub get_by_payment_id_and_doc_id : Text → Text → M (Option FinancePayment)
get_by_payment_id_and_doc_id payment doc = query (λ t.
    find (λ p. eq_text p.payment_id payment && eq_text p.finance_doc_id doc) t.finance_payments)

unfoldable pub list_by_doc_id : Text → M (List FinancePayment)
list_by_doc_id doc = query (λ t. select (λ p. eq_text p.finance_doc_id doc) t.finance_payments)

-- PaymentConfigDao

unfoldable pub get_by_pay_address : Text → M (Option PaymentConfig)
get_by_pay_address address =
    query (λ t. find (λ c. eq_text c.pay_address address) t.payment_configs)

unfoldable pub list_all : M (List PaymentConfig)
list_all = query (λ t. t.payment_configs)

-- ProjectDao

unfoldable pub get_project_by_id : ℕ → M (Option Project)
get_project_by_id i = query (λ t. find (λ p. p.id == i) t.projects)
