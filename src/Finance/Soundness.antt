-- ===== src/Finance/Soundness.antt =====
-- A finance payment leaves the project budgets sound.
use reward_mservice.Common.{ℕ, ℤ, Option, Text, refl}
use reward_mservice.Model.{FinancePayment}
use reward_mservice.World.{World, Env, transaction}
use reward_mservice.World.Keeps.{
  Invariant, Keeps, keeps_rules, Above, Keeps-transaction, Keeps-execute, Keeps-execute_if,
}
use reward_mservice.Dao.ProjectBudgets.{
  has_id, add_total_and_available, lock_by_id, update_total_and_available_amount,
  get_by_doc_id_voucher_type_unit,
}
use reward_mservice.Dao.Finance.{create_payment, get_by_doc_id, get_by_pay_address}
use reward_mservice.IssueRequest.Input.{to_column}
use reward_mservice.IssueRequest.Proofs.Soundness.{IsSound, IsSoundIn, IsSound-IsMonotone}
use reward_mservice.IssueRequest.Proofs.Methods.{frame-IsSound}
use reward_mservice.Reward.Proofs.Soundness.{columns-IsSound}
use reward_mservice.Finance.Payment.{
  CreatePaymentInput, CreateFinancePaymentRequest, parse_create_payment_input,
  load_approved_finance_doc, validate_payment_budget_amount, create_finance_payment_in_tx,
  generate_payment_id, create_finance_payment,
}

module _ {P : Invariant} (paid : (p : FinancePayment) → Keeps P (create_payment p))
    (raised : (i : ℕ) (a : ℤ) → Keeps P (update_total_and_available_amount i a)) where
  pub Keeps-in_tx :
      (input : CreatePaymentInput) (payment_id : Text) (budget_id : ℕ) (doc_amount : Text)
      → Keeps P (create_finance_payment_in_tx input payment_id budget_id doc_amount)
  unfolding create_finance_payment_in_tx lock_by_id validate_payment_budget_amount to_column
  Keeps-in_tx input payment_id budget_id doc_amount = search (keeps_rules, paid, raised) depth 30

Keeps-paid : (p : FinancePayment) → Keeps IsSound (create_payment p)
unfolding create_payment
Keeps-paid p = Keeps-execute_if _ _ _ (λ t n s met. frame-IsSound _ t n refl refl s)

Keeps-raised : (i : ℕ) (a : ℤ) → Keeps IsSound (update_total_and_available_amount i a)
unfolding update_total_and_available_amount
Keeps-raised i a = Keeps-execute _ (λ t n s.
    columns-IsSound (has_id i) (add_total_and_available a) t n (λ b. refl) (λ p v u b. refl) s)

module _ (bound : ℕ) where
  paid_grows : (p : FinancePayment) → Keeps (Above bound) (create_payment p)
  unfolding create_payment
  paid_grows p = Keeps-execute_if _ _ _ (λ t n h met. h)

  raised_grows : (i : ℕ) (a : ℤ) → Keeps (Above bound) (update_total_and_available_amount i a)
  unfolding update_total_and_available_amount
  raised_grows i a = Keeps-execute _ (λ t n h. h)

Keeps-transaction_of :
    (input : CreatePaymentInput) (payment_id : Text) (budget_id : ℕ) (doc_amount : Text)
    → Keeps IsSound
        (transaction (create_finance_payment_in_tx input payment_id budget_id doc_amount))
Keeps-transaction_of input payment_id budget_id doc_amount =
    Keeps-transaction _ IsSound-IsMonotone
      (λ bound.
        Keeps-in_tx (paid_grows bound) (raised_grows bound) input payment_id budget_id doc_amount)
      (Keeps-in_tx Keeps-paid Keeps-raised input payment_id budget_id doc_amount)

pub Keeps-payment_id : {P : Invariant} → Keeps P generate_payment_id
unfolding generate_payment_id
Keeps-payment_id = record { at = λ env w h. h }

Keeps-create_finance_payment :
    (doc_id : Text) (body : Option CreateFinancePaymentRequest)
    → Keeps IsSound (create_finance_payment doc_id body)
unfolding create_finance_payment parse_create_payment_input load_approved_finance_doc
    validate_payment_budget_amount get_by_doc_id get_by_pay_address get_by_doc_id_voucher_type_unit
Keeps-create_finance_payment doc_id body =
    search (keeps_rules, Keeps-transaction_of, Keeps-payment_id) depth 60

-- `CreateFinancePayment` from sound tables leaves them sound, whether it returns or fails.
pub create_finance_payment-IsSound :
    (env : Env) (w : World)
    → IsSoundIn w
    → (doc_id : Text) (body : Option CreateFinancePaymentRequest)
    → IsSoundIn (create_finance_payment doc_id body env w).1
create_finance_payment-IsSound env w sound doc_id body =
    (Keeps-create_finance_payment doc_id body).at env w sound
