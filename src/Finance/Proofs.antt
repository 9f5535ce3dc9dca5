-- ===== src/Finance/Proofs.antt =====
-- What a finance payment writes, and when.
use reward_mservice.Common.{
  ℕ, ℤ, pos, trim_space, ◌+◌, ◌*◌, ◌≤◌, ◌<◌, some, [], ◌∷◌, ◌++◌, Text, ◌≡◌, ◌≢◌, arith, find,
  Option-cases, inl, inr,
}
use reward_mservice.Amount.Limits.{sum-Within}
use reward_mservice.Amount.{
  Rat, round_decimal, Amount, decimal, text, Cmp, greater, add_amount, cmp_amount,
}
use reward_mservice.Model.{ProjectBudget, FinancePayment}
use reward_mservice.World.{Tables, World, Env, ok, query, execute, execute_if, transaction, counted}
use reward_mservice.World.Transactions.{Atomic, transaction-Atomic}
use reward_mservice.Sql.{update}
use reward_mservice.Dao
use reward_mservice.Dao.ProjectBudgets.{lock_by_id, update_total_and_available_amount}
use reward_mservice.Dao.Finance.{create_payment}
use reward_mservice.IssueRequest.Input.{to_column}
use reward_mservice.Finance.Payment.{
  CreatePaymentInput, validate_payment_budget_amount, create_finance_payment_in_tx,
  new_finance_payment,
}

-- What the transaction compared and wrote.
pub record Checked (env : Env) (input : CreatePaymentInput) (payment_id : Text) (budget_id : ℕ)
    (doc_amount : Text) (payment : FinancePayment) (t t' : Tables) : Type 0 where
  pub budget : ProjectBudget
  pub located : find (Dao.ProjectBudgets.has_id budget_id) t.project_budgets ≡ some budget
  pub next : Amount
  pub c : Cmp
  pub added :
      add_amount env.set_string (decimal budget.total_amount) (text input.amount) ≡ some next
  pub compared : cmp_amount env.set_string next (text doc_amount) ≡ some c
  pub within : c ≢ greater
  pub stored : env.column input.amount ≡ some payment.amount
  pub made : payment ≡ new_finance_payment input payment_id payment.amount
  pub written : t' ≡ record t {
    finance_payments = t.finance_payments ++ payment ∷ [];
    project_budgets =
        update
          (Dao.ProjectBudgets.has_id budget.id)
          (Dao.ProjectBudgets.add_total_and_available payment.amount)
          t.project_budgets;
  }

payment_outcome :
    (input : CreatePaymentInput) (payment_id : Text) (budget_id : ℕ) (doc_amount : Text)
    (payment : FinancePayment) (env : Env) (w w' : World)
    → create_finance_payment_in_tx input payment_id budget_id doc_amount env w ≡ (ok payment, w')
    → Checked env input payment_id budget_id doc_amount payment w.tables w'.tables
unfolding create_finance_payment_in_tx lock_by_id query validate_payment_budget_amount to_column
    create_payment update_total_and_available_amount execute execute_if
payment_outcome input payment_id budget_id doc_amount payment env w w' h =
    elim (Option-cases (find (Dao.ProjectBudgets.has_id budget_id) w.tables.project_budgets)) [
      | inl absent ↦ absurd (ground arith)
      | inr (b, eb) ↦
          elim (Option-cases
            (add_amount env.set_string (decimal b.total_amount) (text input.amount))) [
              | inl absent ↦ absurd (ground arith)
              | inr (next, en) ↦
                  elim (Option-cases (cmp_amount env.set_string next (text doc_amount))) [
                    | inl absent ↦ absurd (ground arith)
                    | inr (c, ec) ↦ elim (Option-cases (env.column input.amount)) [
                      | inl absent ↦ absurd (ground arith)
                      | inr (a, ea) ↦ record {
                        budget = b;
                        located = eb;
                        next = next;
                        c = c;
                        added = en;
                        compared = ec;
                        within = λ g. ground arith;
                        stored = ground arith;
                        made = ground arith;
                        written = ground arith;
                      }
                    ]
                  ]
            ]
    ]

-- How a DECIMAL(20, 8) column takes a text that Rat.SetString reads as well: as the same number,
-- rounded to eight decimals, a half away from zero. The denominator of a Rat is above zero.
pub record IsRounding (env : Env) : Type 0 where
  pub at :
      (s : Text) (a : ℤ) (q : Rat) (n : ℕ)
      → env.column s ≡ some a
      → env.set_string (trim_space s) ≡ some q
      → q.num ≡ pos n
      → a ≡ pos (round_decimal n q.den)
  pub den : (s : Text) (q : Rat) → env.set_string s ≡ some q → 0 < q.den

-- The total of the budget, with the payment, is no more than the doc's amount, and was raised by
-- the payment that was added.
pub record Paid (env : Env) (input : CreatePaymentInput) (payment_id : Text) (budget_id : ℕ)
    (doc_amount : Text) (payment : FinancePayment) (t t' : Tables) : Type 0 where
  pub budget : ProjectBudget
  pub located : find (Dao.ProjectBudgets.has_id budget_id) t.project_budgets ≡ some budget
  pub total : ℕ
  pub is_total : budget.total_amount ≡ pos total
  pub amount : ℕ
  pub is_amount : payment.amount ≡ pos amount
  pub limit : Rat
  pub limit_read : env.set_string (trim_space doc_amount) ≡ some limit
  pub limit_num : ℕ
  pub is_limit_num : limit.num ≡ pos limit_num
  -- in units of 10^-8
  pub within : (total + amount) * limit.den ≤ limit_num * 100000000
  pub made : payment ≡ new_finance_payment input payment_id payment.amount
  pub written : t' ≡ record t {
    finance_payments = t.finance_payments ++ payment ∷ [];
    project_budgets =
        update
          (Dao.ProjectBudgets.has_id budget.id)
          (Dao.ProjectBudgets.add_total_and_available payment.amount)
          t.project_budgets;
  }

module _ {env : Env} {input : CreatePaymentInput} {payment_id : Text} {budget_id : ℕ}
    {doc_amount : Text} {payment : FinancePayment} {t t' : Tables} where
  Checked-Paid :
      IsRounding env
      → Checked env input payment_id budget_id doc_amount payment t t'
      → Paid env input payment_id budget_id doc_amount payment t t'
  Checked-Paid rounding seen =
      let sum =
        sum-Within env.set_string seen.budget.total_amount input.amount doc_amount seen.next seen.c
          seen.added seen.compared seen.within in
      record {
        budget = seen.budget;
        located = seen.located;
        total = sum.held;
        is_total = sum.is_held;
        amount = round_decimal sum.num sum.amount.den;
        is_amount = rounding.at input.amount _ sum.amount sum.num seen.stored sum.read sum.is_num;
        limit = sum.bound;
        limit_read = sum.bound_read;
        limit_num = sum.bound_num;
        is_limit_num = sum.is_bound_num;
        within = sum.within (rounding.den _ _ sum.read);
        made = seen.made;
        written = seen.written;
      }

-- The transaction of `createFinancePayment`, where the database rounds a text that it takes as an
-- amount to eight decimals. If it returns, the budget with the id was in the tables, its total with
-- the amount stored for the payment is no more than the doc's amount, and the tables changed only in
-- that the payment was added and in that the budget's total and available amounts rose by the amount
-- of the payment. If it fails, the tables are the old ones.
pub create_finance_payment-Atomic :
    (input : CreatePaymentInput) (payment_id : Text) (budget_id : ℕ) (doc_amount : Text) (env : Env)
    (w : World)
    → IsRounding env
    → Atomic w.tables
        (λ payment t'. Paid env input payment_id budget_id doc_amount payment w.tables t')
        (transaction (create_finance_payment_in_tx input payment_id budget_id doc_amount) env w)
create_finance_payment-Atomic input payment_id budget_id doc_amount env w rounding =
    transaction-Atomic _ _ env w (λ payment w' ran.
      Checked-Paid rounding
        (payment_outcome input payment_id budget_id doc_amount payment env (counted w) w' ran))
