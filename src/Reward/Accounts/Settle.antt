-- ===== src/Reward/Accounts/Settle.antt =====
-- The settlement of a distribution on tables whose accounts are in order.
use reward_mservice.Common.{
  ℕ, ◌==◌, ℤ, pos, ◌+ℤ◌, int_laws, Bool, true, false, ◌&&◌, none, some, List, [], ◌∷◌, ◌≡◌, refl,
  sym, ap, ◌∙◌, subst, inl, arith, if◌then◌else◌,
}
use reward_mservice.Model.{IssueBudget, RewardRequest, RewardStatus, IssueRecord}
use reward_mservice.World.{Tables}
use reward_mservice.Sql.{update, has}
use reward_mservice.Sql.Laws.{
  sum_of-update, sum_of-update_same, update-Keyed, update-IsBelow, has-find,
}
use reward_mservice.Sql.Rows.{All-find, All-update}
use reward_mservice.Dao
use reward_mservice.Reward.Budgets.{Outcome, apply_issue_record_outcome, Attempt}
use reward_mservice.Reward.Proofs.Outcomes.{Finalized, credit_issue, saved}
use reward_mservice.Reward.Accounts.{
  budget_id, record_id, is_pending, points_to, accounted_for, given, under_way, IsBalanced, Claims,
  IsAccounted,
}
use reward_mservice.Reward.Accounts.Rows.{frame-IsAccounted, status-IsAccounted}
use reward_mservice.Reward.Accounts.Moves.{IsUnderWay}

settle_balance :
    (of : Bool) (s s' f f' t old new z a : ℤ)
    → s' +ℤ (if of then old else pos 0) ≡ s +ℤ (if of then new else pos 0)
    → new ≡ old +ℤ a
    → f' +ℤ (if of && true then a else pos 0) ≡ f +ℤ z
    → z ≡ pos 0
    → s +ℤ f ≡ t
    → s' +ℤ f' ≡ t
settle_balance true s s' f f' t old new z a h c k ez e = grind int_laws
settle_balance false s s' f f' t old new z a h c k ez e = grind int_laws

abbrev sum_all : IssueBudget → ℤ
sum_all b = (b.available_amount +ℤ b.issued_amount) +ℤ b.refund_amount

credited : (o : Outcome) (a : ℤ) (b : IssueBudget) → sum_all (credit_issue o a b) ≡ sum_all b +ℤ a
credited none a b = omega int_laws
credited (some reason) a b = omega int_laws

module _ (o : Outcome) (a : ℤ) where
  credit-id : (b : IssueBudget) → (credit_issue o a b).id ≡ b.id
  credit-id b = elim o as (λ o. (credit_issue o a b).id ≡ b.id) [ none ↦ refl | some reason ↦ refl ]

  credit-request : (b : IssueBudget) → (credit_issue o a b).issue_request_id ≡ b.issue_request_id
  credit-request b = elim o as (λ o. (credit_issue o a b).issue_request_id ≡ b.issue_request_id) [
    | none ↦ refl
    | some reason ↦ refl
  ]

  credit-given : (i : ℕ) (b : IssueBudget) → given i (credit_issue o a b) ≡ given i b
  credit-given i b = elim o as (λ o. given i (credit_issue o a b) ≡ given i b) [
    | none ↦ refl
    | some reason ↦ refl
  ]

-- What the outcome leaves of a record.
pub record IsClosed (rec done : IssueRecord) : Type 0 where
  pub id : done.id ≡ rec.id
  pub ref : done.client_reference_id ≡ rec.client_reference_id
  pub closed : is_pending done ≡ false

pub done-IsClosed :
    (rec : IssueRecord) (a : ℤ) (o : Outcome) → IsClosed rec (apply_issue_record_outcome rec a o)
unfolding apply_issue_record_outcome
done-IsClosed rec a none = record { id = refl; ref = refl; closed = refl }
done-IsClosed rec a (some reason) = record { id = refl; ref = refl; closed = refl }

closed_weight :
    (b : Bool) (rec : IssueRecord)
    → is_pending rec ≡ false
    → (if b && is_pending rec then rec.reward_amount else pos 0) ≡ pos 0
closed_weight true rec h = rw h refl
closed_weight false rec h = refl

update_cong :
    {R : Type 0} (p : R → Bool) (f g : R → R) (rows : List R)
    → ((r : R) → p r ≡ true → f r ≡ g r)
    → update p f rows ≡ update p g rows
unfolding update
update_cong p f g [] h = refl
update_cong p f g (x ∷ rows) h = ground (arith, h x, update_cong p f g rows h)

module _ (r : RewardRequest) (a : Attempt) (project_id : ℕ) (o : Outcome) (done : IssueRecord)
    (t : Tables) (n : ℕ) (u : IsUnderWay r a t n) (c : IsClosed a.issue_record done) where
  abbrev this_record : IssueRecord → Bool
  this_record = Dao.Rewards.has_record_id a.issue_record.id

  -- `done` with the row's own id, which is the same.
  abbrev written : IssueRecord → IssueRecord
  written x = record done { id = x.id }

  saved-update : saved done t.issue_records ≡ update this_record written t.issue_records
  saved-update =
      let met = has-find this_record t.issue_records a.issue_record u.recorded in
      let there : has (Dao.Rewards.has_record_id done.id) t.issue_records ≡ true = rw c.id met in
      rw there (
        subst
          (λ k.
            update (Dao.Rewards.has_record_id k) (λ _. done) t.issue_records
            ≡ update this_record written t.issue_records)
          (sym c.id)
          (update_cong this_record (λ _. done) written t.issue_records
            (λ x same.
              let own : x.id ≡ a.issue_record.id = ground arith in
              ap (λ k. record done { id = k }) (c.id ∙ sym own))))

  abbrev crediting : IssueBudget → IssueBudget
  crediting = credit_issue o r.amount

  abbrev this_budget : IssueBudget → Bool
  this_budget = Dao.IssueBudgets.has_id a.issue_budget.id

  abbrev settled : Tables
  settled = record t {
    issue_budgets = update this_budget crediting t.issue_budgets;
    issue_records = update this_record written t.issue_records;
  }

  settled-IsBalanced : (i : ℕ) → IsBalanced i settled
  unfolding IsBalanced
  settled-IsBalanced i =
      let weight : under_way i a.issue_record
          ≡ (if (u.budget.issue_request_id == i) && true then r.amount else pos 0) =
        rw (u.pointed, u.pending, u.amount, u.own) refl in
      let flight =
        sum_of-update (under_way i) this_record written t.issue_records a.issue_record u.recorded in
      let funds =
        sum_of-update (accounted_for i) this_budget crediting t.issue_budgets u.budget u.located in
      rw
        (sum_of-update_same (given i) this_budget crediting t.issue_budgets
          (λ b met. credit-given o r.amount i b))
        (settle_balance (u.budget.issue_request_id == i) _ _ _ _ _ (sum_all u.budget)
          (sum_all (crediting u.budget)) _ r.amount
          (rw (credit-request o r.amount u.budget) at funds) (credited o r.amount u.budget)
          (rw weight at flight)
          (closed_weight (points_to i done.issue_request_id) (written a.issue_record) c.closed)
          (u.accounted.balanced i))

  done_claim : (x : IssueRecord) → Claims t.reward_requests (written x)
  done_claim x =
      let old =
        All-find (Claims t.reward_requests) this_record t.issue_records a.issue_record
          u.accounted.claims u.recorded in
      record { request = old.request; found = rw c.ref old.found; amount = inl c.closed }

  settled-IsAccounted : IsAccounted settled n
  settled-IsAccounted =
      let s = u.accounted in
      record {
        budgets_keyed =
            update-Keyed budget_id this_budget crediting t.issue_budgets (credit-id o r.amount)
              s.budgets_keyed;
        budgets_below =
            update-IsBelow budget_id n this_budget crediting t.issue_budgets (credit-id o r.amount)
              s.budgets_below;
        records_keyed =
            update-Keyed record_id this_record written t.issue_records (λ x. refl) s.records_keyed;
        records_below =
            update-IsBelow record_id n this_record written t.issue_records (λ x. refl)
              s.records_below;
        refs = s.refs;
        claims =
            All-update (Claims t.reward_requests) this_record written t.issue_records
              (λ x met old. done_claim x) s.claims;
        balanced = settled-IsBalanced;
      }

  -- The request is completed.
  pub outcome-IsAccounted :
      (t' : Tables) → Finalized r done project_id a.issue_budget.id o t t' → IsAccounted t' n
  outcome-IsAccounted t' f =
      let p = Dao.Rewards.has_id_and_status r.id RewardStatus.pending in
      let completed = status-IsAccounted p RewardStatus.completed settled n settled-IsAccounted in
      frame-IsAccounted t'
        (Dao.Rewards.on_requests (update p (Dao.Rewards.set_status RewardStatus.completed)) settled)
        n (ap (λ u. u.issue_budgets) f.written) (ap (λ u. u.issue_records) f.written ∙ saved-update)
        (ap (λ u. u.reward_requests) f.written) completed
