-- ===== src/Reward/Accounts/Moves.antt =====
-- The records of a distribution: made, occupying a budget, and settled.
use reward_mservice.Common.{
  ℕ, ◌+◌, ◌==◌, ==_refl, ℤ, pos, ◌+ℤ◌, ◌-ℤ◌, int_laws, Bool, true, false, ◌&&◌, some, [], ◌∷◌, ◌++◌,
  find, ◌≡◌, refl, ap, ◌∙◌, subst, inl, inr, arith, if◌then◌else◌,
}
use reward_mservice.Model.{ProjectBudget, IssueBudget, RewardRequest, IssueRecord, RecordStatus}
use reward_mservice.World.{Tables}
use reward_mservice.Sql.{update}
use reward_mservice.Sql.Laws.{
  sum_of, sum_of-append, sum_of-update, sum_of-update_same, append-Keyed, append-IsBelow,
  update-Keyed, update-IsBelow, the_row, absent-below, find_sound,
}
use reward_mservice.Sql.Rows.{has_key, find-update_any, All-append, find-append_new, has_row}
use reward_mservice.Dao
use reward_mservice.Reward.Budgets.{Attempt}
use reward_mservice.Reward.Proofs.Outcomes.{Occupied}
use reward_mservice.Reward.Accounts.{
  budget_id, record_id, client_ref, is_pending, points_to, accounted_for, given, under_way,
  IsBalanced, Claims, IsAccounted,
}
use reward_mservice.Reward.Accounts.Rows.{IsAccounted-IsMonotone, frame-IsAccounted}

-- A record that is not pending counts for nothing.
closed_balance :
    (b : Bool) (rec : IssueRecord) (s f f' t : ℤ)
    → is_pending rec ≡ false
    → f' ≡ f +ℤ (if b && is_pending rec then rec.reward_amount else pos 0)
    → s +ℤ f ≡ t
    → s +ℤ f' ≡ t
closed_balance true rec s f f' t h k e = let nothing : f' ≡ f +ℤ pos 0 = rw h at k in grind int_laws
closed_balance false rec s f f' t h k e = grind int_laws

pub closed-IsAccounted :
    (rec : IssueRecord) (t : Tables) (n : ℕ)
    → is_pending rec ≡ false
    → rec.id ≡ n
    → Claims t.reward_requests rec
    → IsAccounted t n
    → IsAccounted (Dao.Rewards.on_records (λ old. old ++ rec ∷ []) t) (n + 1)
unfolding IsBalanced
closed-IsAccounted rec t n closed own claim s =
    let up = IsAccounted-IsMonotone.at t n (n + 1) (omega arith) s in
    record {
      budgets_keyed = s.budgets_keyed;
      budgets_below = up.budgets_below;
      records_keyed =
          append-Keyed record_id t.issue_records rec (rw own s.records_below) s.records_keyed;
      records_below =
          append-IsBelow record_id (n + 1) t.issue_records rec (omega (arith, own))
            up.records_below;
      refs = s.refs;
      claims = All-append _ t.issue_records rec s.claims claim;
      balanced = λ i.
          closed_balance (points_to i rec.issue_request_id) rec _ _ _ _ closed
            (sum_of-append (under_way i) t.issue_records rec) (s.balanced i);
    }

-- The record `rec` of the request `r` is under way, and has taken its amount from the budget.
pub record IsUnderWay (r : RewardRequest) (a : Attempt) (t : Tables) (n : ℕ) : Type 0 where
  pub accounted : IsAccounted t n
  pub recorded :
      find (Dao.Rewards.has_record_id a.issue_record.id) t.issue_records ≡ some a.issue_record
  pub pending : is_pending a.issue_record ≡ true
  pub amount : a.issue_record.reward_amount ≡ r.amount
  pub pointed : a.issue_record.issue_request_id ≡ some a.issue_budget.issue_request_id
  pub budget : IssueBudget
  pub located : find (Dao.IssueBudgets.has_id a.issue_budget.id) t.issue_budgets ≡ some budget
  pub own : budget.issue_request_id ≡ a.issue_budget.issue_request_id

occupy_balance :
    (of : Bool) (s s' f f' t av is rf a : ℤ)
    → s' +ℤ (if of then (av +ℤ is) +ℤ rf else pos 0)
      ≡ s +ℤ (if of then ((av -ℤ a) +ℤ is) +ℤ rf else pos 0)
    → f' ≡ f +ℤ (if of && true then a else pos 0)
    → s +ℤ f ≡ t
    → s' +ℤ f' ≡ t
occupy_balance true s s' f f' t av is rf a h k e = grind int_laws
occupy_balance false s s' f f' t av is rf a h k e = grind int_laws

-- What `preOccupyBudget` puts into the new record.
pub record IsMadeFor (r : RewardRequest) (budget : IssueBudget) (rec : IssueRecord) (n : ℕ)
    : Type 0 where
  pub id : rec.id ≡ n
  pub ref : rec.client_reference_id ≡ r.client_ref_id
  pub amount : rec.reward_amount ≡ r.amount
  pub status : rec.issue_status ≡ RecordStatus.pending
  pub pointed : rec.issue_request_id ≡ some budget.issue_request_id

module _ (r : RewardRequest) (project : ProjectBudget) (budget : IssueBudget) (rec : IssueRecord)
    (t t' : Tables) (n : ℕ) (s : IsAccounted t n)
    (located : find (Dao.IssueBudgets.has_id budget.id) t.issue_budgets ≡ some budget)
    (asked : find (has_key client_ref r.client_ref_id) t.reward_requests ≡ some r)
    (made : IsMadeFor r budget rec n) (o : Occupied project budget r.amount rec t t') where
  abbrev taking : IssueBudget → Bool
  taking = Dao.IssueBudgets.has_id_and_available budget.id r.amount

  taken : find taking t.issue_budgets ≡ some budget
  taken =
      let row = has_row taking t.issue_budgets o.budget_covers in
      let met = find_sound taking t.issue_budgets row.0 row.1 in
      let same =
        the_row budget_id budget.id taking t.issue_budgets budget row.0 s.budgets_keyed located
          row.1 (ground arith) in
      subst (λ b. find taking t.issue_budgets ≡ some b) same row.1

  occupied-IsBalanced :
      (i : ℕ)
      → sum_of
            (accounted_for i)
            (update taking (Dao.IssueBudgets.deduct_available r.amount) t.issue_budgets)
          +ℤ sum_of (under_way i) (t.issue_records ++ rec ∷ [])
        ≡ sum_of
            (given i)
            (update taking (Dao.IssueBudgets.deduct_available r.amount) t.issue_budgets)
  unfolding IsBalanced
  occupied-IsBalanced i =
      let weight : under_way i rec
          ≡ (if (budget.issue_request_id == i) && true then r.amount else pos 0) =
        rw (made.pointed, made.status, made.amount) refl in
      rw
        (sum_of-update_same (given i) taking (Dao.IssueBudgets.deduct_available r.amount)
          t.issue_budgets (λ b met. refl))
        (occupy_balance (budget.issue_request_id == i) _ _ _ _ _ budget.available_amount
          budget.issued_amount budget.refund_amount r.amount
          (sum_of-update (accounted_for i) taking (Dao.IssueBudgets.deduct_available r.amount)
            t.issue_budgets budget taken)
          (sum_of-append (under_way i) t.issue_records rec
            ∙ ap (λ x. sum_of (under_way i) t.issue_records +ℤ x) weight)
          (s.balanced i))

  abbrev after_taking : Tables
  after_taking = record t {
    issue_budgets = update taking (Dao.IssueBudgets.deduct_available r.amount) t.issue_budgets;
    issue_records = t.issue_records ++ rec ∷ [];
  }

  claim : Claims t.reward_requests rec
  claim = record { request = r; found = rw made.ref asked; amount = inr made.amount }

  taken-IsAccounted : IsAccounted after_taking (n + 1)
  unfolding IsBalanced
  taken-IsAccounted =
      let up = IsAccounted-IsMonotone.at t n (n + 1) (omega arith) s in
      record {
        budgets_keyed = update-Keyed budget_id taking _ t.issue_budgets (λ b. refl) s.budgets_keyed;
        budgets_below =
            update-IsBelow budget_id (n + 1) taking _ t.issue_budgets (λ b. refl) up.budgets_below;
        records_keyed =
            append-Keyed record_id t.issue_records rec (rw made.id s.records_below) s.records_keyed;
        records_below =
            append-IsBelow record_id (n + 1) t.issue_records rec (omega (arith, made.id))
              up.records_below;
        refs = s.refs;
        claims = All-append _ t.issue_records rec s.claims claim;
        balanced = occupied-IsBalanced;
      }

  still_located :
      (b : IssueBudget) × (find (Dao.IssueBudgets.has_id budget.id) after_taking.issue_budgets
        ≡ some b)
      × (b.issue_request_id ≡ budget.issue_request_id)
  still_located =
      elim (find-update_any (Dao.IssueBudgets.has_id budget.id) taking
        (Dao.IssueBudgets.deduct_available r.amount) t.issue_budgets budget (λ b. refl) located) [
          | inl same ↦ (budget, same, refl)
          | inr changed ↦ (Dao.IssueBudgets.deduct_available r.amount budget, changed, refl)
        ]

  new_recorded : find (Dao.Rewards.has_record_id rec.id) (t.issue_records ++ rec ∷ []) ≡ some rec
  new_recorded =
      find-append_new (Dao.Rewards.has_record_id rec.id) t.issue_records rec
        (absent-below record_id n rec.id t.issue_records s.records_below (omega (arith, made.id)))
        (==_refl rec.id)

  abbrev occupied_attempt : Attempt
  occupied_attempt = record { project_budget = project; issue_budget = budget; issue_record = rec }

  taken-IsUnderWay : IsUnderWay r occupied_attempt after_taking (n + 1)
  taken-IsUnderWay = record {
    accounted = taken-IsAccounted;
    recorded = new_recorded;
    pending = rw made.status refl;
    amount = made.amount;
    pointed = made.pointed;
    budget = still_located.0;
    located = still_located.1;
    own = still_located.2;
  }

  -- The budgets are occupied: the record is under way.
  pub occupied-IsUnderWay : IsUnderWay r occupied_attempt t' (n + 1)
  occupied-IsUnderWay =
      let frame = taken-IsUnderWay in
      let same_budgets : t'.issue_budgets ≡ after_taking.issue_budgets =
        ap (λ u. u.issue_budgets) o.written in
      let same_records : t'.issue_records ≡ after_taking.issue_records =
        ap (λ u. u.issue_records) o.written in
      let same_requests : t'.reward_requests ≡ t.reward_requests =
        ap (λ u. u.reward_requests) o.written in
      record {
        accounted =
            frame-IsAccounted t' after_taking (n + 1) same_budgets same_records same_requests
              frame.accounted;
        recorded = rw same_records frame.recorded;
        pending = frame.pending;
        amount = frame.amount;
        pointed = frame.pointed;
        budget = frame.budget;
        located = rw same_budgets frame.located;
        own = frame.own;
      }
