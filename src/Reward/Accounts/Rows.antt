-- ===== src/Reward/Accounts/Rows.antt =====
-- The statements of a distribution on tables whose accounts are in order.
use reward_mservice.Common.{
  ℕ, ◌+◌, ◌==◌, ℤ, pos, ◌+ℤ◌, int_laws, Bool, true, false, none, List, [], ◌∷◌, ◌++◌, find, ◌≡◌,
  refl, inl, inr, arith, if◌then◌else◌,
}
use reward_mservice.Model.{IssueBudget, RewardRequest, RewardStatus, IssueRecord}
use reward_mservice.World.{Tables}
use reward_mservice.World.Keeps.{IsMonotone}
use reward_mservice.Sql.{update}
use reward_mservice.Sql.Laws.{sum_of-append, IsBelow-mono, append-Keyed, append-IsBelow}
use reward_mservice.Sql.Rows.{
  has_key, append-TextKeyed, update-TextKeyed, find-append, find-update_any, All-map,
}
use reward_mservice.Dao
use reward_mservice.Reward.Accounts.{
  budget_id, record_id, client_ref, accounted_for, given, IsBalanced, Claims, IsAccounted,
}

pub IsAccounted-IsMonotone : IsMonotone IsAccounted
IsAccounted-IsMonotone = record {
  at = λ t m n l s. record {
    budgets_keyed = s.budgets_keyed;
    budgets_below = IsBelow-mono budget_id m n t.issue_budgets l s.budgets_below;
    records_keyed = s.records_keyed;
    records_below = IsBelow-mono record_id m n t.issue_records l s.records_below;
    refs = s.refs;
    claims = s.claims;
    balanced = s.balanced;
  };
}

-- A change of other tables.
pub frame-IsAccounted :
    (u t : Tables) (n : ℕ)
    → u.issue_budgets ≡ t.issue_budgets
    → u.issue_records ≡ t.issue_records
    → u.reward_requests ≡ t.reward_requests
    → IsAccounted t n
    → IsAccounted u n
unfolding IsBalanced
frame-IsAccounted u t n b r q s = record {
  budgets_keyed = rw b s.budgets_keyed;
  budgets_below = rw b s.budgets_below;
  records_keyed = rw r s.records_keyed;
  records_below = rw r s.records_below;
  refs = rw q s.refs;
  claims = rw (r, q) s.claims;
  balanced = λ i. rw (b, r) (s.balanced i);
}

fund_balance :
    (of : Bool) (s s' f t t' av is rf a : ℤ)
    → s' ≡ s +ℤ (if of then (av +ℤ is) +ℤ rf else pos 0)
    → t' ≡ t +ℤ (if of then a else pos 0)
    → av ≡ a
    → is ≡ pos 0
    → rf ≡ pos 0
    → s +ℤ f ≡ t
    → s' +ℤ f ≡ t'
fund_balance true s s' f t t' av is rf a h k ea ei er e = grind int_laws
fund_balance false s s' f t t' av is rf a h k ea ei er e = grind int_laws

-- A budget that is new: all that it was given is available.
pub record IsFresh (b : IssueBudget) : Type 0 where
  pub available : b.available_amount ≡ b.total_amount
  pub issued : b.issued_amount ≡ pos 0
  pub refunded : b.refund_amount ≡ pos 0

pub fund-IsAccounted :
    (b : IssueBudget) (t : Tables) (n : ℕ)
    → IsFresh b
    → IsAccounted t n
    → IsAccounted (Dao.IssueBudgets.on_budgets (λ old. old ++ (record b { id = n }) ∷ []) t) (n + 1)
unfolding IsBalanced
fund-IsAccounted b t n fresh s =
    let new : IssueBudget = record b { id = n } in
    let up = IsAccounted-IsMonotone.at t n (n + 1) (omega arith) s in
    record {
      budgets_keyed = append-Keyed budget_id t.issue_budgets new s.budgets_below s.budgets_keyed;
      budgets_below =
          append-IsBelow budget_id (n + 1) t.issue_budgets new (omega arith) up.budgets_below;
      records_keyed = s.records_keyed;
      records_below = up.records_below;
      refs = s.refs;
      claims = s.claims;
      balanced = λ i.
          fund_balance (b.issue_request_id == i) _ _ _ _ _ _ _ _ _
            (sum_of-append (accounted_for i) t.issue_budgets new)
            (sum_of-append (given i) t.issue_budgets new) fresh.available fresh.issued
            fresh.refunded (s.balanced i);
    }

-- What a claim rests on is not lost by an INSERT.
Claims-append :
    (requests more : List RewardRequest) (rec : IssueRecord)
    → Claims requests rec
    → Claims (requests ++ more) rec
Claims-append requests more rec c = record {
  request = c.request;
  found = find-append _ requests more c.request c.found;
  amount = c.amount;
}

Claims-status :
    (p : RewardRequest → Bool) (to : RewardStatus) (requests : List RewardRequest)
    (rec : IssueRecord)
    → Claims requests rec
    → Claims (update p (Dao.Rewards.set_status to) requests) rec
Claims-status p to requests rec c =
    elim (find-update_any (has_key client_ref rec.client_reference_id) p (Dao.Rewards.set_status to)
      requests c.request (λ s. refl) c.found) [
        | inl same ↦ record { request = c.request; found = same; amount = c.amount }
        | inr changed ↦ record {
          request = Dao.Rewards.set_status to c.request;
          found = changed;
          amount = c.amount;
        }
      ]

pub request-IsAccounted :
    (r : RewardRequest) (t : Tables) (n : ℕ)
    → find (has_key client_ref r.client_ref_id) t.reward_requests ≡ none
    → IsAccounted t n
    → IsAccounted (Dao.Rewards.on_requests (λ old. old ++ r ∷ []) t) n
unfolding IsBalanced
request-IsAccounted r t n new s = record {
  budgets_keyed = s.budgets_keyed;
  budgets_below = s.budgets_below;
  records_keyed = s.records_keyed;
  records_below = s.records_below;
  refs = append-TextKeyed client_ref t.reward_requests r s.refs new;
  claims =
      All-map _ _ t.issue_records (λ rec c. Claims-append t.reward_requests (r ∷ []) rec c)
        s.claims;
  balanced = s.balanced;
}

pub status-IsAccounted :
    (p : RewardRequest → Bool) (to : RewardStatus) (t : Tables) (n : ℕ)
    → IsAccounted t n
    → IsAccounted (Dao.Rewards.on_requests (update p (Dao.Rewards.set_status to)) t) n
unfolding IsBalanced
status-IsAccounted p to t n s = record {
  budgets_keyed = s.budgets_keyed;
  budgets_below = s.budgets_below;
  records_keyed = s.records_keyed;
  records_below = s.records_below;
  refs =
      update-TextKeyed client_ref p (Dao.Rewards.set_status to) t.reward_requests (λ r. refl)
        s.refs;
  claims =
      All-map _ _ t.issue_records (λ rec c. Claims-status p to t.reward_requests rec c) s.claims;
  balanced = s.balanced;
}
