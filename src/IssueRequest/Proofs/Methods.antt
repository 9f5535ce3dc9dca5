-- ===== src/IssueRequest/Proofs/Methods.antt =====
-- Every method of server/service/issue_request.go keeps the budgets backed, also where it fails.
use reward_mservice.Common.{ℕ, Option, none, some, Text, ◌≡◌, refl, arith}
use reward_mservice.Model.{IssueRequest, RequestStatus, is_request_status, IssueBudget}
use reward_mservice.Errs.{Err, issue_budget_already_exists}
use reward_mservice.World.{Tables, transaction, rescue, pure}
use reward_mservice.World.Keeps.{
  Invariant, Keeps, keeps_rules, Above, Above-IsMonotone, Keeps-transaction, Keeps-execute,
  Keeps-execute_if, Keeps-new_ids, Keeps-if, Keeps-bind, Keeps-query, Keeps-pure, Keeps-throw,
  Keeps-rescue,
}
use reward_mservice.Sql.{update}
use reward_mservice.Sql.Laws.{sum_of, sum_of-update_same}
use reward_mservice.Dao.IssueRequests.{
  has_id_and_status, set_ongoing, on_requests, mark_ongoing, get_by_id_for_update,
}
use reward_mservice.Dao.IssueBudgets.{create as create_budget}
use reward_mservice.IssueRequest.Service.Tx.{
  init_issue_budget_in_tx, new_issue_budget, init_approved, ignore_existing, init_locked,
}
use reward_mservice.IssueRequest.Proofs.Backing.{IsBacked, waiting}
use reward_mservice.IssueRequest.Proofs.Soundness.{IsSound, IsSound-IsMonotone}

-- A change of the requests after which the same amounts wait.
pub requests-IsSound :
    (f : Tables → Tables) (t : Tables) (n : ℕ)
    → (f t).project_budgets ≡ t.project_budgets
    → ((project : ℕ) (voucher unit : Text)
        → sum_of (waiting project voucher unit) (f t).issue_requests
          ≡ sum_of (waiting project voucher unit) t.issue_requests)
    → IsSound t n
    → IsSound (f t) n
unfolding IsBacked
requests-IsSound f t n same waits s = record {
  keyed = rw same s.keyed;
  below = rw same s.below;
  backed =
      λ project voucher unit. rw (same, waits project voucher unit) (s.backed project voucher unit);
}

Keeps-mark_ongoing : (i : ℕ) → Keeps IsSound (mark_ongoing i)
unfolding mark_ongoing
Keeps-mark_ongoing i = Keeps-execute _ (λ t n.
    requests-IsSound (on_requests (update (has_id_and_status i RequestStatus.approved) set_ongoing))
      t n refl
      (λ project voucher unit.
        sum_of-update_same (waiting project voucher unit) _ set_ongoing t.issue_requests
          (λ r met. ground arith)))

-- A change of other tables.
pub frame-IsSound :
    (u t : Tables) (n : ℕ)
    → u.project_budgets ≡ t.project_budgets
    → u.issue_requests ≡ t.issue_requests
    → IsSound t n
    → IsSound u n
unfolding IsBacked
frame-IsSound u t n p r s = record {
  keyed = rw p s.keyed;
  below = rw p s.below;
  backed = λ project voucher unit. rw (p, r) (s.backed project voucher unit);
}

Keeps-create_budget : (b : IssueBudget) → Keeps IsSound (create_budget b)
unfolding create_budget
Keeps-create_budget b =
    search (keeps_rules, Keeps-new_ids, IsSound-IsMonotone, Keeps-execute_if, frame-IsSound) depth
      20

module _ {P : Invariant} where
  Keeps-ignore : (e : Err) → Keeps P (ignore_existing e)
  Keeps-ignore issue_budget_already_exists = Keeps-pure tt
  Keeps-ignore _ = Keeps-throw _

  module _ (made : (r : IssueRequest) → Keeps P (create_budget (new_issue_budget r)))
      (marked : (i : ℕ) → Keeps P (mark_ongoing i)) where
    Keeps-init_approved : (r : IssueRequest) → Keeps P (init_approved r)
    Keeps-init_approved r =
        Keeps-bind (rescue (create_budget (new_issue_budget r)) ignore_existing) _
          (Keeps-rescue _ _ (made r) Keeps-ignore) (λ _. marked r.id)

    Keeps-init_locked : (found : Option IssueRequest) → Keeps P (init_locked found)
    Keeps-init_locked none = Keeps-pure tt
    Keeps-init_locked (some r) =
        Keeps-if (is_request_status r.request_status RequestStatus.approved) (init_approved r)
          (pure tt) (Keeps-init_approved r) (Keeps-pure tt)

    -- The body of `initIssueBudget` keeps what its two writes keep.
    pub Keeps-init : (i : ℕ) → Keeps P (init_issue_budget_in_tx i)
    unfolding init_issue_budget_in_tx get_by_id_for_update
    Keeps-init i = Keeps-bind _ init_locked (Keeps-query _) Keeps-init_locked

module _ (bound : ℕ) where
  create_budget_grows : (b : IssueBudget) → Keeps (Above bound) (create_budget b)
  unfolding create_budget
  create_budget_grows b =
      search (keeps_rules, Keeps-new_ids, Above-IsMonotone, Keeps-execute_if) depth 20

  mark_ongoing_grows : (i : ℕ) → Keeps (Above bound) (mark_ongoing i)
  unfolding mark_ongoing
  mark_ongoing_grows i = search (keeps_rules, Keeps-execute)

pub Keeps-init_issue_budget : (i : ℕ) → Keeps IsSound (transaction (init_issue_budget_in_tx i))
Keeps-init_issue_budget i =
    Keeps-transaction (init_issue_budget_in_tx i) IsSound-IsMonotone
      (λ bound. Keeps-init (λ r. create_budget_grows bound _) (mark_ongoing_grows bound) i)
      (Keeps-init (λ r. Keeps-create_budget _) Keeps-mark_ongoing i)
