-- ===== src/IssueRequest/Life/Proofs.antt =====
-- The statements and the methods of the issue requests follow their life.
use reward_mservice.Common.{
  ℕ, ℤ, ◌==◌, Bool, true, not, Bool-cases, some, List, [], ◌∷◌, ◌++◌, Text, find, ◌≡◌, refl, sym,
  ap, ◌∙◌, subst, arith, ◌⊎◌, inl, inr,
}
use reward_mservice.Model.{IssueRequest, RequestStatus, is_request_status}
use reward_mservice.World.{Tables, M, deref, ◌>>=◌, ◌>>◌}
use reward_mservice.Amount.{decimal}
use reward_mservice.World.Keeps.{
  Keeps, keeps_rules, IsMonotone, Keeps-execute, Keeps-execute_if, Keeps-new_ids, Keeps-bind,
  Keeps-query, Keeps-require, Keeps-guard,
}
use reward_mservice.Sql.{update}
use reward_mservice.Sql.Laws.{find_sound}
use reward_mservice.Sql.Rows.{find-append}
use reward_mservice.Dao.IssueRequests.{
  has_id, has_id_and_status, set_fields, set_status, set_ongoing, on_requests, create,
  update_status_in_tx, mark_ongoing, get_by_id_for_update,
}
use reward_mservice.Dao.IssueBudgets.{create as create_budget}
use reward_mservice.Dao.ProjectBudgets.{
  lock_by_id, get_by_project_id_voucher_type_unit, apply_submit_withhold, apply_approve_issued,
  apply_reject_release,
}
use reward_mservice.IssueRequest.Input.{
  is_transition, validate_issue_request_transition, ensure_available_gte, ensure_withhold_gte,
}
use reward_mservice.IssueRequest.Service.Tx.{
  lock_project_budget, submit_issue_request_in_tx, approve_issue_request_in_tx,
  reject_issue_request_in_tx, new_issue_budget,
}
use reward_mservice.IssueRequest.Proofs.Handlers.{IsEditable}
use reward_mservice.IssueRequest.Life.{Step, edited, moved, begun, Lives, goes_on}

status_sound : (a b : RequestStatus) → is_request_status a b ≡ true → a ≡ b
status_sound a b h = ground arith

-- A row that an UPDATE changes is one that it meets.
find-update_met :
    {R : Type 0} (p q : R → Bool) (f : R → R) (rows : List R) (r : R)
    → ((s : R) → p (f s) ≡ p s)
    → find p rows ≡ some r
    → (find p (update q f rows) ≡ some r) ⊎ ((q r ≡ true) × (find p (update q f rows) ≡ some (f r)))
unfolding update find
find-update_met p q f [] r keep h = cc
find-update_met p q f (x ∷ rows) r keep h = elim (Bool-cases (q x)) [
  | inl met ↦ ground (arith, keep x)
  | inr missed ↦ ground (arith, find-update_met p q f rows r keep)
]

-- The request with the id `i`, once `first`, lives on.
pub record IsAlive (i : ℕ) (first : IssueRequest) (t : Tables) (n : ℕ) : Type 0 where
  pub now : IssueRequest
  pub found : find (has_id i) t.issue_requests ≡ some now
  pub life : Lives first now

module _ (i : ℕ) (first : IssueRequest) where
  step-IsAlive :
      (q : IssueRequest → Bool) (f : IssueRequest → IssueRequest) (t : Tables) (n : ℕ)
      → ((r : IssueRequest) → (f r).id ≡ r.id)
      → ((r : IssueRequest) → find (has_id i) t.issue_requests ≡ some r → q r ≡ true → Step r (f r))
      → IsAlive i first t n
      → IsAlive i first (on_requests (update q f) t) n
  step-IsAlive q f t n keep steps a =
      elim (find-update_met (has_id i) q f t.issue_requests a.now (λ r. ap (λ k. k == i) (keep r))
        a.found) [
          | inl same ↦ record { now = a.now; found = same; life = a.life }
          | inr changed ↦ record {
            now = f a.now;
            found = changed.1;
            life = goes_on a.life (steps a.now a.found changed.0);
          }
        ]

  pub IsAlive-IsMonotone : IsMonotone (IsAlive i first)
  IsAlive-IsMonotone = record {
    at = λ t m n l a. record { now = a.now; found = a.found; life = a.life };
  }

  pub frame-IsAlive :
      (u t : Tables) (n : ℕ)
      → u.issue_requests ≡ t.issue_requests
      → IsAlive i first t n
      → IsAlive i first u n
  frame-IsAlive u t n same a = record { now = a.now; found = rw same a.found; life = a.life }

  Keeps-status :
      (j : ℕ) (from to : RequestStatus) (remark : Text)
      → is_transition from to ≡ true
      → Keeps (IsAlive i first) (update_status_in_tx j from to remark)
  unfolding update_status_in_tx
  Keeps-status j from to remark allowed = Keeps-execute_if _ _ _ (λ t n a met.
      step-IsAlive (has_id_and_status j from) (set_status to remark) t n (λ r. refl)
        (λ r found q.
          let same : r.request_status ≡ from =
            status_sound r.request_status from (ground (arith, q)) in
          moved to remark (subst (λ s. is_transition s to ≡ true) (sym same) allowed))
        a)

  -- A submit, once the status has been checked.
  rest_of_submit : IssueRequest → Text → M (Unit {0})
  rest_of_submit locked remark = do
    budget_found ← lock_project_budget locked.project_id locked.voucher_type locked.unit
    budget ← deref budget_found
    ensure_available_gte budget.available_amount (decimal locked.amount)
    update_status_in_tx locked.id locked.request_status RequestStatus.to_approve remark
    apply_submit_withhold budget.id locked.amount

  Keeps-rest :
      (locked : IssueRequest) (remark : Text)
      → is_transition locked.request_status RequestStatus.to_approve ≡ true
      → Keeps (IsAlive i first) (rest_of_submit locked remark)
  unfolding rest_of_submit lock_project_budget ensure_available_gte
      get_by_project_id_voucher_type_unit lock_by_id apply_submit_withhold
  Keeps-rest locked remark allowed =
      search (keeps_rules, Keeps-status, allowed, Keeps-execute, frame-IsAlive) depth 20

  pub Keeps-submit_in_tx :
      (id : ℕ) (remark : Text) → Keeps (IsAlive i first) (submit_issue_request_in_tx id remark)
  unfolding submit_issue_request_in_tx validate_issue_request_transition get_by_id_for_update
      rest_of_submit
  Keeps-submit_in_tx id remark = Keeps-bind _ _ (Keeps-query _) (λ found.
      Keeps-bind _ _ (Keeps-require found _) (λ locked.
        Keeps-guard (not (is_transition locked.request_status RequestStatus.to_approve)) _
          (λ _. rest_of_submit locked remark)
          (λ passed. Keeps-rest locked remark (ground (arith, passed)))))

  pub Keeps-approve_in_tx :
      (id : ℕ) (remark : Text) → Keeps (IsAlive i first) (approve_issue_request_in_tx id remark)
  unfolding approve_issue_request_in_tx lock_project_budget validate_issue_request_transition
      ensure_withhold_gte get_by_id_for_update get_by_project_id_voucher_type_unit lock_by_id
      apply_approve_issued is_transition
  Keeps-approve_in_tx id remark =
      let allowed : is_transition RequestStatus.to_approve RequestStatus.approved ≡ true = refl in
      search (keeps_rules, Keeps-status, allowed, Keeps-execute, frame-IsAlive) depth 20

  pub Keeps-reject_in_tx :
      (id : ℕ) (remark : Text) → Keeps (IsAlive i first) (reject_issue_request_in_tx id remark)
  unfolding reject_issue_request_in_tx lock_project_budget validate_issue_request_transition
      ensure_withhold_gte get_by_id_for_update get_by_project_id_voucher_type_unit lock_by_id
      apply_reject_release is_transition
  Keeps-reject_in_tx id remark =
      let allowed : is_transition RequestStatus.to_approve RequestStatus.rejected ≡ true = refl in
      search (keeps_rules, Keeps-status, allowed, Keeps-execute, frame-IsAlive) depth 20

  pub Keeps-begun : (j : ℕ) → Keeps (IsAlive i first) (mark_ongoing j)
  unfolding mark_ongoing
  Keeps-begun j = Keeps-execute _ (λ t n a.
      step-IsAlive (has_id_and_status j RequestStatus.approved) set_ongoing t n (λ r. refl)
        (λ r found q.
          begun (status_sound r.request_status RequestStatus.approved (ground (arith, q))))
        a)

  pub Keeps-fund : (r : IssueRequest) → Keeps (IsAlive i first) (create_budget (new_issue_budget r))
  unfolding create_budget
  Keeps-fund r =
      search (keeps_rules, Keeps-new_ids, IsAlive-IsMonotone, Keeps-execute_if, frame-IsAlive) depth
        20

  appended-IsAlive :
      (r : IssueRequest) (t : Tables) (n : ℕ)
      → IsAlive i first t n
      → IsAlive i first (on_requests (λ old. old ++ r ∷ []) t) n
  appended-IsAlive r t n a = record {
    now = a.now;
    found = find-append (has_id i) t.issue_requests (r ∷ []) a.now a.found;
    life = a.life;
  }

  pub Keeps-create : (r : IssueRequest) → Keeps (IsAlive i first) (create r)
  unfolding create
  Keeps-create r =
      search (keeps_rules, Keeps-new_ids, IsAlive-IsMonotone, Keeps-execute, appended-IsAlive) depth
        20

  pub edited-IsAlive :
      (id : ℕ) (v u : Text) (a : ℤ) (remark : Text) (r : IssueRequest) (t : Tables) (n : ℕ)
      → find (has_id id) t.issue_requests ≡ some r
      → IsEditable r
      → IsAlive i first t n
      → IsAlive i first (on_requests (update (has_id id) (set_fields v u a remark)) t) n
  edited-IsAlive id v u a remark r t n found editable =
      step-IsAlive (has_id id) (set_fields v u a remark) t n (λ s. refl)
        (λ s here q.
          let own : s.id ≡ i = ground (arith, find_sound (has_id i) t.issue_requests s here) in
          let same_id : s.id ≡ id = ground (arith, q) in
          let again : find (has_id i) t.issue_requests ≡ some r =
            subst (λ k. find (has_id k) t.issue_requests ≡ some r) (sym same_id ∙ own) found in
          let same : r ≡ s = cc in edited v u a remark (subst IsEditable same editable))
