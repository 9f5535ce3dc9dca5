-- ===== src/IssueRequest/Proofs/Backing.antt =====
-- Withheld money against the requests that wait for approval.
use reward_mservice.Common.{
  ℕ, ◌==◌, ℤ, pos, ◌+ℤ◌, ◌-ℤ◌, int_laws, Bool, true, false, ◌&&◌, some, Text, eq_text,
  eq_text_sound, ◌≡◌, refl, arith, find, if◌then◌else◌,
}
use reward_mservice.Model.{IssueRequest, ProjectBudget, RequestStatus, is_request_status}
use reward_mservice.World.{Tables}
use reward_mservice.Sql.{update}
use reward_mservice.Sql.Laws.{sum_of, sum_of-update, update_narrow, find-id, find_sound}
use reward_mservice.Dao
use reward_mservice.IssueRequest.Input.{is_transition}
use reward_mservice.IssueRequest.Proofs.Outcomes.{
  Located, Moves, moved, key_of, budget_id, HasBudgetIds,
}

-- What a request that waits for approval has withheld.
abbrev pub weight : RequestStatus → ℤ → ℤ
weight s a = if is_request_status s RequestStatus.to_approve then a else pos 0

balance_move :
    (same : Bool) (s s' q q' x y u v : ℤ)
    → s' +ℤ (if same then x else pos 0) ≡ s +ℤ (if same then y else pos 0)
    → q' +ℤ (if same then u else pos 0) ≡ q +ℤ (if same then v else pos 0)
    → y +ℤ u ≡ x +ℤ v
    → s ≡ q
    → s' ≡ q'
balance_move true s s' q q' x y u v a b c d = grind int_laws
balance_move false s s' q q' x y u v a b c d = grind int_laws

-- The status in the WHERE picks no other row than the id does.
narrowed :
    (t : Tables) (id : ℕ) (r : IssueRequest) (f : IssueRequest → IssueRequest)
    → find (Dao.IssueRequests.has_id id) t.issue_requests ≡ some r
    → update (Dao.IssueRequests.has_id_and_status r.id r.request_status) f t.issue_requests
      ≡ update (Dao.IssueRequests.has_id id) f t.issue_requests
narrowed t id r f e =
    let own = find_sound (Dao.IssueRequests.has_id id) t.issue_requests r e in
    update_narrow (Dao.IssueRequests.has_id id)
      (Dao.IssueRequests.has_id_and_status r.id r.request_status) f t.issue_requests r e
      (λ s met. ground arith) (ground arith)

submit_balance :
    (s : RequestStatus) (w a : ℤ)
    → is_transition s RequestStatus.to_approve ≡ true
    → (w +ℤ a) +ℤ weight s a ≡ w +ℤ weight RequestStatus.to_approve a
unfolding is_transition
submit_balance s w a h = grind int_laws

approve_balance :
    (s : RequestStatus) (w a : ℤ)
    → is_transition s RequestStatus.approved ≡ true
    → (w -ℤ a) +ℤ weight s a ≡ w +ℤ weight RequestStatus.approved a
unfolding is_transition
approve_balance s w a h = grind int_laws

reject_balance :
    (s : RequestStatus) (w a : ℤ)
    → is_transition s RequestStatus.rejected ≡ true
    → (w -ℤ a) +ℤ weight s a ≡ w +ℤ weight RequestStatus.rejected a
unfolding is_transition
reject_balance s w a h = grind int_laws

module _ (project : ℕ) (voucher unit : Text) where
  -- The test of a request for this project, voucher type and unit.
  abbrev pub asks_for : IssueRequest → Bool
  asks_for r = r.project_id == project && (eq_text r.voucher_type voucher && eq_text r.unit unit)

  abbrev pub held : ProjectBudget → ℤ
  held b = if Dao.ProjectBudgets.is_for project voucher unit b then b.withhold_amount else pos 0

  abbrev pub waiting : IssueRequest → ℤ
  waiting r = if asks_for r then weight r.request_status r.amount else pos 0

  -- The amounts withheld in the budgets are those of the requests that wait for approval.
  unfoldable pub IsBacked : Tables → Type 0
  IsBacked t = sum_of held t.project_budgets ≡ sum_of waiting t.issue_requests

  -- The budget of a request is for a project, voucher type and unit as the request is.
  same_key :
      (r : IssueRequest) (b : ProjectBudget)
      → key_of r b ≡ true
      → Dao.ProjectBudgets.is_for project voucher unit b ≡ asks_for r
  same_key r b h =
      ground (arith, eq_text_sound b.voucher_type r.voucher_type, eq_text_sound b.unit r.unit)

  -- A status step that moves in the budget what it moves between the requests.
  moved-IsBacked :
      (t : Tables) (id : ℕ) (r : IssueRequest) (b : ProjectBudget) (to : RequestStatus)
      (remark : Text) (f : ProjectBudget → ProjectBudget)
      → HasBudgetIds t
      → Located t id r b
      → Dao.ProjectBudgets.is_for project voucher unit (f b)
        ≡ Dao.ProjectBudgets.is_for project voucher unit b
      → (f b).withhold_amount +ℤ weight r.request_status r.amount
        ≡ b.withhold_amount +ℤ weight to r.amount
      → IsBacked t
      → IsBacked (moved r b to remark f t)
  unfolding IsBacked
  moved-IsBacked t id r b to remark f ids at keeps balance h =
      let step = Dao.IssueRequests.set_status to remark in
      let own = find-id budget_id (key_of r) t.project_budgets b ids at.budget in
      let key = same_key r b (find_sound (key_of r) t.project_budgets b at.budget) in
      let budgets = sum_of-update held (Dao.ProjectBudgets.has_id b.id) f t.project_budgets b own in
      let requests =
        sum_of-update waiting (Dao.IssueRequests.has_id id) step t.issue_requests r at.request in
      rw (narrowed t id r step at.request)
        (balance_move (asks_for r) _ _ _ _ _ _ _ _ (rw (keeps, key) at budgets) requests balance h)

  pub submit-IsBacked :
      (t t' : Tables) (id : ℕ) (remark : Text)
      → HasBudgetIds t
      → Moves t t' id remark RequestStatus.to_approve
          (λ b. b.available_amount)
          Dao.ProjectBudgets.withhold
      → IsBacked t
      → IsBacked t'
  submit-IsBacked t t' id remark ids m h = rw m.written (
      moved-IsBacked t id m.r m.b RequestStatus.to_approve remark
        (Dao.ProjectBudgets.withhold m.r.amount) ids m.located refl
        (submit_balance m.r.request_status m.b.withhold_amount m.r.amount m.allowed) h)

  pub approve-IsBacked :
      (t t' : Tables) (id : ℕ) (remark : Text)
      → HasBudgetIds t
      → Moves t t' id remark RequestStatus.approved
          (λ b. b.withhold_amount)
          Dao.ProjectBudgets.issue_withheld
      → IsBacked t
      → IsBacked t'
  approve-IsBacked t t' id remark ids m h = rw m.written (
      moved-IsBacked t id m.r m.b RequestStatus.approved remark
        (Dao.ProjectBudgets.issue_withheld m.r.amount) ids m.located refl
        (approve_balance m.r.request_status m.b.withhold_amount m.r.amount m.allowed) h)

  pub reject-IsBacked :
      (t t' : Tables) (id : ℕ) (remark : Text)
      → HasBudgetIds t
      → Moves t t' id remark RequestStatus.rejected
          (λ b. b.withhold_amount)
          Dao.ProjectBudgets.release_withheld
      → IsBacked t
      → IsBacked t'
  reject-IsBacked t t' id remark ids m h = rw m.written (
      moved-IsBacked t id m.r m.b RequestStatus.rejected remark
        (Dao.ProjectBudgets.release_withheld m.r.amount) ids m.located refl
        (reject_balance m.r.request_status m.b.withhold_amount m.r.amount m.allowed) h)
