-- ===== src/Reward/Accounts/Methods.antt =====
-- The methods of `IssueRecordService` keep the accounts in order.
use reward_mservice.Kafka.Producer.{publish_execute}
use reward_mservice.Common.{
  ℕ, ◌+◌, not, true, Option, none, some, [], ◌∷◌, ◌++◌, Text, find, ◌≡◌, refl, sym, ap, ◌∙◌, subst,
  arith, inl, inr, eq_text, eq_text_sound,
}
use reward_mservice.Errs.{app, invalid_request}
use reward_mservice.Model.{
  ProjectBudget, IssueBudget, RewardRequest, RewardStatus, IssueRecord, RecordStatus,
  is_reward_status, is_record_status,
}
use reward_mservice.World.{Tables, World, Env, ok, pure, execute_if, new_ids}
use reward_mservice.World.Keeps.{
  Invariant, Keeps, keeps_rules, IsMonotone, Keeps-if, Keeps-pure, Keeps-new_ids, Keeps-execute_if,
}
use reward_mservice.World.Triple.{
  Triple, Triple-bind, Triple-query_to, Triple-require_to, Triple-Keeps_to, Triple-pure, Triple-pre,
  Triple-if, Triple-transaction, Triple-weaken, Triple-Keeps, Keeps-Triple,
}
use reward_mservice.Sql.{update, has}
use reward_mservice.Sql.Laws.{find-id, find_sound}
use reward_mservice.Sql.Rows.{has_key, find-key, All-find, missed-find}
use reward_mservice.Dao
use reward_mservice.Dao.Rewards.{
  create_record, create_request, update_status, get_request_by_id, get_request_by_client_ref_id,
  get_record_by_id, get_record_by_client_ref_id, has_record_id,
}
use reward_mservice.Dao.ProjectBudgets.{get_by_project_id_voucher_type_unit, get_by_id}
use reward_mservice.Dao.IssueBudgets.{get_by_issue_request_id}
use reward_mservice.Reward.Input.{RewardDistributionRequest}
use reward_mservice.Reward.Budgets.{
  complete, load_existing_issue_budget, load_existing_project_budget,
  load_existing_distribution_budgets,
}
use reward_mservice.Reward.Service.{
  run_existing_attempt, ensure_completed_and_skip, complete_and_publish, fail_in_tx, failed_record,
  handle_risk_failure, check_risk, continue_with, distribute, if_pending,
  execute_reward_distribution, process_voucher_issue_request,
}
use reward_mservice.Reward.Proofs.Keeps.{
  Keeps-parse, Keeps-resolve, Keeps-amount, Keeps-ignore_completed, Keeps-voucher_id,
  Keeps-publish_terminal_result, Keeps-either,
}
use reward_mservice.Reward.Proofs.Methods.{grows, Keeps-fail_in_tx}
use reward_mservice.Reward.Accounts.{
  budget_id, record_id, client_ref, is_pending, Claims, IsAccounted, IsAccountedIn,
}
use reward_mservice.Reward.Accounts.Rows.{
  IsAccounted-IsMonotone, status-IsAccounted, request-IsAccounted,
}
use reward_mservice.Reward.Accounts.Moves.{IsUnderWay, closed-IsAccounted}
use reward_mservice.Reward.Accounts.Attempt.{
  Asked, Underway, Keeps-complete, Triple-give_up, Triple-attempt, Triple-new_attempt,
}

-- A pending record of the request is a row.
record IsResumed (r : RewardRequest) (rec : IssueRecord) (t : Tables) (n : ℕ) : Type 0 where
  accounted : IsAccounted t n
  asked : find (has_key client_ref r.client_ref_id) t.reward_requests ≡ some r
  recorded : find (has_record_id rec.id) t.issue_records ≡ some rec
  pending : is_pending rec ≡ true
  ref : rec.client_reference_id ≡ r.client_ref_id

resumed-IsUnderWay :
    (r : RewardRequest) (rec : IssueRecord) (i : ℕ) (project : ProjectBudget)
    (ref budget : IssueBudget) (t : Tables) (n : ℕ)
    → IsResumed r rec t n
    → rec.issue_request_id ≡ some i
    → find (Dao.IssueBudgets.has_issue_request_id i) t.issue_budgets ≡ some ref
    → find (Dao.IssueBudgets.has_id ref.id) t.issue_budgets ≡ some budget
    → IsUnderWay r
        (record { project_budget = project; issue_budget = budget; issue_record = rec })
        t
        n
resumed-IsUnderWay r rec i project ref budget t n s points by_request by_id =
    let same : find (Dao.IssueBudgets.has_id ref.id) t.issue_budgets ≡ some ref =
      find-id budget_id _ t.issue_budgets ref s.accounted.budgets_keyed by_request in
    let own : budget ≡ ref = cc in
    let of : ref.issue_request_id ≡ i =
      ground (arith, find_sound _ t.issue_budgets ref by_request) in
    let claim =
      All-find (Claims t.reward_requests) _ t.issue_records rec s.accounted.claims s.recorded in
    let owner : claim.request ≡ r =
      let found = claim.found in
      let asked = s.asked in
      let at_ref : find (has_key client_ref r.client_ref_id) t.reward_requests
          ≡ some claim.request =
        subst (λ k. find (has_key client_ref k) t.reward_requests ≡ some claim.request) s.ref
          found in
      cc in
    record {
      accounted = s.accounted;
      recorded = s.recorded;
      pending = s.pending;
      amount = elim claim.amount [
        | inl closed ↦ cc (closed, s.pending)
        | inr same_amount ↦ same_amount ∙ ap (λ x. x.amount) owner
      ];
      pointed = points ∙ ap some (sym of ∙ ap (λ b. b.issue_request_id) (sym own));
      budget = budget;
      located =
          subst (λ k. find (Dao.IssueBudgets.has_id k) t.issue_budgets ≡ some budget)
            (ap budget_id (sym own)) by_id;
      own = refl;
    }

Triple-load_existing_issue :
    (r : RewardRequest) (project : ProjectBudget) (rec : IssueRecord) (i : ℕ)
    (o : Option IssueBudget)
    → Triple
        (λ t n.
          IsResumed r rec t n
          × (rec.issue_request_id ≡ some i)
          × (find (Dao.IssueBudgets.has_issue_request_id i) t.issue_budgets ≡ o))
        (load_existing_issue_budget r project rec o)
        (Underway r)
        IsAccounted
unfolding Dao.IssueBudgets.get_by_id
Triple-load_existing_issue r project rec i none =
    Triple-pre _ (λ t n h. h.0.accounted) (Triple-give_up r (Underway r) (λ t n s. s))
Triple-load_existing_issue r project rec i (some ref) =
    Triple-bind _ _ (Triple-query_to (λ t n h. h.0.accounted) _) (λ found.
      Triple-bind _ _ (Triple-require_to (λ t n h. h.0.0.accounted) found (app invalid_request))
        (λ budget. Triple-pure _ (λ t n h.
          resumed-IsUnderWay r rec i project ref budget t n h.0.0.0 h.0.0.1 h.0.0.2 (h.0.1 ∙ h.1))))

Triple-load_existing_project :
    (r : RewardRequest) (i : ℕ) (rec : IssueRecord) (o : Option ProjectBudget)
    → Triple
        (λ t n. IsResumed r rec t n × (rec.issue_request_id ≡ some i))
        (load_existing_project_budget r i rec o)
        (Underway r)
        IsAccounted
unfolding get_by_id get_by_issue_request_id
Triple-load_existing_project r i rec none =
    Triple-pre _ (λ t n h. h.0.accounted) (Triple-give_up r (Underway r) (λ t n s. s))
Triple-load_existing_project r i rec (some ref) =
    Triple-bind _ _ (Triple-query_to (λ t n h. h.0.accounted) _) (λ found.
      Triple-bind _ _ (Triple-require_to (λ t n h. h.0.0.accounted) found (app invalid_request))
        (λ project. Triple-bind _ _ (Triple-query_to (λ t n h. h.0.0.0.accounted) _) (λ budget.
          Triple-pre _ (λ t n h. (h.0.0.0.0, h.0.0.0.1, h.1))
            (Triple-load_existing_issue r project rec i budget))))

-- A query by client reference has found a pending record.
abbrev Found : RewardRequest → IssueRecord → Invariant
Found r existing t n =
    Asked r t n
    × (find (λ x. eq_text x.client_reference_id r.client_ref_id) t.issue_records ≡ some existing)
    × (is_pending existing ≡ true)

found-IsResumed :
    (r : RewardRequest) (existing rec : IssueRecord) (t : Tables) (n : ℕ)
    → Found r existing t n
    → find (has_record_id existing.id) t.issue_records ≡ some rec
    → IsResumed r rec t n
found-IsResumed r existing rec t n f h =
    let own : find (has_record_id existing.id) t.issue_records ≡ some existing =
      find-id record_id _ t.issue_records existing f.0.0.records_keyed f.1 in
    let same : existing ≡ rec = cc in
    subst (λ x. IsResumed r x t n) same
      (record {
        accounted = f.0.0;
        asked = f.0.1;
        recorded = own;
        pending = f.2;
        ref = eq_text_sound _ _ (find_sound _ t.issue_records existing f.1);
      })

Triple-load_existing :
    (r : RewardRequest) (existing : IssueRecord)
    → Triple
        (Found r existing)
        (load_existing_distribution_budgets r existing)
        (Underway r)
        IsAccounted
unfolding load_existing_distribution_budgets get_record_by_id get_by_project_id_voucher_type_unit
Triple-load_existing r existing = Triple-bind _ _ (Triple-query_to (λ t n h. h.0.0) _) (λ found.
    Triple-bind _ _ (Triple-require_to (λ t n h. h.0.0.0) found (app invalid_request)) (λ rec.
      Triple-bind _ _
        (Triple-require_to (λ t n h. h.0.0.0.0) rec.issue_request_id (app invalid_request))
        (λ i. Triple-bind _ _ (Triple-query_to (λ t n h. h.0.0.0.0.0) _) (λ ref.
          Triple-pre _
            (λ t n h. (found-IsResumed r existing rec t n h.0.0.0.0 (h.0.0.0.1 ∙ h.0.0.1), h.0.1))
            (Triple-load_existing_project r i rec ref)))))

Triple-existing_attempt :
    (r : RewardRequest) (existing : IssueRecord)
    → Triple (Found r existing) (run_existing_attempt r existing) (λ _. IsAccounted) IsAccounted
unfolding run_existing_attempt
Triple-existing_attempt r existing =
    Triple-bind _ _ (Triple-load_existing r existing) (λ a. Triple-attempt r a)

-- The transaction of a distribution that the risk check refused.
fail_outcome :
    (r : RewardRequest) (failed rec : IssueRecord) (env : Env) (w w' : World)
    → fail_in_tx r failed env w ≡ (ok rec, w')
    → (rec ≡ record failed { id = w.next_id })
      × (w'.next_id ≡ w.next_id + 1)
      × (w'.tables ≡ record w.tables {
        issue_records = w.tables.issue_records ++ rec ∷ [];
        reward_requests =
            update
              (Dao.Rewards.has_id_and_status r.id RewardStatus.pending)
              (Dao.Rewards.set_status RewardStatus.completed)
              w.tables.reward_requests;
      })
unfolding fail_in_tx create_record complete update_status execute_if new_ids
fail_outcome r failed rec env w w' h = (ground arith, ground arith, ground arith)

failed-IsAccounted :
    (r : RewardRequest) (voucher reason : Text) (rec : IssueRecord) (env : Env) (w w' : World)
    → Asked r w.tables w.next_id
    → fail_in_tx r (failed_record r voucher reason) env w ≡ (ok rec, w')
    → IsAccounted w'.tables w'.next_id
failed-IsAccounted r voucher reason rec env w w' h ran =
    let e = fail_outcome r (failed_record r voucher reason) rec env w w' ran in
    let claim : Claims w.tables.reward_requests rec = record {
      request = r;
      found =
          subst (λ k. find (has_key client_ref k) w.tables.reward_requests ≡ some r)
            (sym (ap (λ x. x.client_reference_id) e.0)) h.1;
      amount = inl (ap is_pending e.0);
    } in
    let closed =
      closed-IsAccounted rec w.tables w.next_id (ap is_pending e.0) (ap record_id e.0) claim h.0 in
    let recorded = Dao.Rewards.on_records (λ old. old ++ rec ∷ []) w.tables in
    let is_this = Dao.Rewards.has_id_and_status r.id RewardStatus.pending in
    let set = Dao.Rewards.set_status RewardStatus.completed in
    let done = status-IsAccounted is_this RewardStatus.completed recorded (w.next_id + 1) closed in
    subst (λ t. IsAccounted t w'.next_id) (sym e.2)
      (subst (λ n. IsAccounted (Dao.Rewards.on_requests (update is_this set) recorded) n) (sym e.1)
        done)

Asked-IsMonotone : (r : RewardRequest) → IsMonotone (Asked r)
Asked-IsMonotone r = record { at = λ t m n l h. (IsAccounted-IsMonotone.at t m n l h.0, h.1) }

Triple-risk_failure :
    (r : RewardRequest) (reason : Text)
    → Triple (Asked r) (handle_risk_failure r reason) (λ _. IsAccounted) IsAccounted
unfolding handle_risk_failure
Triple-risk_failure r reason =
    Triple-bind _ _ (Triple-Keeps_to (λ t n h. h.0) _ Keeps-voucher_id) (λ v.
      let failed = failed_record r v reason in
      Triple-bind {Q = λ _. IsAccounted} _ _
        (Triple-weaken _
          (Triple-transaction (fail_in_tx r failed) (Asked-IsMonotone r)
            (λ bound. Keeps-fail_in_tx (grows bound) r failed)
            (λ env w w' rec h ran. failed-IsAccounted r v reason rec env w w' h ran))
          (λ a t n h. h) (λ t n h. h.0))
        (λ rec. Triple-Keeps _ (Keeps-publish_terminal_result r rec)))

Triple-check_risk :
    (r : RewardRequest) (o : Option Text)
    → Triple (Asked r) (check_risk r o) (λ _. IsAccounted) IsAccounted
Triple-check_risk r none = Triple-new_attempt r
Triple-check_risk r (some reason) = Triple-risk_failure r reason

Keeps-completed :
    (r : RewardRequest) (rec : IssueRecord) → Keeps IsAccounted (ensure_completed_and_skip r rec)
unfolding ensure_completed_and_skip complete_and_publish
Keeps-completed r rec =
    Keeps-if (is_reward_status r.status RewardStatus.completed) (pure tt) _ (Keeps-pure tt) (
      Keeps-either (complete r.id) _ _ (Keeps-complete r.id)
        (λ _. Keeps-publish_terminal_result r rec) Keeps-ignore_completed)

Triple-continue :
    (r : RewardRequest) (o : Option IssueRecord)
    → Triple
        (λ t n.
          Asked r t n
          × (find (λ x. eq_text x.client_reference_id r.client_ref_id) t.issue_records ≡ o))
        (continue_with r o)
        (λ _. IsAccounted)
        IsAccounted
Triple-continue r none = record {
  at = λ env w h. (Triple-check_risk r (env.risk r.user_id)).at env w h.0;
}
Triple-continue r (some existing) =
    Triple-if (is_record_status existing.issue_status RecordStatus.pending)
      (run_existing_attempt r existing) (ensure_completed_and_skip r existing)
      (Triple-pre _ (λ t n h. (h.0.0, h.0.1, h.1)) (Triple-existing_attempt r existing))
      (Triple-pre _ (λ t n h. h.0.0.0) (Triple-Keeps _ (Keeps-completed r existing)))

Triple-distribute :
    (r : RewardRequest) → Triple (Asked r) (distribute r) (λ _. IsAccounted) IsAccounted
unfolding distribute get_record_by_client_ref_id
Triple-distribute r = Triple-bind _ _ (Triple-query_to (λ t n h. h.0) _) (λ o. Triple-continue r o)

Triple-if_pending :
    (id : ℕ) (o : Option RewardRequest)
    → Triple
        (λ t n. IsAccounted t n × (find (Dao.Rewards.has_id id) t.reward_requests ≡ o))
        (if_pending o)
        (λ _. IsAccounted)
        IsAccounted
Triple-if_pending id none = Triple-pure tt (λ t n h. h.0)
Triple-if_pending id (some r) =
    Triple-if (is_reward_status r.status RewardStatus.pending) (distribute r) (pure tt)
      (Triple-pre _ (λ t n h. (h.0.0, find-key client_ref _ t.reward_requests r h.0.0.refs h.0.1))
        (Triple-distribute r))
      (Triple-pure tt (λ t n h. h.0.0))

pub Keeps-execute_distribution : (id : ℕ) → Keeps IsAccounted (execute_reward_distribution id)
unfolding execute_reward_distribution get_request_by_id
Keeps-execute_distribution id = Keeps-Triple _ (
    Triple-bind {Q = λ _. IsAccounted} _ _ (Triple-Keeps _ (search keeps_rules))
      (λ _. Triple-bind _ _ (Triple-query_to (λ t n h. h) _) (λ o. Triple-if_pending id o)))

Keeps-create_request : (r : RewardRequest) → Keeps IsAccounted (create_request r)
unfolding create_request
Keeps-create_request r =
    search
      (
        keeps_rules,
        Keeps-new_ids,
        IsAccounted-IsMonotone,
        Keeps-execute_if,
        λ (n : ℕ) (t : Tables) (m : ℕ) (s : IsAccounted t m)
              (free : not (has (Dao.Rewards.has_client_ref_id r.client_ref_id) t.reward_requests)
                ≡ true).
            request-IsAccounted (record r { id = n }) t m
              (missed-find (has_key client_ref r.client_ref_id) t.reward_requests (ground arith)) s,
      )
      depth 20

pub Keeps-process_request :
    (body : Option RewardDistributionRequest)
    → Keeps IsAccounted (process_voucher_issue_request body)
unfolding process_voucher_issue_request publish_execute get_by_project_id_voucher_type_unit
    get_request_by_client_ref_id
Keeps-process_request body =
    search (keeps_rules, Keeps-parse, Keeps-resolve, Keeps-amount, Keeps-create_request) depth 30

module _ (env : Env) (w : World) (accounted : IsAccountedIn w) where
  -- `ExecuteRewardDistribution`, whether it returns or fails, and whatever the risk check and the
  -- asset service answer, keeps the accounts in order. They are in order if the ids of the issue
  -- budgets and of the issue records are distinct and below the next id, the client references of
  -- the reward requests are distinct, every issue record has the client reference of a reward
  -- request, and its amount too while it is pending, and for every issue request the available, the
  -- issued and the refunded amounts of its budgets and the amounts of its pending records add up to
  -- the total amounts of its budgets.
  pub execute_reward_distribution-IsAccounted :
      (id : ℕ) → IsAccountedIn (execute_reward_distribution id env w).1
  execute_reward_distribution-IsAccounted id = (Keeps-execute_distribution id).at env w accounted

  pub process_voucher_issue_request-IsAccounted :
      (body : Option RewardDistributionRequest)
      → IsAccountedIn (process_voucher_issue_request body env w).1
  process_voucher_issue_request-IsAccounted body = (Keeps-process_request body).at env w accounted
