-- ===== src/Reward/Proofs/Acceptance.antt =====
-- `ProcessVoucherIssueRequest`: what is accepted, and that an accepted request is announced.
use reward_mservice.Kafka.Producer.{publish_execute}
use reward_mservice.Reward.Proofs.Silent.{Silent-parse, Silent-resolve, Silent-to_column}
use reward_mservice.Common.{
  ℕ, false, some, List, [], ◌∷◌, ◌++◌, ◌≡◌, refl, arith, Bool-cases, ◌⊎◌, if◌then◌else◌, subst, sym,
  ◌∙◌, inl, inr, trim_space, is_some, is_empty, ◌==◌,
}
use reward_mservice.Errs.{
  Err, app, wrap, driver, invalid_request, internal_error, duplicate_client_ref_id,
  duplicate_client_ref_id_error,
}
use reward_mservice.Model.{RewardRequest, RewardStatus, is_positive}
use reward_mservice.World.{
  Tables, Event, World, Env, reward_distribution_execute, Result, ok, err, or_else, ◌>>=◌,
  execute_if, new_ids, publish, ◌>>◌, require, throw_if,
}
use reward_mservice.World.Yields.{Value, Yields}
use reward_mservice.World.Silent.{
  Silent-or_else, Silent-query, Silent-require, Silent-throw_if, Leads, Leads-bind, Leads-after,
  IsSame,
}
use reward_mservice.Sql.{has}
use reward_mservice.Dao.Rewards.{
  on_requests, has_client_ref_id, create_request, get_request_by_client_ref_id,
}
use reward_mservice.Dao.ProjectBudgets.{get_by_project_id_voucher_type_unit}
use reward_mservice.IssueRequest.Input.{to_column}
use reward_mservice.Reward.Input.{
  RewardDistributionRequest, RewardDistributionInput, Reward, parse_reward_distribution_request,
  resolve_reward_amount,
}
use reward_mservice.Reward.Service.{duplicate_or_internal, process_voucher_issue_request}

-- The parsed request is the client's.
abbrev IsParsed : RewardDistributionRequest → RewardDistributionInput → Type 0
IsParsed request input =
    (input.client_ref_id ≡ trim_space request.client_ref_id)
    × (input.user_id ≡ request.user_id)
    × (input.project_id ≡ request.project_id)

IsParsed-Value :
    (r : RewardDistributionRequest) (env : Env) (w : World)
    → Value (IsParsed r) (parse_reward_distribution_request r env w).0
unfolding parse_reward_distribution_request
IsParsed-Value r env w = elim (Bool-cases (is_empty (trim_space r.client_ref_id))) [
  | inl empty ↦ rw empty tt
  | inr named ↦ rw named (elim (Bool-cases (r.user_id == 0)) [
    | inl none ↦ rw none tt
    | inr user ↦ rw user (elim (Bool-cases (r.project_id == 0)) [
      | inl none ↦ rw none tt
      | inr project ↦ rw project (refl, refl, refl)
    ])
  ])
]

Yields-parse :
    (r : RewardDistributionRequest) → Yields (IsParsed r) (parse_reward_distribution_request r)
Yields-parse r = record { at = IsParsed-Value r }

-- The pending row `r` of the client's request was added, whose reference was new.
pub record IsAdded (request : RewardDistributionRequest) (r : RewardRequest) (t t' : Tables)
    : Type 0 where
  pub new_ref : has (has_client_ref_id r.client_ref_id) t.reward_requests ≡ false
  pub written : t' ≡ on_requests (λ old. old ++ r ∷ []) t
  pub pending : r.status ≡ RewardStatus.pending
  pub ref : r.client_ref_id ≡ trim_space request.client_ref_id
  pub user : r.user_id ≡ request.user_id
  pub project : r.project_id ≡ request.project_id

-- The messages with the event to execute a request, which is sent if Kafka is enabled.
abbrev pub sent : Env → List Event → ℕ → List Event
sent env o id = if env.kafka_enabled then o ++ reward_distribution_execute id ∷ [] else o

-- How the method ends.
pub data Ends (request : RewardDistributionRequest) (t : Tables) (o : List Event) (env : Env)
    : Result (Unit {0}) × World → Type 0 where
  accepted :
      (r : RewardRequest) {w : World}
      → IsAdded request r t w.tables
      → w.outbox ≡ sent env o r.id
      → Ends request t o env (ok tt, w)
  refused : (e : Err) {w : World} → IsSame t o w → Ends request t o env (err e, w)
  stuck :
      (r : RewardRequest) (e : Err) {w : World}
      → IsAdded request r t w.tables
      → w.outbox ≡ o
      → Ends request t o env (err e, w)

abbrev numbered : RewardRequest → ℕ → RewardRequest
numbered row n = record row { id = n }

-- How the INSERT ends.
abbrev Created : RewardRequest → World → Result RewardRequest × World → Type 0
Created row w out =
    ((out.0 ≡ ok (numbered row w.next_id))
      × (has (has_client_ref_id row.client_ref_id) w.tables.reward_requests ≡ false)
      × (out.1.tables ≡ on_requests (λ old. old ++ numbered row w.next_id ∷ []) w.tables)
      × (out.1.outbox ≡ w.outbox))
    ⊎ ((e : Err) × (out.0 ≡ err e) × IsSame w.tables w.outbox out.1)

create_request-Created :
    (row : RewardRequest) (env : Env) (w : World) → Created row w (create_request row env w)
unfolding create_request execute_if new_ids
create_request-Created row env w = elim (Bool-cases (env.fails w.calls)) [
  | inl failed ↦ inr (driver, ground arith, (ground arith, ground arith))
  | inr called ↦
      elim (Bool-cases (has (has_client_ref_id row.client_ref_id) w.tables.reward_requests)) [
        | inl taken ↦ inr (
          if env.translate_error then duplicate_client_ref_id_error else driver,
          ground arith,
          (ground arith, ground arith),
        )
        | inr free ↦ inl (ground arith, free, ground arith, ground arith)
      ]
]

abbrev Told : Env → ℕ → World → Result (Unit {0}) × World → Type 0
Told env id w out =
    ((out.0 ≡ ok tt) × (out.1.tables ≡ w.tables) × (out.1.outbox ≡ sent env w.outbox id))
    ⊎ ((out.0 ≡ err driver) × IsSame w.tables w.outbox out.1)

publish_execute-Told : (id : ℕ) (env : Env) (w : World) → Told env id w (publish_execute id env w)
unfolding publish_execute publish
publish_execute-Told id env w = elim (Bool-cases (is_positive id)) [
  | inl positive ↦ elim (Bool-cases env.kafka_enabled) [
    | inl on ↦ elim (Bool-cases (env.fails w.calls)) [
      | inl failed ↦ inr (ground arith)
      | inr called ↦ inl (ground arith)
    ]
    | inr off ↦ inl (ground arith)
  ]
  | inr other ↦ inr (ground arith)
]

-- `or_else` at the error of the INSERT.
abbrev renamed : Result RewardRequest × World → Result RewardRequest × World
renamed out = elim out.0 [ ok a ↦ (ok a, out.1) | err e ↦ (err (duplicate_or_internal e), out.1) ]

module _ (request : RewardDistributionRequest) (t : Tables) (o : List Event) where
  Told-Ends :
      (r : RewardRequest) (env : Env) (w : World) (out : Result (Unit {0}) × World)
      → IsAdded request r t w.tables
      → w.outbox ≡ o
      → Told env r.id w out
      → Ends request t o env (elim out.0 as (λ _. Result (Unit {0}) × World) [
        | ok a ↦ (ok a, out.1)
        | err e ↦ (err (wrap internal_error e), out.1)
      ])
  Told-Ends r env w (ok tt, w') added same (inl (_, kept, told)) =
      accepted r (subst (IsAdded request r t) (sym kept) added)
        (subst (λ x. w'.outbox ≡ sent env x r.id) same told)
  Told-Ends r env w (ok tt, w') added same (inr (failed, _)) = cc
  Told-Ends r env w (err e, w') added same (inl (returned, _, _)) = cc
  Told-Ends r env w (err e, w') added same (inr (failed, same')) =
      stuck r _ (subst (IsAdded request r t) (sym same'.0) added) (same'.1 ∙ same)

  module _ (row : RewardRequest) (env : Env) (pending : row.status ≡ RewardStatus.pending)
      (ref : row.client_ref_id ≡ trim_space request.client_ref_id)
      (user : row.user_id ≡ request.user_id) (project : row.project_id ≡ request.project_id) where
    Created-Ends :
        (w : World) (out : Result RewardRequest × World)
        → IsSame t o w
        → Created row w out
        → Ends request t o env (elim (renamed out).0 as (λ _. Result (Unit {0}) × World) [
          | ok created ↦
              or_else (publish_execute created.id) (wrap internal_error) env (renamed out).1
          | err e ↦ (err e, (renamed out).1)
        ])
    Created-Ends w (ok r, w') here (inl (made, free, added, silent)) =
        let new : numbered row w.next_id ≡ r = cc in
        let row_added : IsAdded request (numbered row w.next_id) t w'.tables = record {
          new_ref =
              subst (λ x. has (has_client_ref_id row.client_ref_id) x.reward_requests ≡ false)
                here.0 free;
          written =
              subst (λ x. w'.tables ≡ on_requests (λ old. old ++ numbered row w.next_id ∷ []) x)
                here.0 added;
          pending = pending;
          ref = ref;
          user = user;
          project = project;
        } in
        Told-Ends r env w' (publish_execute r.id env w')
          (subst (λ x. IsAdded request x t w'.tables) new row_added) (silent ∙ here.1)
          (publish_execute-Told r.id env w')
    Created-Ends w (ok r, w') here (inr (e, failed, kept)) = cc
    Created-Ends w (err e, w') here (inl (made, free, added, silent)) = cc
    Created-Ends w (err e, w') here (inr (f, failed, kept)) =
        refused _ (kept.0 ∙ here.0, kept.1 ∙ here.1)

  finish :
      (row : RewardRequest)
      → row.status ≡ RewardStatus.pending
      → row.client_ref_id ≡ trim_space request.client_ref_id
      → row.user_id ≡ request.user_id
      → row.project_id ≡ request.project_id
      → Leads (Ends request t o) t o (do
        created ← or_else (create_request row) duplicate_or_internal
        or_else (publish_execute created.id) (wrap internal_error))
  finish row pending ref user project = record {
    at = λ env w here.
        Created-Ends row env pending ref user project w (create_request row env w) here
          (create_request-Created row env w);
  }

  kept_refused : (e : Err) (env : Env) (w : World) → IsSame t o w → Ends request t o env (err e, w)
  kept_refused e env w h = refused e h

  -- What follows the checks of the budget.
  rest :
      (input : RewardDistributionInput)
      → IsParsed request input
      → (reward : Reward)
      → Leads (Ends request t o) t o (do
        existing ← or_else (get_request_by_client_ref_id input.client_ref_id) (wrap internal_error)
        throw_if (is_some existing) (app duplicate_client_ref_id)
        amount ← or_else (to_column reward.amount) (wrap internal_error)
        created ←
            or_else
              (create_request (record {
                id = 0;
                client_ref_id = input.client_ref_id;
                user_id = input.user_id;
                project_id = input.project_id;
                voucher_type = reward.voucher_type;
                unit = reward.unit;
                amount = amount;
                status = RewardStatus.pending;
              }))
              duplicate_or_internal
        or_else (publish_execute created.id) (wrap internal_error))
  unfolding get_request_by_client_ref_id
  rest input parsed reward =
      Leads-bind _ _ _ kept_refused
        (or_else (get_request_by_client_ref_id input.client_ref_id) (wrap internal_error)) _
        (Silent-or_else _ _ (Silent-query _))
        (λ existing.
          Leads-bind _ _ _ kept_refused (throw_if (is_some existing) (app duplicate_client_ref_id))
            _ (Silent-throw_if _ _)
            (λ _.
              Leads-bind _ _ _ kept_refused
                (or_else (to_column reward.amount) (wrap internal_error)) _
                (Silent-or_else _ _ (Silent-to_column _))
                (λ amount. finish _ refl parsed.0 parsed.1 parsed.2)))

  process_Leads : Leads (Ends request t o) t o (process_voucher_issue_request (some request))
  unfolding process_voucher_issue_request get_by_project_id_voucher_type_unit
      get_request_by_client_ref_id
  process_Leads =
      Leads-after _ _ _ kept_refused (parse_reward_distribution_request request) _
        (Silent-parse request) (Yields-parse request)
        (λ input parsed.
          Leads-bind _ _ _ kept_refused (resolve_reward_amount request) _ (Silent-resolve request)
            (λ reward.
              Leads-bind _ _ _ kept_refused
                (or_else
                  (get_by_project_id_voucher_type_unit input.project_id reward.voucher_type
                    reward.unit)
                  (wrap internal_error))
                _ (Silent-or_else _ _ (Silent-query _))
                (λ budget.
                  Leads-bind _ _ _ kept_refused (require budget (app invalid_request)) _
                    (Silent-require _ _) (λ _. rest input parsed reward))))

-- `ProcessVoucherIssueRequest` of a request that is not nil. Either it returns no error: the client's
-- reference was new, one pending row with the client's reference, user and project was added, nothing
-- else in the tables changed, and the event to execute this row was sent if Kafka is enabled, and
-- nothing if it is not. Or it returns an error and sends nothing, and has changed no table, or has added such a row, without its event.
pub process_voucher_issue_request-Ends :
    (request : RewardDistributionRequest) (env : Env) (w : World)
    → Ends request w.tables w.outbox env (process_voucher_issue_request (some request) env w)
process_voucher_issue_request-Ends request env w =
    (process_Leads request w.tables w.outbox).at env w (refl, refl)
