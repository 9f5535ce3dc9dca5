-- ===== src/Reward/Proofs/Keeps.antt =====
-- The methods of `IssueRecordService` keep what their writes keep.
use reward_mservice.Common.{ℕ, codes, ℤ, Option, none, some, List, Text, ◌≡◌, eq_text}
use reward_mservice.Errs.{Err}
use reward_mservice.Amount.{Amount, decimal, text, cmp_rat, Rat}
use reward_mservice.Model.{RewardRequest, IssueRecord, TemplateType, TemplateConfig}
use reward_mservice.World.{
  Tables, M, Env, World, Result, ok, err, pure, AssetRequest, AssetResponse,
}
use reward_mservice.World.Keeps.{
  Invariant, Keeps, keeps_rules, IsMonotone, Keeps-if, Keeps-bind, Keeps-asks, Keeps-pure,
  Keeps-throw,
}
use reward_mservice.Dao
use reward_mservice.Dao.ProjectBudgets.{
  on_budgets, deduct_available, add_issued, add_refund, has_id_and_available, has_id,
  get_by_project_id_voucher_type_unit, get_by_id,
}
use reward_mservice.IssueRequest.Input.{to_column}
use reward_mservice.Reward.Input.{
  RewardDistributionRequest, parse_reward_distribution_request, resolve_reward_amount,
  resolve_reward_amount_from_request, resolve_reward_amount_from_template,
  calculate_template_amount, calculate_fixed_template_reward_amount,
  calculate_dynamic_template_reward_amount, parse_and_validate_dynamic_template_config,
  parse_reward_metric_value, read_amount, apply_cap, is_blank, capped,
}
use reward_mservice.Reward.Issuer.{
  issue_succeeded, issue, issue_crypto_reward, issue_with_client, reward_asset, call_reward,
}
use reward_mservice.Reward.Budgets.{
  generate_voucher_id, ignore_completed, publish_result, publish_terminal_result,
}

-- What the writes of a distribution have to keep, for its methods to keep it.
pub record IsKeptByWrites (P : Invariant) : Type 0 where
  pub mono : IsMonotone P
  pub deduct :
      (i : ℕ) (a : ℤ) → Keeps P (Dao.ProjectBudgets.apply_distribution_deduct_available i a)
  pub issued : (i : ℕ) (a : ℤ) → Keeps P (Dao.ProjectBudgets.apply_distribution_issued i a)
  pub refund : (i : ℕ) (a : ℤ) → Keeps P (Dao.ProjectBudgets.apply_distribution_refund i a)
  pub frame :
      (u t : Tables) (n : ℕ)
      → u.project_budgets ≡ t.project_budgets
      → u.issue_requests ≡ t.issue_requests
      → u.templates ≡ t.templates
      → u.finance_docs ≡ t.finance_docs
      → P t n
      → P u n

module _ {P : Invariant} where
  pub Keeps-read_amount : (s : Amount) → Keeps P (read_amount s)
  unfolding read_amount
  Keeps-read_amount s = search keeps_rules depth 20

  pub Keeps-from_request :
      (r : RewardDistributionRequest) → Keeps P (resolve_reward_amount_from_request r)
  unfolding resolve_reward_amount_from_request
  Keeps-from_request r = search (keeps_rules, Keeps-read_amount) depth 20

  pub Keeps-fixed : (c : TemplateConfig) → Keeps P (calculate_fixed_template_reward_amount c)
  unfolding calculate_fixed_template_reward_amount
  Keeps-fixed c = search (keeps_rules, Keeps-read_amount) depth 20

  pub Keeps-apply_cap : (cap : Amount) (a : Rat) → Keeps P (apply_cap cap a)
  Keeps-apply_cap cap a = Keeps-if (is_blank cap) (pure a) _ (Keeps-pure a) (
      Keeps-bind _ (λ c. pure (capped a c (cmp_rat a c))) (Keeps-read_amount cap)
        (λ c. Keeps-pure _))

  pub Keeps-dynamic :
      (c : TemplateConfig) (m : List (Text × Text))
      → Keeps P (calculate_dynamic_template_reward_amount c m)
  unfolding calculate_dynamic_template_reward_amount parse_and_validate_dynamic_template_config
      parse_reward_metric_value
  Keeps-dynamic c m = search (keeps_rules, Keeps-read_amount, Keeps-apply_cap) depth 20

  pub Keeps-calculate :
      (y : TemplateType) (c : TemplateConfig) (m : List (Text × Text))
      → Keeps P (calculate_template_amount y c m)
  unfolding calculate_template_amount
  Keeps-calculate TemplateType.fixed c m = Keeps-fixed c
  Keeps-calculate TemplateType.dynamic c m = Keeps-dynamic c m
  Keeps-calculate TemplateType.unknown_type c m = Keeps-throw _

  pub Keeps-from_template :
      (id : ℕ) (m : List (Text × Text)) → Keeps P (resolve_reward_amount_from_template id m)
  unfolding resolve_reward_amount_from_template Dao.Templates.get_by_id
  Keeps-from_template id m = search (keeps_rules, Keeps-calculate) depth 20

  pub Keeps-resolve : (r : RewardDistributionRequest) → Keeps P (resolve_reward_amount r)
  Keeps-resolve r = search (keeps_rules, Keeps-from_request, Keeps-from_template)

  pub Keeps-parse : (r : RewardDistributionRequest) → Keeps P (parse_reward_distribution_request r)
  unfolding parse_reward_distribution_request
  Keeps-parse r = search keeps_rules depth 20

  pub Keeps-amount : (a : Amount) → Keeps P (to_column a)
  unfolding to_column
  Keeps-amount (decimal d) = Keeps-pure d
  Keeps-amount (text s) = search keeps_rules depth 20

  pub Keeps-call_reward :
      (c : AssetRequest → ℕ → AssetResponse) (q : AssetRequest) → Keeps P (call_reward c q)
  unfolding call_reward
  Keeps-call_reward c q = record { at = λ env w h. h }

  pub Keeps-reward_asset :
      (c : AssetRequest → ℕ → AssetResponse) (r : IssueRecord) (a : ℤ) (o : Option Text)
      → Keeps P (reward_asset c r a o)
  Keeps-reward_asset c r a none = Keeps-pure _
  Keeps-reward_asset c r a (some code) = search (keeps_rules, Keeps-call_reward)

  pub Keeps-with_client :
      (o : Option (AssetRequest → ℕ → AssetResponse)) (r : IssueRecord) (a : ℤ)
      → Keeps P (issue_with_client o r a)
  Keeps-with_client none r a = Keeps-pure _
  Keeps-with_client (some c) r a = Keeps-reward_asset c r a _

  pub Keeps-issue : (r : IssueRecord) (a : ℤ) → Keeps P (issue r a)
  unfolding issue issue_crypto_reward
  Keeps-issue r a =
      Keeps-if (eq_text r.voucher_type (codes "CRYPTO")) _ (pure issue_succeeded)
        (Keeps-bind _ (λ c. issue_with_client c r a) (Keeps-asks _) (λ c. Keeps-with_client c r a))
        (Keeps-pure _)

  pub Keeps-ignore_completed : (e : Err) → Keeps P (ignore_completed e)
  Keeps-ignore_completed e = record { at = λ env w h. h }

  pub Keeps-voucher_id : Keeps P generate_voucher_id
  unfolding generate_voucher_id
  Keeps-voucher_id = record { at = λ env w h. h }

  pub Keeps-publish_terminal_result :
      (r : RewardRequest) (rec : IssueRecord) → Keeps P (publish_terminal_result r rec)
  unfolding publish_terminal_result publish_result
  Keeps-publish_terminal_result r rec = search keeps_rules depth 20

  either_holds :
      {A B : Type 0} (f : A → M B) (g : Err → M B)
      → ((a : A) → Keeps P (f a))
      → ((e : Err) → Keeps P (g e))
      → (r : Result A) (env : Env) (w : World) → P w.tables w.next_id
      → let out : Result B × World = elim r as (λ _. Result B × World) [
        | ok a ↦ f a env w
        | err e ↦ g e env w
      ] in
        P out.1.tables out.1.next_id
  either_holds f g kf kg (ok a) env w h = (kf a).at env w h
  either_holds f g kf kg (err e) env w h = (kg e).at env w h

  -- `m`, then one of two ways on.
  pub Keeps-either :
      {A B : Type 0} (m : M A) (f : A → M B) (g : Err → M B)
      → Keeps P m
      → ((a : A) → Keeps P (f a))
      → ((e : Err) → Keeps P (g e))
      → Keeps P (λ env w.
        let (res, w') = m env w in
        elim res as (λ _. Result B × World) [ ok a ↦ f a env w' | err e ↦ g e env w' ])
  Keeps-either m f g km kf kg = record {
    at = λ env w h. let (res, w') = m env w in either_holds f g kf kg res env w' (km.at env w h);
  }
