-- ===== src/Reward/Input.antt =====
-- server/service/issue_record_service.go: what a distribution request asks for.
use reward_mservice.Common.{
  ℕ, ◌==◌, ltb, pos, Bool, true, false, not, ◌||◌, Option, none, some, List, [], ◌∷◌, Text, eq_text,
  trim_space, is_empty, ltb_ℤ, if◌then◌else◌,
}
use reward_mservice.Errs.{app, wrap, invalid_request, internal_error, template_not_found}
use reward_mservice.Amount.{
  Rat, Amount, decimal, text, greater, Cmp, parse_amount, format_amount, cmp_rat, mul_rat,
}
use reward_mservice.Model.{
  Template, TemplateType, TemplateStatus, TemplateConfig, DynamicTemplateConfig,
}
use reward_mservice.World.{ok, M, pure, throw, asks, require, throw_if, or_else, ◌>>=◌, ◌>>◌}
use reward_mservice.Dao
use reward_mservice.Util.{validate_voucher_type, validate_unit}

-- rewardpb.RewardDistributionRequest, as its getters give it; `metrics` is a map.
pub record RewardDistributionRequest : Type 0 where
  pub client_ref_id : Text
  pub user_id : ℕ
  pub project_id : ℕ
  pub voucher_type : Text
  pub unit : Text
  pub amount : Text
  pub template_id : ℕ
  pub metrics : List (Text × Text)

-- `rewardDistributionInput`
pub record RewardDistributionInput : Type 0 where
  pub client_ref_id : Text
  pub user_id : ℕ
  pub project_id : ℕ

-- The fields of the input that `resolveRewardAmount` fills.
pub record Reward : Type 0 where
  pub voucher_type : Text
  pub unit : Text
  pub amount : Amount

unfoldable pub parse_reward_distribution_request :
    RewardDistributionRequest → M RewardDistributionInput
parse_reward_distribution_request request = do
  let ref = trim_space request.client_ref_id
  throw_if (is_empty ref) (app invalid_request)
  throw_if (request.user_id == 0) (app invalid_request)
  throw_if (request.project_id == 0) (app invalid_request)
  pure (record { client_ref_id = ref; user_id = request.user_id; project_id = request.project_id })

-- `amount.Sign() > 0`
abbrev pub is_above_zero : Rat → Bool
is_above_zero r = ltb_ℤ (pos 0) r.num

-- `util.ParseAmount`, whose error the caller replaces by an invalid request.
unfoldable pub read_amount : Amount → M Rat
read_amount a = do
  set_string ← asks (λ env. env.set_string)
  require (parse_amount set_string a) (app invalid_request)

unfoldable pub resolve_reward_amount_from_request : RewardDistributionRequest → M Reward
resolve_reward_amount_from_request request = do
  voucher ← require (validate_voucher_type request.voucher_type) (app invalid_request)
  u ← require (validate_unit request.unit) (app invalid_request)
  amount ← read_amount (text request.amount)
  throw_if (not (is_above_zero amount)) (app invalid_request)
  pure (record { voucher_type = voucher; unit = u; amount = format_amount amount })

-- `metrics[name]`
unfoldable pub metric : Text → List (Text × Text) → Option Text
metric name [] = none
metric name ((key, value) ∷ rest) = if eq_text key name then some value else metric name rest

unfoldable pub parse_reward_metric_value : Text → List (Text × Text) → M Rat
parse_reward_metric_value name metrics = do
  raw ← require (metric name metrics) (app invalid_request)
  throw_if (is_empty (trim_space raw)) (app invalid_request)
  read_amount (text raw)

unfoldable pub calculate_fixed_template_reward_amount : TemplateConfig → M Rat
calculate_fixed_template_reward_amount raw = do
  cfg ← require raw.as_fixed (app invalid_request)
  read_amount cfg.amount

unfoldable pub parse_and_validate_dynamic_template_config : TemplateConfig → M DynamicTemplateConfig
parse_and_validate_dynamic_template_config raw = do
  cfg ← require raw.as_dynamic (app invalid_request)
  throw_if (is_empty (trim_space cfg.base_metric) || not (is_above_zero cfg.rate))
      (app invalid_request)
  pure cfg

-- `min(amount, cap)`
unfoldable pub capped : Rat → Rat → Cmp → Rat
capped amount cap greater = cap
capped amount cap _ = amount

-- `strings.TrimSpace(cap) == ""`
abbrev pub is_blank : Amount → Bool
is_blank (text s) = is_empty (trim_space s)
is_blank (decimal d) = false

abbrev pub apply_cap : Amount → Rat → M Rat
apply_cap cap amount env w =
    if is_blank cap
    then (ok amount, w)
    else (do c ← read_amount cap; pure (capped amount c (cmp_rat amount c))) env w

unfoldable pub calculate_dynamic_template_reward_amount :
    TemplateConfig → List (Text × Text) → M Rat
calculate_dynamic_template_reward_amount raw metrics = do
  cfg ← parse_and_validate_dynamic_template_config raw
  value ← parse_reward_metric_value cfg.base_metric metrics
  apply_cap cfg.cap (mul_rat value cfg.rate)

unfoldable pub calculate_template_amount :
    TemplateType → TemplateConfig → List (Text × Text) → M Rat
calculate_template_amount TemplateType.fixed config metrics =
    calculate_fixed_template_reward_amount config
calculate_template_amount TemplateType.dynamic config metrics =
    calculate_dynamic_template_reward_amount config metrics
calculate_template_amount TemplateType.unknown_type config metrics = throw (app invalid_request)

abbrev pub calculate_template_reward_amount : Template → List (Text × Text) → M Rat
calculate_template_reward_amount template metrics =
    calculate_template_amount template.template_type template.config metrics

unfoldable pub is_published : TemplateStatus → Bool
is_published TemplateStatus.published = true
is_published TemplateStatus.draft = false

unfoldable pub resolve_reward_amount_from_template : ℕ → List (Text × Text) → M Reward
resolve_reward_amount_from_template id metrics = do
  found ← or_else (Dao.Templates.get_by_id id) (wrap internal_error)
  template ← require found (app template_not_found)
  throw_if (not (is_published template.status)) (app invalid_request)
  amount ← calculate_template_reward_amount template metrics
  throw_if (not (is_above_zero amount)) (app invalid_request)
  pure (record {
    voucher_type = template.voucher_type;
    unit = template.unit;
    amount = format_amount amount;
  })

-- `resolveRewardAmount`; a template id is unsigned.
abbrev pub resolve_reward_amount : RewardDistributionRequest → M Reward
resolve_reward_amount request env w =
    if ltb 0 request.template_id
    then resolve_reward_amount_from_template request.template_id request.metrics env w
    else resolve_reward_amount_from_request request env w
