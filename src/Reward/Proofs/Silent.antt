-- ===== src/Reward/Proofs/Silent.antt =====
-- What `ProcessVoucherIssueRequest` does before its INSERT writes nothing and sends nothing.
use reward_mservice.Common.{ℕ, List, Text}
use reward_mservice.Amount.{Rat, Amount, decimal, text, cmp_rat}
use reward_mservice.Model.{TemplateType, TemplateConfig}
use reward_mservice.World.{pure}
use reward_mservice.World.Silent.{
  Silent, silent_rules, Silent-pure, Silent-throw, Silent-if, Silent-bind,
}
use reward_mservice.Dao
use reward_mservice.IssueRequest.Input.{to_column}
use reward_mservice.Reward.Input.{
  RewardDistributionRequest, parse_reward_distribution_request, resolve_reward_amount, read_amount,
  resolve_reward_amount_from_request, calculate_fixed_template_reward_amount, apply_cap, is_blank,
  capped, calculate_dynamic_template_reward_amount, parse_and_validate_dynamic_template_config,
  parse_reward_metric_value, calculate_template_amount, resolve_reward_amount_from_template,
}

Silent-read_amount : (s : Amount) → Silent (read_amount s)
unfolding read_amount
Silent-read_amount s = search silent_rules depth 20

Silent-from_request :
    (r : RewardDistributionRequest) → Silent (resolve_reward_amount_from_request r)
unfolding resolve_reward_amount_from_request
Silent-from_request r = search (silent_rules, Silent-read_amount) depth 20

Silent-fixed : (c : TemplateConfig) → Silent (calculate_fixed_template_reward_amount c)
unfolding calculate_fixed_template_reward_amount
Silent-fixed c = search (silent_rules, Silent-read_amount) depth 20

Silent-apply_cap : (cap : Amount) (a : Rat) → Silent (apply_cap cap a)
Silent-apply_cap cap a = Silent-if (is_blank cap) (pure a) _ (Silent-pure a) (
    Silent-bind _ (λ c. pure (capped a c (cmp_rat a c))) (Silent-read_amount cap)
      (λ c. Silent-pure _))

Silent-dynamic :
    (c : TemplateConfig) (m : List (Text × Text))
    → Silent (calculate_dynamic_template_reward_amount c m)
unfolding calculate_dynamic_template_reward_amount parse_and_validate_dynamic_template_config
    parse_reward_metric_value
Silent-dynamic c m = search (silent_rules, Silent-read_amount, Silent-apply_cap) depth 20

Silent-calculate :
    (y : TemplateType) (c : TemplateConfig) (m : List (Text × Text))
    → Silent (calculate_template_amount y c m)
unfolding calculate_template_amount
Silent-calculate TemplateType.fixed c m = Silent-fixed c
Silent-calculate TemplateType.dynamic c m = Silent-dynamic c m
Silent-calculate TemplateType.unknown_type c m = Silent-throw _

Silent-from_template :
    (id : ℕ) (m : List (Text × Text)) → Silent (resolve_reward_amount_from_template id m)
unfolding resolve_reward_amount_from_template Dao.Templates.get_by_id
Silent-from_template id m = search (silent_rules, Silent-calculate) depth 20

pub Silent-resolve : (r : RewardDistributionRequest) → Silent (resolve_reward_amount r)
Silent-resolve r = search (silent_rules, Silent-from_request, Silent-from_template)

pub Silent-parse : (r : RewardDistributionRequest) → Silent (parse_reward_distribution_request r)
unfolding parse_reward_distribution_request
Silent-parse r = search silent_rules depth 20

pub Silent-to_column : (a : Amount) → Silent (to_column a)
unfolding to_column
Silent-to_column (decimal d) = Silent-pure d
Silent-to_column (text s) = search silent_rules depth 20
