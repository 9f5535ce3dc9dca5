-- ===== src/Template/Config.antt =====
-- server/service/template.go: what a client's config becomes.
use reward_mservice.Common.{
  pos, Bool, true, not, ◌&&◌, Option, none, some, List, [], ◌∷◌, Text, codes, trim_space, is_empty,
  if◌then◌else◌,
}
use reward_mservice.Errs.{app, invalid_request}
use reward_mservice.Amount.{Amount, text, format_amount, is_negative}
use reward_mservice.Model.{TemplateType, TemplateConfig, DynamicTemplateConfig}
use reward_mservice.Util.{is_one_of, validate_voucher_type, validate_unit, validate_template_type}
use reward_mservice.World.{ok, M, pure, throw, asks, require, throw_if, ◌>>=◌, ◌>>◌}
use reward_mservice.Reward.Input.{read_amount, is_above_zero}

-- Every key is allowed.
unfoldable pub are_allowed : List Text → List Text → Bool
are_allowed allowed [] = true
are_allowed allowed (key ∷ keys) = is_one_of key allowed && are_allowed allowed keys

unfoldable pub validate_config_keys : Text → List Text → M (Unit {0})
validate_config_keys raw allowed = do
  fields ← asks (λ env. env.json.keys raw)
  keys ← require fields (app invalid_request)
  throw_if (not (are_allowed allowed keys)) (app invalid_request)

abbrev pub amount_text : Option Text → M Text
amount_text (some num) = pure num
amount_text none = throw (app invalid_request)

-- A JSON number, or else a string.
unfoldable pub normalize_config_amount : Text → M Text
normalize_config_amount raw = do
  num ← asks (λ env. env.json.number raw)
  str ← asks (λ env. env.json.string raw)
  amount_text (elim num [
    | some n ↦ some n
    | none ↦ elim str [ some s ↦ some (trim_space s) | none ↦ none ]
  ])

-- The JSON of a FixTemplateConfig, and what it is for each of the two configurations.
abbrev pub fix_config : Amount → TemplateConfig
fix_config amount = record {
  as_fixed = some (record { amount = amount });
  as_dynamic = some (record {
    base_metric = codes "";
    rate = record { num = pos 0; den = 1 };
    cap = text (codes "");
  });
}

-- The JSON of a DynamicTemplateConfig.
abbrev pub dynamic_config : DynamicTemplateConfig → TemplateConfig
dynamic_config cfg = record {
  as_fixed = some (record { amount = text (codes "") });
  as_dynamic = some cfg;
}

unfoldable pub parse_fix_template_config : Text → M TemplateConfig
parse_fix_template_config raw = do
  validate_config_keys raw (codes "amount" ∷ [])
  field ← asks (λ env. env.json.amount_field raw)
  payload ← require field (app invalid_request)
  throw_if (is_empty payload) (app invalid_request)
  amount ← normalize_config_amount payload
  parsed ← read_amount (text amount)
  throw_if (not (is_above_zero parsed)) (app invalid_request)
  pure (fix_config (format_amount parsed))

unfoldable pub read_cap : Text → M Amount
read_cap cap = do
  amount ← read_amount (text cap)
  throw_if (is_negative amount.num) (app invalid_request)
  pure (format_amount amount)

-- The cap, which may be left out.
abbrev pub parse_cap : Text → M Amount
parse_cap cap env w =
    if is_empty (trim_space cap) then (ok (text (codes "")), w) else read_cap cap env w

unfoldable pub parse_dynamic_template_config : Text → M TemplateConfig
parse_dynamic_template_config raw = do
  validate_config_keys raw (codes "base_metric" ∷ codes "rate" ∷ codes "cap" ∷ [])
  decoded ← asks (λ env. env.json.dynamic raw)
  cfg ← require decoded (app invalid_request)
  throw_if (is_empty (trim_space cfg.base_metric)) (app invalid_request)
  throw_if (not (is_above_zero cfg.rate)) (app invalid_request)
  cap ← parse_cap cfg.cap
  pure (
      dynamic_config
        (record { base_metric = trim_space cfg.base_metric; rate = cfg.rate; cap = cap }))

abbrev pub parse_template_config : TemplateType → Text → M TemplateConfig
parse_template_config TemplateType.fixed raw = parse_fix_template_config raw
parse_template_config TemplateType.dynamic raw = parse_dynamic_template_config raw
parse_template_config TemplateType.unknown_type raw = throw (app invalid_request)

-- `templateInput`
pub record TemplateInput : Type 0 where
  pub title : Text
  pub voucher_type : Text
  pub unit : Text
  pub template_type : TemplateType
  pub config : TemplateConfig

unfoldable pub parse_template_input :
    (title voucher_type unit template_type config : Text) → M TemplateInput
parse_template_input raw_title voucher_type unit template_type config = do
  let title = trim_space raw_title
  throw_if (is_empty title) (app invalid_request)
  voucher ← require (validate_voucher_type voucher_type) (app invalid_request)
  u ← require (validate_unit unit) (app invalid_request)
  kind ← require (validate_template_type template_type) (app invalid_request)
  throw_if (is_empty config) (app invalid_request)
  normalized ← parse_template_config kind config
  pure (record {
    title = title;
    voucher_type = voucher;
    unit = u;
    template_type = kind;
    config = normalized;
  })
