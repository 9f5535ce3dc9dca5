-- ===== src/Util.antt =====
-- server/util/voucher_enum.go, template_enum.go and auth_context.go. Every error of these functions
-- but the panics is an invalid request, so a validation is an `Option`.
use reward_mservice.Common.{
  ℕ, Bool, not, false, ◌||◌, Option, none, some, List, [], ◌∷◌, Text, codes, eq_text, trim_space,
  format_int, is_empty, to_upper, if◌then◌else◌,
}
use reward_mservice.Errs.{app, invalid_request}
use reward_mservice.Model.{is_positive, TemplateType, TemplateStatus}
use reward_mservice.World.{M, pure, throw, throw_if, asks, ◌>>=◌, ◌>>◌}

unfoldable pub is_one_of : Text → List Text → Bool
is_one_of s [] = false
is_one_of s (t ∷ ts) = eq_text s t || is_one_of s ts

-- The keys of rewardpb.VoucherType_value, without the unspecified one.
abbrev pub voucher_types : List Text
voucher_types = codes "CRYPTO" ∷ codes "COUPON" ∷ codes "POINT" ∷ []

-- The keys of rewardpb.Unit_value, without the unspecified one.
abbrev pub units : List Text
units =
    codes "CRYPTO_BTC"
    ∷ codes "CRYPTO_ETH"
    ∷ codes "CRYPTO_USDT"
    ∷ codes "CRYPTO_USDC"
    ∷ codes "COUPON_CASHBACK"
    ∷ codes "COUPON_DISCOUNT"
    ∷ codes "COUPON_TRADING_FEE_REBATE"
    ∷ codes "POINT_USER_POINTS"
    ∷ []

-- The trimmed name, if it is a key. The empty and the unspecified name are no keys of the lists.
unfoldable pub validate_name : List Text → Text → Option Text
validate_name keys raw =
    let name = trim_space raw in if is_one_of name keys then some name else none

unfoldable pub validate_voucher_type : Text → Option Text
validate_voucher_type = validate_name voucher_types

unfoldable pub validate_unit : Text → Option Text
validate_unit = validate_name units

-- `ValidateTemplateType`
unfoldable pub validate_template_type : Text → Option TemplateType
validate_template_type raw =
    let t = to_upper (trim_space raw) in
    if eq_text t (codes "FIX") || eq_text t (codes "FIXED")
    then some TemplateType.fixed
    else if eq_text t (codes "DYNAMIC")
    then some TemplateType.dynamic
    else none

-- `ValidateTemplateStatus`: `some none` is the empty status, which filters nothing.
unfoldable pub validate_template_status : Text → Option (Option TemplateStatus)
validate_template_status raw =
    let status = to_upper (trim_space raw) in
    if is_empty status
    then some none
    else if eq_text status (codes "DRAFT")
    then some (some TemplateStatus.draft)
    else if eq_text status (codes "PUBLISHED")
    then some (some TemplateStatus.published)
    else none

abbrev pub creator_of : Option ℕ → M Text
creator_of none = throw (app invalid_request)
creator_of (some user) = do
  throw_if (not (is_positive user)) (app invalid_request)
  pure (format_int user)

-- `CurrentUserIDString`
unfoldable pub current_user_id_string : M Text
current_user_id_string = do user ← asks (λ env. env.user_id); creator_of user
