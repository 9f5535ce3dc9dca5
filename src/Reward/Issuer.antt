-- ===== src/Reward/Issuer.antt =====
-- server/proxy/voucher_issuer.go
use reward_mservice.Common.{
  ℕ, ◌+◌, ◌==◌, Option, none, some, [], ◌∷◌, ◌++◌, Text, codes, eq_text, trim_space, is_empty, ℤ,
  if◌then◌else◌,
}
use reward_mservice.Model.{IssueRecord}
use reward_mservice.World.{
  asset_reward, AssetRequest, AssetResponse, code_ok, code_invalid_argument, code_not_found,
  code_other, grpc_failed, empty_response, answer, M, pure, asks, ◌>>=◌, ok,
}

-- What `Issue` returns: success, a failure for good with its reason, or an error, after which the
-- caller tries again.
pub data Issued : Type 0 where
  issue_succeeded : Issued
  issue_refused : Text → Issued
  issue_error : Issued

-- `strings.HasPrefix` and `strings.TrimPrefix`: what follows the prefix.
unfoldable pub after_prefix : Text → Text → Option Text
after_prefix [] s = some s
after_prefix (p ∷ ps) [] = none
after_prefix (p ∷ ps) (c ∷ s) = if p == c then after_prefix ps s else none

abbrev pub asset_code_of : Option Text → Option Text
asset_code_of none = none
asset_code_of (some code) = if is_empty code then none else some code

-- `assetCodeFromUnit`
unfoldable pub asset_code_from_unit : Text → Option Text
asset_code_from_unit unit = asset_code_of (after_prefix (codes "CRYPTO_") (trim_space unit))

-- The message, or a text with the code's name if it is empty.
abbrev pub reason_of : Text → Text → Text
reason_of message name = if is_empty message then codes "asset reward failed: " ++ name else message

-- The outcome of the asset service's response.
unfoldable pub read_response : AssetResponse → Issued
read_response grpc_failed = issue_error
read_response empty_response = issue_error
read_response (answer code_ok name message) = issue_succeeded
read_response (answer code_invalid_argument name message) = issue_refused (reason_of message name)
read_response (answer code_not_found name message) = issue_refused (reason_of message name)
read_response (answer code_other name message) = issue_error

-- `assetClient.Reward`
unfoldable pub call_reward : (AssetRequest → ℕ → AssetResponse) → AssetRequest → M AssetResponse
call_reward client request env w = (
  ok (client request w.calls),
  record w { outbox = w.outbox ++ asset_reward request ∷ []; calls = w.calls + 1 },
)

abbrev pub reward_asset :
    (AssetRequest → ℕ → AssetResponse) → IssueRecord → ℤ → Option Text → M Issued
reward_asset client r amount none =
    pure (issue_refused (codes "unsupported crypto unit: " ++ trim_space r.unit))
reward_asset client r amount (some code) = do
  response ←
      call_reward client
        (record { biz_id = r.voucher_id; user_id = r.user_id; asset_code = code; amount = amount })
  pure (read_response response)

abbrev pub issue_with_client :
    Option (AssetRequest → ℕ → AssetResponse) → IssueRecord → ℤ → M Issued
issue_with_client none r amount = pure issue_error
issue_with_client (some client) r amount =
    reward_asset client r amount (asset_code_from_unit r.unit)

-- `issueCryptoReward`
unfoldable pub issue_crypto_reward : IssueRecord → ℤ → M Issued
issue_crypto_reward r amount = do
  client ← asks (λ env. env.asset_client)
  issue_with_client client r amount

-- `Issue`; the service's snapshot of the record is never nil.
unfoldable pub issue : IssueRecord → ℤ → M Issued
issue r amount env w =
    if eq_text r.voucher_type (codes "CRYPTO")
    then issue_crypto_reward r amount env w
    else (ok issue_succeeded, w)
