-- ===== src/World/State.antt =====
-- The database, the messages sent and what lies outside of the repository.
use reward_mservice.Common.{ℕ, ℤ, Bool, List, Option, Text}
use reward_mservice.Amount.{Rat}
use reward_mservice.Model.{
  Project, PaymentConfig, FinanceDoc, ProjectBudget, FinancePayment, IssueRequest, IssueBudget,
  RewardRequest, IssueRecord, Template, DynamicTemplateConfigVo,
}

-- The tables of server/resources/init.sql, each in the order of its primary key's assignment.
pub record Tables : Type 0 where
  pub projects : List Project
  pub payment_configs : List PaymentConfig
  pub finance_docs : List FinanceDoc
  pub project_budgets : List ProjectBudget
  pub finance_payments : List FinancePayment
  pub issue_requests : List IssueRequest
  pub issue_budgets : List IssueBudget
  pub reward_requests : List RewardRequest
  pub issue_records : List IssueRecord
  pub templates : List Template

-- kafka/producer/reward_distribution_result_producer.go
pub data DistributionStatus : Type 0 where
  distributed failed : DistributionStatus

pub record RewardDistributionResultEvent : Type 0 where
  pub client_ref_id : Text
  pub voucher_id : Text
  pub status : DistributionStatus
  pub distributed_amount : ℤ
  pub failed_reason : Text

-- asset-mservice's `RewardRequest`, and what its `Reward` answers.
pub record AssetRequest : Type 0 where
  pub biz_id : Text
  pub user_id : ℕ
  pub asset_code : Text
  pub amount : ℤ

pub data AssetCode : Type 0 where
  code_ok code_invalid_argument code_not_found code_other : AssetCode

-- `code_name` is the name of the code, by its `String` method.
pub data AssetResponse : Type 0 where
  grpc_failed : AssetResponse
  empty_response : AssetResponse
  answer : (code : AssetCode) (code_name message : Text) → AssetResponse

-- The events of the four producers, and the calls of the asset service.
pub data Event : Type 0 where
  finance_doc_approved : Text → ℕ → Event
  issue_request_updated : ℕ → Event
  reward_distribution_execute : ℕ → Event
  reward_distribution_result : RewardDistributionResultEvent → Event
  asset_reward : AssetRequest → Event

-- `calls` counts the calls of the database, the broker and the remote services; `next_id` is the
-- next AUTO_INCREMENT value, one for all tables, since only freshness is used.
pub record World : Type 0 where
  pub tables : Tables
  pub next_id : ℕ
  pub outbox : List Event
  pub calls : ℕ

-- What `json.Unmarshal` makes of the config of a template's request and of the messages, with their
-- bytes as a text; `none` is its error.
pub record Json : Type 0 where
  -- into a map[string]json.RawMessage: its keys
  pub keys : Text → Option (List Text)
  -- into the struct with `amount` alone: the raw value of `amount`, empty if there is none
  pub amount_field : Text → Option Text
  -- into a json.Number, as its text
  pub number : Text → Option Text
  -- into a string
  pub string : Text → Option Text
  -- into data.DynamicTemplateConfigVO
  pub dynamic : Text → Option DynamicTemplateConfigVo
  -- into producer.FinanceDocApprovedEvent: its doc_id
  pub doc_approved : Text → Option Text
  -- into producer.IssueRequestUpdatedEvent: its issue_request_id
  pub request_updated : Text → Option ℕ
  -- into producer.RewardDistributionExecuteEvent: its reward_request_id
  pub execute_event : Text → Option ℕ

pub record Env : Type 0 where
  -- whether the producer of GetKafkaProducer is one that sends: Kafka is enabled and its config valid
  pub kafka_enabled : Bool
  -- whether the n-th call fails
  pub fails : ℕ → Bool
  -- gorm.Config.TranslateError, by which a violated unique key is reported as ErrDuplicatedKey
  pub translate_error : Bool
  -- the value that the database gives a DECIMAL(20, 8) column for a client's text
  pub column : Text → Option ℤ
  -- Rat.SetString
  pub set_string : Text → Option Rat
  -- encoding/json
  pub json : Json
  -- uuid.New().String() without its dashes, at the n-th call
  pub uuid : ℕ → Text
  -- the user of the request's context: identity-mservice's `auth.GetUserID`
  pub user_id : Option ℕ
  -- `RiskChecker.Check` for a user: `none` if it passes, else the reason
  pub risk : ℕ → Option Text
  -- the asset service at the n-th call; `none` if its client is not configured
  pub asset_client : Option (AssetRequest → ℕ → AssetResponse)
