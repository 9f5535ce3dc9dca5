-- ===== src/Kafka/Listener.antt =====
-- server/kafka/listener: the three handlers and where they are registered, and
-- server/kafka/message.go.
use reward_mservice.Common.{ℕ, some, List, [], Text, codes}
use reward_mservice.Errs.{Err, driver, distribution_deferred}
use reward_mservice.World.{M, pure, throw, asks, require, rescue, ◌>>=◌}
use reward_mservice.IssueRequest.Service.Handlers.{process_kafka_event}
use reward_mservice.Reward.Service.{execute_reward_distribution}
use reward_mservice.Finance.Budgets.{init_from_approved_doc}
use reward_mservice.Kafka.Registry.{Handlers, register_handler}

-- `Message`; the headers are a map.
pub record Message : Type 0 where
  pub topic : Text
  pub partition : ℕ
  pub offset : ℕ
  pub key : Text
  pub value : Text
  pub headers : List (Text × Text)

-- `Handler`
abbrev pub Handler : Type 0
Handler = Message → M (Unit {0})

unfoldable pub handle_finance_doc_approved : Handler
handle_finance_doc_approved msg = do
  decoded ← asks (λ env. env.json.doc_approved msg.value)
  doc_id ← require decoded driver
  init_from_approved_doc doc_id

unfoldable pub handle_issue_request_updated : Handler
handle_issue_request_updated msg = do
  decoded ← asks (λ env. env.json.request_updated msg.value)
  id ← require decoded driver
  process_kafka_event id

-- ErrDistributionDeferred is no error.
abbrev pub ignore_deferred : Err → M (Unit {0})
ignore_deferred distribution_deferred = pure tt
ignore_deferred e = throw e

unfoldable pub handle_reward_distribution_execute : Handler
handle_reward_distribution_execute msg = do
  decoded ← asks (λ env. env.json.execute_event msg.value)
  id ← require decoded driver
  rescue (execute_reward_distribution id) ignore_deferred

abbrev pub topic_finance_doc_approved : Text
topic_finance_doc_approved = codes "reward.finance_doc.approved"

abbrev pub topic_issue_request_updated : Text
topic_issue_request_updated = codes "reward.issue_request.approved"

abbrev pub topic_reward_distribution_execute : Text
topic_reward_distribution_execute = codes "reward.distribution.execute"

-- The `init` of the package.
unfoldable pub registered_handlers : Handlers Handler
registered_handlers =
    register_handler topic_reward_distribution_execute (some handle_reward_distribution_execute) (
      register_handler topic_issue_request_updated (some handle_issue_request_updated)
        (register_handler topic_finance_doc_approved (some handle_finance_doc_approved) []))
