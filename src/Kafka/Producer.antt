-- ===== src/Kafka/Producer.antt =====
-- server/kafka/producer: the events that the services send, each refused if an id is missing.
use reward_mservice.Common.{ℕ, Text, not, is_empty}
use reward_mservice.Errs.{driver}
use reward_mservice.Model.{is_positive}
use reward_mservice.World.{
  M, throw_if, publish, ◌>>◌, reward_distribution_execute, issue_request_updated,
  finance_doc_approved,
}

-- `PublishExecute`
unfoldable pub publish_execute : ℕ → M (Unit {0})
publish_execute id = do
  throw_if (not (is_positive id)) driver
  publish (reward_distribution_execute id)

unfoldable pub publish_issue_request_updated : ℕ → M (Unit {0})
publish_issue_request_updated id = do
  throw_if (not (is_positive id)) driver
  publish (issue_request_updated id)

unfoldable pub publish_finance_doc_approved : Text → ℕ → M (Unit {0})
publish_finance_doc_approved doc_id project_id = do
  throw_if (is_empty doc_id) driver
  throw_if (not (is_positive project_id)) driver
  publish (finance_doc_approved doc_id project_id)
