-- ===== src/Tests/Kafka.antt =====
-- The theorems on topics and on the consumer at work.
use reward_mservice.Common.{true, false, List, [], ◌∷◌, Text, codes, ◌≡◌}
use reward_mservice.Kafka.Topic.{prefixed_topic, logical_topic}
use reward_mservice.Kafka.Listener.{registered_handlers, topic_issue_request_updated}
use reward_mservice.Kafka.Consumer.{Record, Consumer, handle_record, Fetch}
use reward_mservice.Kafka.Proofs.{logical_topic-prefixed_topic, Commits, handle_record-Commits}
use reward_mservice.Tests.{world, env}

logical_topic-prefixed_topic_example :
    logical_topic (codes "dev.") (prefixed_topic (codes "dev.") (codes "reward")) ≡ codes "reward"
logical_topic-prefixed_topic_example = logical_topic-prefixed_topic (codes "dev.") (codes "reward")

abbrev record_of : Text → Record
record_of topic = record {
  topic = topic;
  partition = 0;
  offset = 7;
  key = codes "k";
  value = codes "{}";
  headers = [];
}

abbrev consumer : Consumer
consumer = record { world = world; commits = [] }

handle_record-Commits_example :
    Commits [] registered_handlers
      (record_of topic_issue_request_updated)
      env
      consumer
      (handle_record [] registered_handlers (record_of topic_issue_request_updated) env consumer)
handle_record-Commits_example =
    handle_record-Commits [] registered_handlers (record_of topic_issue_request_updated) env
      consumer

abbrev fetches : List Fetch
fetches =
    record { has_errors = true; records = (record_of topic_issue_request_updated, env) ∷ [] }
    ∷ record {
      has_errors = false;
      records =
          (record_of topic_issue_request_updated, env) ∷ (record_of (codes "other"), env) ∷ [];
    }
    ∷ []
