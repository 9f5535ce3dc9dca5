-- ===== src/Kafka.antt =====
-- server/kafka: the topics, the handlers and the consumer.
pub mod Producer
pub mod Topic
pub mod Registry
pub mod Listener
pub mod Consumer
pub mod Proofs
pub mod Commits
