-- ===== src/World.antt =====
-- The state that the services share and the shape of a service method: the database, the messages
-- sent to Kafka, and a monad of state and errors. gorm, MySQL, the Kafka client and the remote
-- services are not in the repository: whether a call of them fails, and what the remote services
-- and the generator of ids answer, is an argument, `Env`.
mod State
mod Action
pub mod Transactions
pub mod Keeps
pub mod Triple
pub mod Yields
pub mod Silent
pub use State.*
unfoldable pub use Action.*
