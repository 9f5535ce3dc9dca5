-- ===== src/Reward/Proofs.antt =====
-- What holds of the distribution of rewards.
pub mod Keeps
pub mod Methods
pub mod Soundness
pub mod Outcomes
pub mod Settlement
pub mod Silent
pub mod Acceptance
