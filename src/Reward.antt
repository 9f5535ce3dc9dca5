-- ===== src/Reward.antt =====
-- The distribution of rewards: server/service/issue_record_service.go and
-- server/proxy/voucher_issuer.go.
pub mod Input
pub mod Issuer
pub mod Budgets
pub mod Service
pub mod Accounts
pub mod Proofs
