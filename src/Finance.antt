-- ===== src/Finance.antt =====
-- The finance side: server/service/finance_doc.go, budget_helper.go, project_budget.go and
-- finance_payment.go.
pub mod Payment
pub mod Docs
pub mod Budgets
pub mod DocProofs
pub mod Approved
pub mod InitSoundness
pub mod DocSoundness
pub mod Proofs
pub mod Soundness
pub mod Frame
