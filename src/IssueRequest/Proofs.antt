-- ===== src/IssueRequest/Proofs.antt =====
-- Proofs about server/service/issue_request.go.
pub mod Outcomes
pub mod Atomic
pub mod Backing
pub mod Soundness
pub mod Methods
pub mod Handlers
pub mod Update
pub mod Invariant
