-- ===== src/IssueRequest.antt =====
-- server/service/issue_request.go
pub mod Input
pub mod Service
pub mod Proofs
pub mod Life
