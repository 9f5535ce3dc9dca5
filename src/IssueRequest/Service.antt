-- ===== src/IssueRequest/Service.antt =====
-- server/service/issue_request.go: the operations. Requests arrive as records, `none` for nil;
-- the HTTP layer's binding tags are not repeated here.
pub mod Tx
pub mod Handlers
