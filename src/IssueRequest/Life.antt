-- ===== src/IssueRequest/Life.antt =====
-- The life of an issue request, as server/service/issue_request.go means it: a request is edited
-- while it is a draft or rejected, moves from status to status, and is ongoing once it has a budget.
pub mod Proofs
use reward_mservice.Common.{ℤ, true, ◌≡◌, Text}
use reward_mservice.Model.{IssueRequest, RequestStatus}
use reward_mservice.Dao.IssueRequests.{set_fields, set_status, set_ongoing}
use reward_mservice.IssueRequest.Input.{is_transition}
use reward_mservice.IssueRequest.Proofs.Handlers.{IsEditable}

pub data Step (r : IssueRequest) : IssueRequest → Type 0 where
  edited :
      (voucher unit : Text) (amount : ℤ) (remark : Text)
      → IsEditable r
      → Step r (set_fields voucher unit amount remark r)
  moved :
      (to : RequestStatus) (remark : Text)
      → is_transition r.request_status to ≡ true
      → Step r (set_status to remark r)
  begun : r.request_status ≡ RequestStatus.approved → Step r (set_ongoing r)

-- What a request may have become.
pub data Lives (first : IssueRequest) : IssueRequest → Type 0 where
  born : Lives first first
  goes_on : {r s : IssueRequest} → Lives first r → Step r s → Lives first s
