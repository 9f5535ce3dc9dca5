-- ===== src/Dao/IssueRequests.antt =====
-- server/repository/dao/issue_request_dao.go
use reward_mservice.Common.{ℕ, ◌==◌, ℤ, Bool, ◌&&◌, Option, List, [], ◌∷◌, ◌++◌, Text, find}
use reward_mservice.Errs.{app, invalid_status_transition}
use reward_mservice.Model.{IssueRequest, RequestStatus, is_request_status}
use reward_mservice.World.{Tables, M, pure, query, execute, execute_if, new_ids, ◌>>=◌, ◌>>◌}
use reward_mservice.Sql.{update, has}

abbrev pub has_id : ℕ → IssueRequest → Bool
has_id i r = r.id == i

abbrev pub on_requests : (List IssueRequest → List IssueRequest) → Tables → Tables
on_requests f t = record t { issue_requests = f t.issue_requests }

-- gorm writes the new id into the row that it is given.
unfoldable pub create : IssueRequest → M IssueRequest
create r = do
  n ← new_ids 1
  execute (on_requests (λ old. old ++ (record r { id = n }) ∷ []))
  pure (record r { id = n })

unfoldable pub get_by_id : ℕ → M (Option IssueRequest)
get_by_id i = query (λ t. find (has_id i) t.issue_requests)

unfoldable pub get_by_id_for_update : ℕ → M (Option IssueRequest)
get_by_id_for_update i = query (λ t. find (has_id i) t.issue_requests)

abbrev pub set_fields : Text → Text → ℤ → Text → IssueRequest → IssueRequest
set_fields voucher unit amount remark r = record r {
  voucher_type = voucher;
  unit = unit;
  amount = amount;
  remark = remark;
}

unfoldable pub update_fields : ℕ → Text → Text → ℤ → Text → M (Unit {0})
update_fields i voucher unit amount remark =
    execute (on_requests (update (has_id i) (set_fields voucher unit amount remark)))

-- id = ? AND request_status = ?
abbrev pub has_id_and_status : ℕ → RequestStatus → IssueRequest → Bool
has_id_and_status i s r = r.id == i && is_request_status r.request_status s

abbrev pub set_status : RequestStatus → Text → IssueRequest → IssueRequest
set_status s remark r = record r { request_status = s; remark = remark }

unfoldable pub update_status_in_tx : ℕ → RequestStatus → RequestStatus → Text → M (Unit {0})
update_status_in_tx i from to remark =
    execute_if (λ t. has (has_id_and_status i from) t.issue_requests)
      (app invalid_status_transition)
      (on_requests (update (has_id_and_status i from) (set_status to remark)))

abbrev pub set_ongoing : IssueRequest → IssueRequest
set_ongoing r = record r { request_status = RequestStatus.ongoing }

unfoldable pub mark_ongoing : ℕ → M (Unit {0})
mark_ongoing i =
    execute (on_requests (update (has_id_and_status i RequestStatus.approved) set_ongoing))
