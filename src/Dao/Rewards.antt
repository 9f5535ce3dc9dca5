-- ===== src/Dao/Rewards.antt =====
-- server/repository/dao/reward_request_dao.go and issue_record_dao.go
use reward_mservice.Common.{
  ℕ, ◌==◌, Bool, not, ◌&&◌, ◌||◌, Option, List, [], ◌∷◌, ◌++◌, Text, eq_text, find, select,
  if◌then◌else◌,
}
use reward_mservice.Errs.{app, driver, invalid_status_transition, duplicate_client_ref_id_error}
use reward_mservice.Model.{RewardRequest, RewardStatus, IssueRecord, is_reward_status}
use reward_mservice.World.{
  Tables, M, pure, duplicate_key, query, execute, execute_if, new_ids, ◌>>=◌, ◌>>◌,
}
use reward_mservice.Sql.{update, has}

-- RewardRequestDao

abbrev pub has_id : ℕ → RewardRequest → Bool
has_id i r = r.id == i

abbrev pub has_client_ref_id : Text → RewardRequest → Bool
has_client_ref_id ref r = eq_text r.client_ref_id ref

abbrev pub on_requests : (List RewardRequest → List RewardRequest) → Tables → Tables
on_requests f t = record t { reward_requests = f t.reward_requests }

-- The unique key is client_ref_id.
unfoldable pub create_request : RewardRequest → M RewardRequest
create_request r = do
  e ← duplicate_key duplicate_client_ref_id_error
  n ← new_ids 1
  execute_if (λ t. not (has (has_client_ref_id r.client_ref_id) t.reward_requests)) e
      (on_requests (λ old. old ++ (record r { id = n }) ∷ []))
  pure (record r { id = n })

unfoldable pub get_request_by_client_ref_id : Text → M (Option RewardRequest)
get_request_by_client_ref_id ref = query (λ t. find (has_client_ref_id ref) t.reward_requests)

unfoldable pub get_request_by_id : ℕ → M (Option RewardRequest)
get_request_by_id i = query (λ t. find (has_id i) t.reward_requests)

-- id = ? AND status = ?
abbrev pub has_id_and_status : ℕ → RewardStatus → RewardRequest → Bool
has_id_and_status i s r = r.id == i && is_reward_status r.status s

abbrev pub set_status : RewardStatus → RewardRequest → RewardRequest
set_status s r = record r { status = s }

unfoldable pub update_status : ℕ → RewardStatus → RewardStatus → M (Unit {0})
update_status i from to =
    execute_if (λ t. has (has_id_and_status i from) t.reward_requests)
      (app invalid_status_transition)
      (on_requests (update (has_id_and_status i from) (set_status to)))

-- IssueRecordDao

abbrev pub has_record_id : ℕ → IssueRecord → Bool
has_record_id i r = r.id == i

abbrev pub on_records : (List IssueRecord → List IssueRecord) → Tables → Tables
on_records f t = record t { issue_records = f t.issue_records }

-- The unique keys are voucher_id and reward_request_id.
abbrev pub clashes : IssueRecord → IssueRecord → Bool
clashes r s = eq_text s.voucher_id r.voucher_id || s.reward_request_id == r.reward_request_id

unfoldable pub create_record : IssueRecord → M IssueRecord
create_record r = do
  n ← new_ids 1
  execute_if (λ t. not (has (clashes r) t.issue_records)) driver
      (on_records (λ old. old ++ (record r { id = n }) ∷ []))
  pure (record r { id = n })

-- gorm's `Save`: every column by the primary key, or an INSERT if no row has it.
unfoldable pub save_record : IssueRecord → M (Unit {0})
save_record r = execute (
    on_records (λ old.
      if has (has_record_id r.id) old
      then update (has_record_id r.id) (λ _. r) old
      else old ++ r ∷ []))

unfoldable pub get_record_by_id : ℕ → M (Option IssueRecord)
get_record_by_id i = query (λ t. find (has_record_id i) t.issue_records)

unfoldable pub get_record_by_client_ref_id : Text → M (Option IssueRecord)
get_record_by_client_ref_id ref =
    query (λ t. find (λ r. eq_text r.client_reference_id ref) t.issue_records)

-- The order by time of creation is left out.
unfoldable pub list_records_by_project_id_and_user_id : ℕ → ℕ → M (List IssueRecord)
list_records_by_project_id_and_user_id project user =
    query (λ t. select (λ r. r.project_id == project && r.user_id == user) t.issue_records)
