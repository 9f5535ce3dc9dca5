-- ===== src/Model/Status.antt =====
-- The status constants of server/repository/model/*.go, with their tests for equality. The columns
-- hold nothing else, since only the services write them.
use reward_mservice.Common.{Bool, true, false}

pub data DocStatus : Type 0 where
  draft to_approve approved rejected : DocStatus

pub data PaymentStatus : Type 0 where
  paid : PaymentStatus

pub data RequestStatus : Type 0 where
  draft to_approve approved rejected ongoing : RequestStatus

pub data ExpenseType : Type 0 where
  refund reward others : ExpenseType

pub data IssueBudgetStatus : Type 0 where
  ongoing ended : IssueBudgetStatus

pub data RewardStatus : Type 0 where
  pending completed : RewardStatus

pub data RecordStatus : Type 0 where
  pending issued failed : RecordStatus

abbrev pub is_request_status : RequestStatus → RequestStatus → Bool
is_request_status RequestStatus.draft RequestStatus.draft = true
is_request_status RequestStatus.to_approve RequestStatus.to_approve = true
is_request_status RequestStatus.approved RequestStatus.approved = true
is_request_status RequestStatus.rejected RequestStatus.rejected = true
is_request_status RequestStatus.ongoing RequestStatus.ongoing = true
is_request_status _ _ = false

abbrev pub is_doc_status : DocStatus → DocStatus → Bool
is_doc_status DocStatus.draft DocStatus.draft = true
is_doc_status DocStatus.to_approve DocStatus.to_approve = true
is_doc_status DocStatus.approved DocStatus.approved = true
is_doc_status DocStatus.rejected DocStatus.rejected = true
is_doc_status _ _ = false

abbrev pub is_reward_status : RewardStatus → RewardStatus → Bool
is_reward_status RewardStatus.pending RewardStatus.pending = true
is_reward_status RewardStatus.completed RewardStatus.completed = true
is_reward_status _ _ = false

abbrev pub is_record_status : RecordStatus → RecordStatus → Bool
is_record_status RecordStatus.pending RecordStatus.pending = true
is_record_status RecordStatus.issued RecordStatus.issued = true
is_record_status RecordStatus.failed RecordStatus.failed = true
is_record_status _ _ = false

abbrev pub is_issue_budget_ongoing : IssueBudgetStatus → Bool
is_issue_budget_ongoing IssueBudgetStatus.ongoing = true
is_issue_budget_ongoing IssueBudgetStatus.ended = false
