-- ===== src/Reward/Accounts.antt =====
-- The accounts of the issue budgets: what a budget was given is what it has available, what it has
-- issued and refunded, and what is under way for records that are pending.
pub mod Rows
pub mod Moves
pub mod Settle
pub mod Attempt
pub mod Methods
pub mod Frame
use reward_mservice.Common.{
  ℕ, ◌==◌, ℤ, pos, ◌+ℤ◌, Bool, true, false, ◌&&◌, Option, none, some, List, All, Text, find, ◌≡◌,
  ◌⊎◌, if◌then◌else◌,
}
use reward_mservice.Model.{IssueBudget, RewardRequest, IssueRecord, RecordStatus, is_record_status}
use reward_mservice.World.{Tables, World}
use reward_mservice.Sql.Laws.{sum_of, Keyed, IsBelow}
use reward_mservice.Sql.Rows.{TextKeyed, has_key}

abbrev pub budget_id : IssueBudget → ℕ
budget_id b = b.id

abbrev pub record_id : IssueRecord → ℕ
record_id r = r.id

abbrev pub client_ref : RewardRequest → Text
client_ref r = r.client_ref_id

abbrev pub is_pending : IssueRecord → Bool
is_pending rec = is_record_status rec.issue_status RecordStatus.pending

-- `*issue_request_id == i`
abbrev pub points_to : ℕ → Option ℕ → Bool
points_to i none = false
points_to i (some j) = j == i

-- The budgets and the records of one issue request.
module _ (i : ℕ) where
  abbrev pub accounted_for : IssueBudget → ℤ
  accounted_for b =
      if b.issue_request_id == i
      then (b.available_amount +ℤ b.issued_amount) +ℤ b.refund_amount
      else pos 0

  abbrev pub given : IssueBudget → ℤ
  given b = if b.issue_request_id == i then b.total_amount else pos 0

  abbrev pub under_way : IssueRecord → ℤ
  under_way rec =
      if points_to i rec.issue_request_id && is_pending rec then rec.reward_amount else pos 0

  unfoldable pub IsBalanced : Tables → Type 0
  IsBalanced t =
      sum_of accounted_for t.issue_budgets +ℤ sum_of under_way t.issue_records
      ≡ sum_of given t.issue_budgets

-- A record was made for a request, and is for its amount as long as it is pending.
pub record Claims (requests : List RewardRequest) (rec : IssueRecord) : Type 0 where
  pub request : RewardRequest
  pub found : find (has_key client_ref rec.client_reference_id) requests ≡ some request
  pub amount : (is_pending rec ≡ false) ⊎ (rec.reward_amount ≡ request.amount)

pub record IsAccounted (t : Tables) (n : ℕ) : Type 0 where
  pub budgets_keyed : Keyed budget_id t.issue_budgets
  pub budgets_below : IsBelow budget_id n t.issue_budgets
  pub records_keyed : Keyed record_id t.issue_records
  pub records_below : IsBelow record_id n t.issue_records
  pub refs : TextKeyed client_ref t.reward_requests
  pub claims : All (Claims t.reward_requests) t.issue_records
  pub balanced : (i : ℕ) → IsBalanced i t

-- … in the tables of a world.
abbrev pub IsAccountedIn : World → Type 0
IsAccountedIn w = IsAccounted w.tables w.next_id
