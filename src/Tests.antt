-- ===== src/Tests.antt =====
-- The theorems at work on small tables.
mod Templates
mod Kafka
mod Life
mod Rewards
use reward_mservice.Common.{
  ℕ, ℤ, pos, ◌+ℤ◌, true, false, Option, none, some, [], ◌∷◌, Text, codes, eq_text, ◌==◌, ◌&&◌, ◌≡◌,
  refl, ap, sym, ◌∙◌, ◌<◌, trim_space, pos_part, arith, if◌then◌else◌, find, Bool-cases, inl, inr,
}
use reward_mservice.Amount.{Rat, round_decimal, decimal, cmp_amount, less}
use reward_mservice.Amount.Laws.{cmp_amount-decimal}
use reward_mservice.Model.{
  FinanceDoc, ProjectBudget, IssueRequest, IssueBudget, RewardRequest, DocStatus, RequestStatus,
  ExpenseType, IssueBudgetStatus, RewardStatus,
}
use reward_mservice.World.{Tables, World, Env, answer, code_ok, transaction}
use reward_mservice.World.Transactions.{Atomic}
use reward_mservice.Dao
use reward_mservice.Sql.Laws.{sum_of}
use reward_mservice.IssueRequest.Service.Tx.{
  submit_issue_request_in_tx, approve_issue_request_in_tx, reject_issue_request_in_tx,
}
use reward_mservice.IssueRequest.Service.Handlers.{
  CreateRequest, UpdateRequest, StatusRequest, create_issue_request, update_issue_request,
  submit_issue_request, approve_issue_request, process_kafka_event,
}
use reward_mservice.IssueRequest.Proofs.Outcomes.{Moves, HasBudgetIds}
use reward_mservice.IssueRequest.Proofs.Atomic.{submit-Atomic, approve-Atomic, reject-Atomic}
use reward_mservice.IssueRequest.Proofs.Backing.{IsBacked}
use reward_mservice.IssueRequest.Proofs.Soundness.{IsSoundIn}
use reward_mservice.IssueRequest.Proofs.Invariant.{
  create_issue_request-IsSound, update_issue_request-IsSound, submit_issue_request-IsSound,
  approve_issue_request-IsSound, process_kafka_event-IsSound,
}
use reward_mservice.Reward.Input.{RewardDistributionRequest}
use reward_mservice.Reward.Budgets.{
  new_record, pre_occupy_budget, finalize_distribution, apply_issue_record_outcome,
}
use reward_mservice.Reward.Service.{process_voucher_issue_request, execute_reward_distribution}
use reward_mservice.Reward.Proofs.Outcomes.{Occupied, pre_occupy_budget-Atomic}
use reward_mservice.Reward.Proofs.Settlement.{
  Settled, settled_record, announcement, finalize_distribution-Settled,
}
use reward_mservice.Reward.Proofs.Soundness.{execute_reward_distribution-IsSound}
use reward_mservice.Finance.Payment.{
  CreatePaymentInput, CreateFinancePaymentRequest, create_finance_payment_in_tx,
  create_finance_payment,
}
use reward_mservice.Finance.Proofs.{Paid, IsRounding, create_finance_payment-Atomic}
use reward_mservice.Finance.Soundness.{create_finance_payment-IsSound}
use reward_mservice.World.Yields.{Value}
use reward_mservice.Finance.Docs.{
  UpdateFinanceDocRequest, update_finance_doc_status, resolve_budget_items,
}
use reward_mservice.Finance.Budgets.{init_from_approved_doc}
use reward_mservice.Finance.DocProofs.{
  Stepped, HasNewPairs, update_finance_doc_status-Atomic, resolve_budget_items-HasNewPairs,
}
use reward_mservice.Finance.DocSoundness.{init_from_approved_doc-IsSound}
use reward_mservice.System.{
  on_submit, on_approve, on_issue_request_updated, on_distribution_execute, after, Reaches, here,
  later,
}
use reward_mservice.System.Soundness.{reaches-IsSound}
use reward_mservice.System.Accounts.{reaches-IsAccounted}
use reward_mservice.Reward.Accounts.{IsBalanced, IsAccountedIn}
use reward_mservice.Reward.Accounts.Methods.{execute_reward_distribution-IsAccounted}

abbrev pub crypto : Text
crypto = codes "CRYPTO"

abbrev pub usdt : Text
usdt = codes "CRYPTO_USDT"

abbrev pub doc : FinanceDoc
doc = record {
  doc_id = codes "d";
  project_id = 1;
  description = codes "";
  application_detail = record { pay_address = codes "a"; amount = codes "9" } ∷ [];
  creator = codes "5";
  status = DocStatus.approved;
  remark = codes "";
}

-- Amounts are in units of 10^-8.
abbrev budget : ProjectBudget
budget = record {
  id = 1;
  finance_doc_id = codes "d";
  project_id = 1;
  voucher_type = crypto;
  unit = usdt;
  total_amount = pos 700000000;
  available_amount = pos 400000000;
  withhold_amount = pos 300000000;
  issued_amount = pos 0;
  refund_amount = pos 0;
}

abbrev pub request_of : ℕ → ℤ → RequestStatus → IssueRequest
request_of id amount status = record {
  id = id;
  project_id = 1;
  voucher_type = crypto;
  unit = usdt;
  amount = amount;
  request_status = status;
  expense_type = ExpenseType.reward;
  creator = codes "5";
  remark = codes "";
}

abbrev issue_budget : IssueBudget
issue_budget = record {
  id = 5;
  issue_request_id = 4;
  voucher_type = crypto;
  unit = usdt;
  available_amount = pos 200000000;
  total_amount = pos 200000000;
  issued_amount = pos 0;
  refund_amount = pos 0;
  status = IssueBudgetStatus.ongoing;
}

abbrev reward_of : ℕ → Text → RewardStatus → RewardRequest
reward_of id ref status = record {
  id = id;
  client_ref_id = ref;
  user_id = 9;
  project_id = 1;
  voucher_type = crypto;
  unit = usdt;
  amount = pos 100000000;
  status = status;
}

abbrev pub tables : Tables
tables = record {
  projects = record { id = 1; name = codes "p"; description = codes "" } ∷ [];
  payment_configs =
      record {
        id = 1;
        pay_address = codes "a";
        voucher_type = crypto;
        unit = usdt;
        payment_account = codes "x";
      }
      ∷ [];
  finance_docs = doc ∷ [];
  project_budgets = budget ∷ [];
  finance_payments = [];
  issue_requests =
      request_of 2 (pos 300000000) RequestStatus.to_approve
      ∷ request_of 3 (pos 100000000) RequestStatus.draft
      ∷ request_of 4 (pos 200000000) RequestStatus.ongoing
      ∷ [];
  issue_budgets = issue_budget ∷ [];
  reward_requests =
      reward_of 6 (codes "r6") RewardStatus.pending
      ∷ reward_of 7 (codes "r7") RewardStatus.completed
      ∷ [];
  issue_records = [];
  templates = [];
}

abbrev pub world : World
world = record { tables = tables; next_id = 20; outbox = []; calls = 0 }

abbrev numbers : Text → Option Rat
numbers s =
    if eq_text s (codes "1")
    then some (record { num = pos 1; den = 1 })
    else if eq_text s (codes "9")
    then some (record { num = pos 9; den = 1 })
    else none

abbrev rounded : Option Rat → Option ℤ
rounded none = none
rounded (some q) = some (pos (round_decimal (pos_part q.num) q.den))

-- No call fails; the texts "1" and "9" are read as amounts.
abbrev pub env : Env
env = record {
  kafka_enabled = true;
  fails = λ n. false;
  translate_error = true;
  column = λ s. rounded (numbers (trim_space s));
  set_string = numbers;
  json = record {
    keys = λ s. some (codes "amount" ∷ []);
    amount_field = λ s. some s;
    number = λ s. if eq_text s (codes "1") then some s else none;
    string = λ s. some s;
    dynamic = λ s. none;
    doc_approved = λ s. some (codes "d");
    request_updated = λ s. some 4;
    execute_event = λ s. some 6;
  };
  uuid = λ n. codes "v";
  user_id = some 5;
  risk = λ user. none;
  asset_client = some (λ q n. answer code_ok (codes "OK") (codes ""));
}

backed : (project : ℕ) (voucher unit : Text) → IsBacked project voucher unit tables
unfolding IsBacked sum_of ◌+ℤ◌
backed project voucher unit =
    elim (Bool-cases (1 == project && (eq_text crypto voucher && eq_text usdt unit))) [
      | inl found ↦ rw found refl
      | inr missed ↦ rw missed refl
    ]

ids : HasBudgetIds tables
unfolding find
ids = (refl, tt)

pub sound : IsSoundIn world
sound = record { keyed = ids; below = (omega arith, tt); backed = backed }

submit-Atomic_example :
    Atomic tables
      (λ _ t'.
        Moves tables t' 3
          (codes "go")
          RequestStatus.to_approve
          (λ b. b.available_amount)
          Dao.ProjectBudgets.withhold)
      (transaction (submit_issue_request_in_tx 3 (codes "go")) env world)
submit-Atomic_example = submit-Atomic 3 (codes "go") env world ids

approve-Atomic_example :
    Atomic tables
      (λ _ t'.
        Moves tables t' 2
          (codes "yes")
          RequestStatus.approved
          (λ b. b.withhold_amount)
          Dao.ProjectBudgets.issue_withheld)
      (transaction (approve_issue_request_in_tx 2 (codes "yes")) env world)
approve-Atomic_example = approve-Atomic 2 (codes "yes") env world ids

reject-Atomic_example :
    Atomic tables
      (λ _ t'.
        Moves tables t' 2
          (codes "no")
          RequestStatus.rejected
          (λ b. b.withhold_amount)
          Dao.ProjectBudgets.release_withheld)
      (transaction (reject_issue_request_in_tx 2 (codes "no")) env world)
reject-Atomic_example = reject-Atomic 2 (codes "no") env world ids

abbrev create_body : Option CreateRequest
create_body = some (record {
  voucher_type = crypto;
  unit = usdt;
  amount = codes "1";
  expense_type = codes "reward";
  remark = codes "";
})

abbrev update_body : Option UpdateRequest
update_body =
    some (record { voucher_type = crypto; unit = usdt; amount = codes "1"; remark = codes "less" })

abbrev status_body : Text → Option StatusRequest
status_body status = some (record { status = status; remark = codes "ok" })

create_issue_request-IsSound_example :
    IsSoundIn (create_issue_request (codes "d") create_body env world).1
create_issue_request-IsSound_example =
    create_issue_request-IsSound env world sound (codes "d") create_body

update_issue_request-IsSound_example :
    IsSoundIn (update_issue_request (codes "d") 3 update_body env world).1
update_issue_request-IsSound_example =
    update_issue_request-IsSound env world sound (codes "d") 3 update_body

submit_issue_request-IsSound_example :
    IsSoundIn (submit_issue_request (codes "d") 3 (status_body (codes "TO_APPROVE")) env world).1
submit_issue_request-IsSound_example =
    submit_issue_request-IsSound env world sound (codes "d") 3 (status_body (codes "TO_APPROVE"))

approve_issue_request-IsSound_example :
    IsSoundIn (approve_issue_request (codes "d") 2 (status_body (codes "approved")) env world).1
approve_issue_request-IsSound_example =
    approve_issue_request-IsSound env world sound (codes "d") 2 (status_body (codes "approved"))

process_kafka_event-IsSound_example : IsSoundIn (process_kafka_event 4 env world).1
process_kafka_event-IsSound_example = process_kafka_event-IsSound env world sound 4

execute_reward_distribution-IsSound_example : IsSoundIn (execute_reward_distribution 6 env world).1
execute_reward_distribution-IsSound_example = execute_reward_distribution-IsSound env world sound 6

abbrev reward : RewardRequest
reward = reward_of 6 (codes "r6") RewardStatus.pending

pre_occupy_budget-Atomic_example :
    Atomic tables
      (λ rec t'. Occupied budget issue_budget (pos 100000000) rec tables t')
      (pre_occupy_budget budget issue_budget reward env world)
pre_occupy_budget-Atomic_example = pre_occupy_budget-Atomic budget issue_budget reward env world

finalize_distribution-Settled_example :
    Settled reward
      (settled_record reward (new_record reward (codes "v")) none)
      (announcement reward (new_record reward (codes "v")) none)
      1
      5
      none
      env
      world
      (finalize_distribution reward (new_record reward (codes "v")) 1 5 none env world)
finalize_distribution-Settled_example =
    finalize_distribution-Settled reward (new_record reward (codes "v")) 1 5 none env world

abbrev payment_input : CreatePaymentInput
payment_input = record {
  doc_id = codes "d";
  payment_address = codes "a";
  unit = usdt;
  amount = codes "1";
}

rounded_lem :
    (o : Option Rat) (a : ℤ) (q : Rat) (n : ℕ)
    → rounded o ≡ some a
    → o ≡ some q
    → q.num ≡ pos n
    → a ≡ pos (round_decimal n q.den)
rounded_lem none a q n h e is = cc
rounded_lem (some p) a q n h e is =
    let same : p ≡ q = cc in
    let value : pos (round_decimal (pos_part p.num) p.den) ≡ a = cc in
    sym value
    ∙ ap (λ x. pos (round_decimal (pos_part x.num) x.den)) same
    ∙ ap (λ z. pos (round_decimal (pos_part z) q.den)) is

numbers_den : (s : Text) (q : Rat) → numbers s ≡ some q → 0 < q.den
numbers_den s q h = ground arith

env-IsRounding : IsRounding env
env-IsRounding = record { at = λ s. rounded_lem (numbers (trim_space s)); den = numbers_den }

create_finance_payment-Atomic_example :
    Atomic tables
      (λ payment t'. Paid env payment_input (codes "v") 1 (codes "9") payment tables t')
      (transaction (create_finance_payment_in_tx payment_input (codes "v") 1 (codes "9")) env world)
create_finance_payment-Atomic_example =
    create_finance_payment-Atomic payment_input (codes "v") 1 (codes "9") env world env-IsRounding

abbrev payment_body : Option CreateFinancePaymentRequest
payment_body = some (record { payment_address = codes "a"; unit = usdt; amount = codes "1" })

create_finance_payment-IsSound_example :
    IsSoundIn (create_finance_payment (codes "d") payment_body env world).1
create_finance_payment-IsSound_example =
    create_finance_payment-IsSound env world sound (codes "d") payment_body

-- A request is submitted, approved, and gets its budget.
abbrev pub last : World
last = after (on_issue_request_updated 3) env (
    after (on_approve (codes "d") 3 (status_body (codes "APPROVED"))) env
      (after (on_submit (codes "d") 3 (status_body (codes "TO_APPROVE"))) env world))

abbrev pub run : Reaches world last
run = later (on_issue_request_updated 3) env (
    later (on_approve (codes "d") 3 (status_body (codes "APPROVED"))) env
      (later (on_submit (codes "d") 3 (status_body (codes "TO_APPROVE"))) env here))

reaches-IsSound_example : IsSoundIn last
reaches-IsSound_example = reaches-IsSound world last run sound

balanced : (i : ℕ) → IsBalanced i tables
unfolding IsBalanced sum_of ◌+ℤ◌
balanced i = elim (Bool-cases (4 == i)) [ inl this ↦ rw this refl | inr other ↦ rw other refl ]

pub accounted : IsAccountedIn world
unfolding find eq_text
accounted = record {
  budgets_keyed = (refl, tt);
  budgets_below = (omega arith, tt);
  records_keyed = tt;
  records_below = tt;
  refs = (refl, (refl, tt));
  claims = tt;
  balanced = balanced;
}

execute_reward_distribution-IsAccounted_example :
    IsAccountedIn (execute_reward_distribution 6 env world).1
execute_reward_distribution-IsAccounted_example =
    execute_reward_distribution-IsAccounted env world accounted 6

-- A request gets its budget, and a reward is distributed.
abbrev spent : World
spent = after (on_distribution_execute 6) env last

reaches-IsAccounted_example : IsAccountedIn spent
reaches-IsAccounted_example =
    reaches-IsAccounted world spent (later (on_distribution_execute 6) env run) accounted

cmp_amount-decimal_example :
    cmp_amount env.set_string (decimal (pos 3)) (decimal (pos 5)) ≡ some less
cmp_amount-decimal_example = cmp_amount-decimal env.set_string 3 5

-- The doc before its approval.
abbrev waiting_world : World
waiting_world = record world {
  tables = record tables {
    finance_docs = (record doc { status = DocStatus.to_approve }) ∷ [];
    project_budgets = [];
    issue_requests = [];
  };
}

abbrev approval : Option UpdateFinanceDocRequest
approval = some (record { status = codes "approved"; remark = codes "" })

update_finance_doc_status-Atomic_example :
    Atomic waiting_world.tables
      (λ response t'. Stepped (codes " d") approval response waiting_world.tables t')
      (update_finance_doc_status (codes " d") approval env waiting_world)
update_finance_doc_status-Atomic_example =
    update_finance_doc_status-Atomic (codes " d") approval env waiting_world

resolve_budget_items-HasNewPairs_example :
    Value (HasNewPairs []) (resolve_budget_items doc.application_detail env world).0
resolve_budget_items-HasNewPairs_example =
    resolve_budget_items-HasNewPairs doc.application_detail env world

init_from_approved_doc-IsSound_example : IsSoundIn (init_from_approved_doc (codes "d") env world).1
init_from_approved_doc-IsSound_example = init_from_approved_doc-IsSound env world sound (codes "d")
