-- ===== src/Reward/Proofs/Settlement.antt =====
-- `finalizeDistribution`: the settlement of a distribution happens once, and is announced.
use reward_mservice.Common.{
  ℕ, pos, none, some, Text, codes, if◌then◌else◌, [], ◌∷◌, ◌++◌, ◌≡◌, arith, Bool-cases, ◌⊎◌, inl,
  inr, ◌∙◌, sym, subst, is_empty,
}
use reward_mservice.Errs.{Err, driver}
use reward_mservice.Model.{RewardRequest, IssueRecord, RecordStatus}
use reward_mservice.World.{
  RewardDistributionResultEvent, DistributionStatus, World, Env, reward_distribution_result, Result,
  ok, err, publish, transaction, counted,
}
use reward_mservice.World.Transactions.{transaction-cases}
use reward_mservice.Reward.Budgets.{
  Outcome, apply_issue_record_outcome, finalize_in_tx, result_event, publish_result,
  publish_terminal_result, finalize_distribution, ignore_completed,
}
use reward_mservice.Reward.Proofs.Outcomes.{Finalized, finalize_outcome, finalize_sends_nothing}

-- The event `e`, sent if there is a broker, or refused.
abbrev pub Announced :
    RewardDistributionResultEvent → Env → World → Result (Unit {0}) × World → Type 0
Announced e env w out =
    ((out.0 ≡ ok tt)
      × (out.1.outbox ≡ (
          if env.kafka_enabled then w.outbox ++ reward_distribution_result e ∷ [] else w.outbox)))
    ⊎ ((out.0 ≡ err driver) × (out.1.outbox ≡ w.outbox))

-- Either nothing was written and nothing sent, or the request was settled: `done` is the record saved
-- and `e` the event.
abbrev pub Settled :
    RewardRequest
    → IssueRecord
    → RewardDistributionResultEvent
    → ℕ
    → ℕ
    → Outcome
    → Env
    → World
    → Result (Unit {0}) × World
    → Type 0
Settled r done e i j o env w out =
    ((out.1.tables ≡ w.tables) × (out.1.outbox ≡ w.outbox))
    ⊎ (Finalized r done i j o w.tables out.1.tables × Announced e env w out)

terminal_result :
    (r : RewardRequest) (done : IssueRecord) (env : Env) (w : World)
    → Announced (result_event r done done.issue_status) env w (publish_terminal_result r done env w)
      × ((publish_terminal_result r done env w).1.tables ≡ w.tables)
unfolding publish_terminal_result publish_result publish
terminal_result r done env w = (
  elim (Bool-cases (is_empty (result_event r done done.issue_status).client_ref_id)) [
    | inl empty ↦ inr (ground arith)
    | inr named ↦ elim (Bool-cases env.kafka_enabled) [
      | inl on ↦ elim (Bool-cases (env.fails w.calls)) [
        | inl failed ↦ inr (ground arith)
        | inr sent ↦ inl (ground arith)
      ]
      | inr off ↦ inl (ground arith)
    ]
  ],
  ground arith,
)

committed_Settled :
    (r : RewardRequest) (done : IssueRecord) (i j : ℕ) (o : Outcome) (env : Env) (w after : World)
    → Finalized r done i j o w.tables after.tables
    → after.outbox ≡ w.outbox
    → Settled r done
        (result_event r done done.issue_status)
        i
        j
        o
        env
        w
        (publish_terminal_result r done env after)
committed_Settled r done i j o env w after f same =
    let told = terminal_result r done env after in inr (rw told.1 f, rw⁻¹ same told.0)

-- What `finalizeDistribution` does after its transaction.
abbrev after_transaction :
    RewardRequest → IssueRecord → Env → Result (Unit {0}) × World → Result (Unit {0}) × World
after_transaction r done env out = elim out.0 [
  | ok _ ↦ publish_terminal_result r done env out.1
  | err e ↦ ignore_completed e env out.1
]

rolled_back_Settled :
    (r : RewardRequest) (done : IssueRecord) (i j : ℕ) (o : Outcome) (env : Env) (w : World)
    (e : Err) (out : Result (Unit {0}) × World)
    → out.0 ≡ err e
    → out.1.tables ≡ w.tables
    → out.1.outbox ≡ w.outbox
    → Settled r done
        (result_event r done done.issue_status)
        i
        j
        o
        env
        w
        (after_transaction r done env out)
rolled_back_Settled r done i j o env w e (ok _, w') failed same sent = cc
rolled_back_Settled r done i j o env w e (err f, w') failed same sent = inl (same, sent)

pub settles :
    (r : RewardRequest) (rec : IssueRecord) (i j : ℕ) (o : Outcome) (env : Env) (w : World)
    → let done = apply_issue_record_outcome rec r.amount o in
      Settled r done
        (result_event r done done.issue_status)
        i
        j
        o
        env
        w
        (finalize_distribution r rec i j o env w)
unfolding finalize_distribution
settles r rec i j o env w =
    let done = apply_issue_record_outcome rec r.amount o in
    let e = result_event r done done.issue_status in
    elim (transaction-cases (finalize_in_tx r done i j o) env w) [
      | inl c ↦
          let end = finalize_outcome r done i j o env (counted w) c.after c.ran in
          subst (λ x. Settled r done e i j o env w (after_transaction r done env x)) (sym c.result)
            (committed_Settled r done i j o env w (counted c.after) end.0 end.1)
      | inr b ↦
          rolled_back_Settled r done i j o env w b.error
            (transaction (finalize_in_tx r done i j o) env w) b.failed b.tables
            (elim b.outbox [
              | inl e ↦ e
              | inr e ↦ e ∙ finalize_sends_nothing r done i j o env (counted w)
            ])
    ]

-- The reason of a refusal, as it is stored and announced.
abbrev pub refusal : Text → Text
refusal reason = if is_empty reason then codes "downstream business failure" else reason

-- The record as a success (no reason) or a refusal is to leave it, and the event to be sent.
abbrev pub settled_record : RewardRequest → IssueRecord → Outcome → IssueRecord
settled_record r rec none = record rec {
  issue_status = RecordStatus.issued;
  reward_amount = r.amount;
  reason = codes "";
}
settled_record r rec (some reason) = record rec {
  issue_status = RecordStatus.failed;
  reward_amount = pos 0;
  reason = refusal reason;
}

abbrev pub announcement : RewardRequest → IssueRecord → Outcome → RewardDistributionResultEvent
announcement r rec none = record {
  client_ref_id = r.client_ref_id;
  voucher_id = rec.voucher_id;
  status = DistributionStatus.distributed;
  distributed_amount = r.amount;
  failed_reason = codes "";
}
announcement r rec (some reason) = record {
  client_ref_id = r.client_ref_id;
  voucher_id = rec.voucher_id;
  status = DistributionStatus.failed;
  distributed_amount = pos 0;
  failed_reason = refusal reason;
}

-- `finalizeDistribution`. Either it writes nothing and sends nothing, or the request was pending and
-- is now completed, and its amount was added in both budgets to what is issued (after a success) or
-- to what is refunded (after a refusal). The record was saved: after a success as issued with the
-- amount of the request, after a refusal as failed with nothing and the reason. Nothing else in the
-- tables changed. If no error is returned and Kafka is enabled, the event was sent that names the
-- request's client, the voucher, and DISTRIBUTED with the amount or FAILED with the reason; without
-- Kafka, or with an error, nothing was sent.
pub finalize_distribution-Settled :
    (r : RewardRequest) (rec : IssueRecord) (i j : ℕ) (o : Outcome) (env : Env) (w : World)
    → Settled r
        (settled_record r rec o)
        (announcement r rec o)
        i
        j
        o
        env
        w
        (finalize_distribution r rec i j o env w)
unfolding apply_issue_record_outcome result_event
finalize_distribution-Settled r rec i j none env w = settles r rec i j none env w
finalize_distribution-Settled r rec i j (some reason) env w = settles r rec i j (some reason) env w
