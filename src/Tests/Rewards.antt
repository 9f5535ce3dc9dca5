-- ===== src/Tests/Rewards.antt =====
-- The acceptance of a reward request at work.
use reward_mservice.Common.{some, [], codes}
use reward_mservice.Reward.Input.{RewardDistributionRequest}
use reward_mservice.Reward.Service.{process_voucher_issue_request}
use reward_mservice.Reward.Proofs.Acceptance.{Ends, process_voucher_issue_request-Ends}
use reward_mservice.Tests.{world, env, crypto, usdt}

abbrev wanted : RewardDistributionRequest
wanted = record {
  client_ref_id = codes "r8";
  user_id = 9;
  project_id = 1;
  voucher_type = crypto;
  unit = usdt;
  amount = codes "1";
  template_id = 0;
  metrics = [];
}

process_voucher_issue_request-Ends_example :
    Ends wanted world.tables world.outbox env
      (process_voucher_issue_request (some wanted) env world)
process_voucher_issue_request-Ends_example = process_voucher_issue_request-Ends wanted env world
