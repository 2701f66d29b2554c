-- ===== src/RuleStatus.antt =====
-- Writing a rule's status to the server: updateRuleStatus and cleanupDeletedNodes (internal/
-- controller/nodereadinessgaterule_controller.go).
pub mod Laws
pub mod Existing
pub mod Pruning
pub mod Generations
use node_readiness_gate_cont.Prelude.{
  String, Bool, List, Option, none, some, Result, ok, err, if◌then◌else◌, eqb, length,
}
use node_readiness_gate_cont.Prelude.GoMap.{GoMap}
use node_readiness_gate_cont.Core.{Node}
use node_readiness_gate_cont.Api.{NodeReadinessGateRule, NodeReadinessGateRuleStatus}
use node_readiness_gate_cont.Client.{Client, Fault, error_of}
use node_readiness_gate_cont.Status.{existing_nodes, keep_existing}

-- The five assignments to `latestRule.Status`; its conditions are left alone.
unfoldable pub merged : NodeReadinessGateRule → NodeReadinessGateRule → NodeReadinessGateRule
merged latest rule =
    let status = latest.status in
    let mine = rule.status in
    record latest {
      status = record status {
        node_evaluations = mine.node_evaluations;
        applied_nodes = mine.applied_nodes;
        failed_nodes = mine.failed_nodes;
        observed_generation = mine.observed_generation;
        dry_run_results = mine.dry_run_results;
      };
    }

module _ (c : Client) where
  merge_in :
      NodeReadinessGateRule → Result c.Err NodeReadinessGateRule × c.World → Option c.Err × c.World
  merge_in rule (err e, w) = (some e, w)
  merge_in rule (ok latest, w) =
      let (answer, w') = c.update_rule_status (merged latest rule) w in (error_of answer, w')

  -- The function that `updateRuleStatus` hands to the retry loop.
  unfoldable pub merge_attempt : NodeReadinessGateRule → c.World → Option c.Err × c.World
  unfolding merge_in merged
  merge_attempt rule w = merge_in rule (c.get_rule rule.name w)

  unfoldable pub update_rule_status : NodeReadinessGateRule → c.World → Option c.Err × c.World
  unfolding merge_attempt
  update_rule_status rule w = c.retry_on_conflict (merge_attempt rule) w

  prune_in : GoMap Bool → Result c.Err NodeReadinessGateRule × c.World → Option c.Err × c.World
  prune_in existing (err e, w) = (some e, w)
  prune_in existing (ok fresh, w) =
      let status = fresh.status in
      let kept = keep_existing existing status.node_evaluations in
      if eqb (length kept) (length status.node_evaluations)
      then (none, w)
      else let (answer, w') =
          c.update_rule_status (record fresh { status = record status { node_evaluations = kept } })
            w in
        (error_of answer, w')

  -- The function that `cleanupDeletedNodes` hands to the retry loop.
  unfoldable pub prune_attempt : GoMap Bool → String → c.World → Option c.Err × c.World
  unfolding prune_in keep_existing
  prune_attempt existing name w = prune_in existing (c.get_rule name w)

  deleted_listed :
      NodeReadinessGateRule → Result c.Err (List Node) × c.World → Option c.Err × c.World
  unfolding prune_attempt existing_nodes
  deleted_listed rule (err e, w) = (some e, w)
  deleted_listed rule (ok nodes, w) =
      let existing = existing_nodes nodes in
      let kept = keep_existing existing rule.status.node_evaluations in
      if eqb (length kept) (length rule.status.node_evaluations)
      then (none, w)
      else c.retry_on_conflict (prune_attempt existing rule.name) w

  unfoldable pub cleanup_deleted_nodes : NodeReadinessGateRule → c.World → Option c.Err × c.World
  unfolding deleted_listed
  cleanup_deleted_nodes rule w = deleted_listed rule (c.list_nodes w)
