-- ===== src/Evaluation.antt =====
-- One rule against one node: addTaintBySpec, removeTaintBySpec, evaluateRuleForNode and
-- recordNodeFailure (internal/controller). The rule and the node that the source mutates in place
-- are returned.
pub mod Laws
pub mod Effect
pub mod Refinement
pub mod Quiet
pub mod Near
pub mod Bounds
pub mod Failure
pub mod Isolation
use node_readiness_gate_cont.Prelude.{
  String, Bool, true, false, not, ◌&&◌, List, Option, none, some, Result, ok, err, ◌==◌,
  if◌then◌else◌,
}
use node_readiness_gate_cont.Core.{Node, Taint}
use node_readiness_gate_cont.Api.{
  TaintSpec, ConditionEvaluationResult, NodeReadinessGateRule, bootstrap_only,
}
use node_readiness_gate_cont.Client.{Client, Fault, api, wrapped, text_of}
use node_readiness_gate_cont.Taints.{has_taint_by_spec, with_taint, without_taint}
use node_readiness_gate_cont.Conditions.{evaluate_conditions}
use node_readiness_gate_cont.Status.{update_node_evaluations, record_node_failures}
use node_readiness_gate_cont.Bootstrap.{mark_bootstrap_completed}

-- The text that stands for the taint's presence in an evaluation.
abbrev pub taint_status : Bool → String
taint_status true = "Present"
taint_status false = "Absent"

module _ (c : Client) where
  -- The error, the node as it is in memory afterwards, and the world.
  abbrev pub Patched : Type 0
  Patched = Option c.Err × Node × c.World

  -- After a patch that fails the node in memory keeps the taints that were not stored.
  pub patched : Node → Result c.Err Node × c.World → Patched
  patched sent (ok n, w) = (none, n, w)
  patched sent (err e, w) = (some e, sent, w)

  patch_taints : Node → List Taint → c.World → Patched
  unfolding patched
  patch_taints node taints w =
      let sent = record node { taints = taints } in patched sent (c.patch_node node sent w)

  unfoldable pub add_taint_by_spec : Node → TaintSpec → c.World → Patched
  unfolding patch_taints
  add_taint_by_spec node spec w = patch_taints node (with_taint node.taints spec) w

  unfoldable pub remove_taint_by_spec : Node → TaintSpec → c.World → Patched
  unfolding patch_taints
  remove_taint_by_spec node spec w = patch_taints node (without_taint node.taints spec) w

  pub record Evaluated : Type 0 where
    pub failure : Option (Fault c.Err)
    pub rule : NodeReadinessGateRule
    pub node : Node
    pub world : c.World

  -- The end of `evaluateRuleForNode`: the status of the node as it is now is written to the rule.
  pub record_evaluation :
      NodeReadinessGateRule → List ConditionEvaluationResult → Node → c.World → Evaluated
  record_evaluation rule results node w =
      let present = has_taint_by_spec node.taints rule.spec.taint in
      let (now, w') = c.now w in
      let evaluations =
        update_node_evaluations rule.status.node_evaluations node.name results
          (taint_status present) now in
      let status = rule.status in
      record {
        failure = none;
        rule = record rule { status = record status { node_evaluations = evaluations } };
        node = node;
        world = w';
      }

  -- After the removal of the taint: a rule for the bootstrap only is marked as completed.
  pub after_remove : NodeReadinessGateRule → List ConditionEvaluationResult → Patched → Evaluated
  unfolding record_evaluation
  after_remove rule results (some e, node, w) = record {
    failure = some (wrapped "failed to remove taint" (api e));
    rule = rule;
    node = node;
    world = w;
  }
  after_remove rule results (none, node, w) = record_evaluation rule results node (
      if rule.spec.enforcement_mode == bootstrap_only
      then mark_bootstrap_completed c node.name rule.name w
      else w)

  pub after_add : NodeReadinessGateRule → List ConditionEvaluationResult → Patched → Evaluated
  unfolding record_evaluation
  after_add rule results (some e, node, w) = record {
    failure = some (wrapped "failed to add taint" (api e));
    rule = rule;
    node = node;
    world = w;
  }
  after_add rule results (none, node, w) = record_evaluation rule results node w

  unfoldable pub evaluate_rule_for_node : NodeReadinessGateRule → Node → c.World → Evaluated
  unfolding after_remove after_add
  evaluate_rule_for_node rule node w =
      let (should_remove, results) = evaluate_conditions node.conditions rule.spec.conditions in
      let has = has_taint_by_spec node.taints rule.spec.taint in
      if should_remove && has
      then after_remove rule results (remove_taint_by_spec node rule.spec.taint w)
      else if not should_remove && not has
      then after_add rule results (add_taint_by_spec node rule.spec.taint w)
      else record_evaluation rule results node w

  -- `recordNodeFailure` on the rule.
  unfoldable pub record_node_failure :
      NodeReadinessGateRule → String → String → String → c.World → NodeReadinessGateRule × c.World
  record_node_failure rule node_name reason message w =
      let (now, w') = c.now w in
      let status = rule.status in
      let failed = record_node_failures status.failed_nodes node_name reason message now in
      (record rule { status = record status { failed_nodes = failed } }, w')

  -- A failed evaluation is recorded and does not stop the caller's loop.
  unfoldable pub evaluate_and_record : NodeReadinessGateRule → Node → c.World → Evaluated
  unfolding evaluate_rule_for_node record_node_failure
  evaluate_and_record rule node w =
      let out = evaluate_rule_for_node rule node w in
      elim out.failure [
        | none ↦ out
        | some f ↦
            let (rule', w') =
              record_node_failure out.rule out.node.name "EvaluationError" (text_of c f)
                out.world in
            record { failure = some f; rule = rule'; node = out.node; world = w' }
      ]
