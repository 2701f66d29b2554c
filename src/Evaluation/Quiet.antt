-- ===== src/Evaluation/Quiet.antt =====
-- The evaluation (evaluateRuleForNode) of a node that is as the rule wants it.
use node_readiness_gate_cont.Prelude.{◌≡◌, refl, Bool, true, false, not, none}
use node_readiness_gate_cont.Core.{Node}
use node_readiness_gate_cont.Api.{NodeReadinessGateRule}
use node_readiness_gate_cont.Client.{Client}
use node_readiness_gate_cont.Client.Store.{Store}
use node_readiness_gate_cont.Evaluation.{record_evaluation, evaluate_rule_for_node}
use node_readiness_gate_cont.Evaluation.Laws.{
  is_ready, has_taint_of, action_for, keep, evaluate_rule_for_node-run_action,
}
use node_readiness_gate_cont.Evaluation.Effect.{IsSettled}

module _ (c : Client) (s : Store c) where
  settled_action : (ready has : Bool) → has ≡ not ready → action_for ready has ≡ keep
  settled_action true true h = absurd (cc)
  settled_action true false h = refl
  settled_action false true h = refl
  settled_action false false h = absurd (cc)

  -- It does not fail and writes to no node.
  pub evaluate_settled :
      (rule : NodeReadinessGateRule) (node : Node) (w : c.World)
      → IsSettled rule node
      → ((evaluate_rule_for_node c rule node w).failure ≡ none)
        × (s.node_at (evaluate_rule_for_node c rule node w).world ≡ s.node_at w)
  unfolding record_evaluation
  evaluate_settled rule node w settled =
      let e = evaluate_rule_for_node-run_action c rule node w in
      let kept = settled_action (is_ready rule node) (has_taint_of rule node) settled in
      rw (e, kept) (refl, s.now_nodes w)
