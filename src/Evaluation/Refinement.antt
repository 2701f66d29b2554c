-- ===== src/Evaluation/Refinement.antt =====
-- What evaluateRuleForNode is to make of the taints of a node, as a function of the rule and the
-- node alone, and the evaluation against it.
use node_readiness_gate_cont.Prelude.{
  ◌≡◌, refl, sym, ap, Bool, true, false, List, Option, none, some, if◌then◌else◌,
}
use node_readiness_gate_cont.Core.{Node, Taint}
use node_readiness_gate_cont.Api.{NodeReadinessGateRule, ConditionEvaluationResult}
use node_readiness_gate_cont.Client.{Client}
use node_readiness_gate_cont.Client.Store.{Store}
use node_readiness_gate_cont.Client.Listing.{IsFresh}
use node_readiness_gate_cont.Taints.{with_taint, without_taint}
use node_readiness_gate_cont.Taints.Laws.{without_taint_of_absent}
use node_readiness_gate_cont.Evaluation.{
  add_taint_by_spec, remove_taint_by_spec, record_evaluation, after_remove, after_add,
  evaluate_rule_for_node,
}
use node_readiness_gate_cont.Evaluation.Laws.{
  is_ready, has_taint_of, action_for, run_action, evaluate_rule_for_node-run_action,
}
use node_readiness_gate_cont.Evaluation.Effect.{patch_ok}

-- The taints that a rule wants on a node that it selects.
abbrev pub desired_taints : NodeReadinessGateRule → Node → List Taint
desired_taints rule node =
    if is_ready rule node
    then without_taint node.taints rule.spec.taint
    else if has_taint_of rule node
    then node.taints
    else with_taint node.taints rule.spec.taint

abbrev pub desired : NodeReadinessGateRule → Node → Node
desired rule node = record node { taints = desired_taints rule node }

module _ (c : Client) (s : Store c) where
  module _ (rule : NodeReadinessGateRule) (results : List ConditionEvaluationResult)
      (wanted : Node) where
    after_add_node :
        (p : Option c.Err × Node × c.World)
        → (p.0 ≡ none → p.1 ≡ wanted)
        → (after_add c rule results p).failure ≡ none
        → (after_add c rule results p).node ≡ wanted
    unfolding after_add
    after_add_node (some e, n, w) h z = absurd (cc)
    after_add_node (none, n, w) h z = h refl

    after_remove_node :
        (p : Option c.Err × Node × c.World)
        → (p.0 ≡ none → p.1 ≡ wanted)
        → (after_remove c rule results p).failure ≡ none
        → (after_remove c rule results p).node ≡ wanted
    unfolding after_remove
    after_remove_node (some e, n, w) h z = absurd (cc)
    after_remove_node (none, n, w) h z = h refl

  -- The taints for the two answers that an evaluation depends on.
  abbrev taints_for : Bool → Bool → NodeReadinessGateRule → Node → List Taint
  taints_for ready has rule node =
      if ready
      then without_taint node.taints rule.spec.taint
      else if has
      then node.taints
      else with_taint node.taints rule.spec.taint

  action_for_node :
      (ready has : Bool) (rule : NodeReadinessGateRule) (node : Node) (w : c.World)
      → IsFresh c s node w
      → has_taint_of rule node ≡ has
      → (run_action c (action_for ready has) rule node w).failure ≡ none
      → (run_action c (action_for ready has) rule node w).node
        ≡ record node { taints = taints_for ready has rule node }
  unfolding record_evaluation add_taint_by_spec remove_taint_by_spec
  action_for_node true true rule node w fresh t h =
      after_remove_node rule _ _ (remove_taint_by_spec c node rule.spec.taint w)
        (λ q. (patch_ok c s node (without_taint node.taints rule.spec.taint) w _ fresh refl q).0) h
  action_for_node false false rule node w fresh t h =
      after_add_node rule _ _ (add_taint_by_spec c node rule.spec.taint w)
        (λ q. (patch_ok c s node (with_taint node.taints rule.spec.taint) w _ fresh refl q).0) h
  action_for_node true false rule node w fresh t h =
      ap (λ (ts : List Taint). record node { taints = ts })
        (sym (without_taint_of_absent node.taints rule.spec.taint t))
  action_for_node false true rule node w fresh t h = refl

  -- The evaluation of a node as it is stored, if it does not fail, ends with exactly the node
  -- that the rule wants: all other taints, their order and all else of the node are untouched.
  pub evaluate_rule_for_node-desired :
      (rule : NodeReadinessGateRule) (node : Node) (w : c.World)
      → IsFresh c s node w
      → (evaluate_rule_for_node c rule node w).failure ≡ none
      → (evaluate_rule_for_node c rule node w).node ≡ desired rule node
  evaluate_rule_for_node-desired rule node w fresh h =
      let e = evaluate_rule_for_node-run_action c rule node w in
      rw e (
        action_for_node (is_ready rule node) (has_taint_of rule node) rule node w fresh refl
          (rw e at h))
