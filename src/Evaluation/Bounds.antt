-- ===== src/Evaluation/Bounds.antt =====
-- The size of the status of a rule under evaluations (evaluateRuleForNode, recordNodeFailure).
use node_readiness_gate_cont.Prelude.{
  ◌≡◌, ◌≢◌, refl, inl, inr, List, Option, none, some, Option-cases,
}
use node_readiness_gate_cont.Core.{Node}
use node_readiness_gate_cont.Api.{NodeReadinessGateRule, ConditionEvaluationResult}
use node_readiness_gate_cont.Client.{Client, text_of}
use node_readiness_gate_cont.Status.Bounds.{
  GrowsBy, GrowsBy-refl, GrowsBy-trans, update_node_evaluations-GrowsBy,
  record_node_failures-GrowsBy,
}
use node_readiness_gate_cont.Evaluation.{
  Evaluated, record_evaluation, after_remove, after_add, evaluate_rule_for_node,
  record_node_failure, evaluate_and_record,
}
use node_readiness_gate_cont.Evaluation.Laws.{
  Action, remove, add, keep, taint_action, run_action, evaluate_rule_for_node-run_action,
}
use node_readiness_gate_cont.Evaluation.Failure.{evaluate_and_record_ok, evaluate_and_record_err}

module _ (c : Client) where
  -- The status of the rule has grown by at most one entry, and by none if the run has failed.
  record Grows (rule : NodeReadinessGateRule) (out : Evaluated c) : Type 0 where
    fine : out.failure ≡ none → GrowsBy 1 rule.status out.rule.status
    failed : out.failure ≢ none → GrowsBy 0 rule.status out.rule.status

  module _ (rule : NodeReadinessGateRule) (results : List ConditionEvaluationResult) where
    record_evaluation-Grows :
        (node : Node) (w : c.World) → Grows rule (record_evaluation c rule results node w)
    unfolding record_evaluation
    record_evaluation-Grows node w = record {
      fine = λ h. update_node_evaluations-GrowsBy node.name results _ (c.now w).0 rule.status;
      failed = λ h. absurd (h refl);
    }

    after_remove-Grows :
        (p : Option c.Err × Node × c.World) → Grows rule (after_remove c rule results p)
    unfolding after_remove
    after_remove-Grows (some e, n, w) = record {
      fine = λ h. absurd (cc);
      failed = λ h. GrowsBy-refl rule.status;
    }
    after_remove-Grows (none, n, w) = record_evaluation-Grows n _

    after_add-Grows : (p : Option c.Err × Node × c.World) → Grows rule (after_add c rule results p)
    unfolding after_add
    after_add-Grows (some e, n, w) = record {
      fine = λ h. absurd (cc);
      failed = λ h. GrowsBy-refl rule.status;
    }
    after_add-Grows (none, n, w) = record_evaluation-Grows n w

  run_action-Grows :
      (a : Action) (rule : NodeReadinessGateRule) (node : Node) (w : c.World)
      → Grows rule (run_action c a rule node w)
  run_action-Grows remove rule node w = after_remove-Grows rule _ _
  run_action-Grows add rule node w = after_add-Grows rule _ _
  run_action-Grows keep rule node w = record_evaluation-Grows rule _ node w

  -- An evaluation adds at most one entry to the lists of the status, and a sound status stays so.
  pub evaluate_and_record-GrowsBy :
      (rule : NodeReadinessGateRule) (node : Node) (w : c.World)
      → GrowsBy 1 rule.status (evaluate_and_record c rule node w).rule.status
  unfolding record_node_failure
  evaluate_and_record-GrowsBy rule node w =
      let out = evaluate_rule_for_node c rule node w in
      let g : Grows rule out =
        rw (evaluate_rule_for_node-run_action c rule node w)
          (run_action-Grows (taint_action rule node) rule node w) in
      elim (Option-cases out.failure) [
        | inl fine ↦ rw (evaluate_and_record_ok c rule node w fine) (g.fine fine)
        | inr (f, e) ↦ rw (evaluate_and_record_err c rule node w f e) (
            GrowsBy-trans (g.failed (λ z. cc)) (
              record_node_failures-GrowsBy out.node.name "EvaluationError" (text_of c f)
                (c.now out.world).0 out.rule.status))
      ]
