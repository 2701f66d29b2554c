-- ===== src/NodeReconciler/Overwriting.antt =====
-- What the reconciliation of a node makes of a status that was stored since the rule was cached.
use node_readiness_gate_cont.Prelude.{
  ◌≡◌, refl, sym, ap, ◌∙◌, inl, inr, String, List, none, some, Option-cases,
}
use node_readiness_gate_cont.Core.{Node}
use node_readiness_gate_cont.Api.{NodeReadinessGateRule, ConditionEvaluationResult}
use node_readiness_gate_cont.Client.{Client}
use node_readiness_gate_cont.Client.Store.{Store}
use node_readiness_gate_cont.Evaluation.{
  Evaluated, evaluate_rule_for_node, evaluate_and_record, record_node_failure,
}
use node_readiness_gate_cont.Evaluation.Laws.{
  Accounts, evaluation_results, evaluate_rule_for_node-Accounts,
}
use node_readiness_gate_cont.Evaluation.Failure.{
  evaluate_and_record_ok, evaluate_and_record_err, evaluate_and_record_keeps,
}
use node_readiness_gate_cont.RuleStatus.{update_rule_status}
use node_readiness_gate_cont.RuleStatus.Laws.{update_rule_status-IsStored}
use node_readiness_gate_cont.Controller.{State}
use node_readiness_gate_cont.NodeReconciler.{evaluate_cached}

module _ (c : Client) where
  -- The parts of the status that an evaluation never writes.
  abbrev SameRest : NodeReadinessGateRule → NodeReadinessGateRule → Type 0
  SameRest rule rule' =
      (rule'.status.applied_nodes ≡ rule.status.applied_nodes)
      × (rule'.status.observed_generation ≡ rule.status.observed_generation)
      × (rule'.status.dry_run_results ≡ rule.status.dry_run_results)

  evaluated-SameRest :
      (rule : NodeReadinessGateRule) (results : List ConditionEvaluationResult) (out : Evaluated c)
      → Accounts c rule results out
      → SameRest rule out.rule
  evaluated-SameRest rule results out (inl (_, e)) = rw e (refl, refl, refl)
  evaluated-SameRest rule results out (inr (_, _, (es, e))) = rw e (refl, refl, refl)

  evaluate_and_record-SameRest :
      (rule : NodeReadinessGateRule) (node : Node) (w : c.World)
      → SameRest rule (evaluate_and_record c rule node w).rule
  unfolding record_node_failure
  evaluate_and_record-SameRest rule node w =
      let same =
        evaluated-SameRest rule (evaluation_results c rule node)
          (evaluate_rule_for_node c rule node w) (evaluate_rule_for_node-Accounts c rule node w) in
      elim (Option-cases (evaluate_rule_for_node c rule node w).failure) [
        | inl fine ↦ rw (evaluate_and_record_ok c rule node w fine) same
        | inr (f, e) ↦ rw (evaluate_and_record_err c rule node w f e) same
      ]

  -- Where the node reconciler stores the status of a cached rule without an error, the stored
  -- applied nodes, observed generation and dry run results are those of the cached copy, whatever
  -- was stored before.
  pub evaluate_cached_overwrites :
      (s : Store c) (key : String) (rule : NodeReadinessGateRule) (node : Node) (st : State c)
      → (update_rule_status c
          (evaluate_and_record c rule node st.world).rule
          (evaluate_and_record c rule node st.world).world).0
        ≡ none
      → (after : NodeReadinessGateRule) × (s.rule_at
            (evaluate_cached c key rule node st).1.world
            rule.name
          ≡ some after)
        × (after.status.applied_nodes ≡ rule.status.applied_nodes)
        × (after.status.observed_generation ≡ rule.status.observed_generation)
        × (after.status.dry_run_results ≡ rule.status.dry_run_results)
  unfolding evaluate_cached
  evaluate_cached_overwrites s key rule node st h =
      let out = evaluate_and_record c rule node st.world in
      let (_, _, name) = evaluate_and_record_keeps c rule node st.world in
      let (applied, observed, dry) = evaluate_and_record-SameRest rule node st.world in
      let ((before, after, _, found, m, _, _), _) =
        update_rule_status-IsStored c s out.rule out.world h in
      (
        after,
        ap (s.rule_at (update_rule_status c out.rule out.world).1) (sym name) ∙ found,
        m.applied ∙ applied,
        m.observed ∙ observed,
        m.dry_run ∙ dry,
      )
