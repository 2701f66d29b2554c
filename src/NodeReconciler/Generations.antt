-- ===== src/NodeReconciler/Generations.antt =====
-- The generations of the stored rules under the reconciliation of a node.
use node_readiness_gate_cont.Prelude.{
  ◌≡◌, refl, sym, ap, ◌∙◌, inl, inr, String, List, [], ◌∷◌, Result, ok, err, Bool-cases,
}
use node_readiness_gate_cont.Prelude.GoMap.{GoMap}
use node_readiness_gate_cont.Core.{Node, Selectors}
use node_readiness_gate_cont.Api.{NodeReadinessGateRule}
use node_readiness_gate_cont.Client.{Client}
use node_readiness_gate_cont.Client.Store.{Store}
use node_readiness_gate_cont.Bootstrap.{is_bootstrap_completed}
use node_readiness_gate_cont.Bootstrap.Laws.{is_bootstrap_completed-reads}
use node_readiness_gate_cont.Evaluation.{evaluate_and_record}
use node_readiness_gate_cont.Evaluation.Isolation.{evaluate_and_record-OnlyNode}
use node_readiness_gate_cont.RuleStatus.{update_rule_status}
use node_readiness_gate_cont.RuleStatus.Generations.{
  KeepsGenerations, KeepsGenerations-trans, same-KeepsGenerations,
  update_rule_status-KeepsGenerations,
}
use node_readiness_gate_cont.Controller.{State, get_applicable_rules_for_node}
use node_readiness_gate_cont.NodeReconciler.{
  evaluate_cached, process_rule, process_rules, process_node_against_all_rules, after_process,
  fetched, reconcile,
}
use node_readiness_gate_cont.NodeReconciler.Laws.{
  is_skipped, process_rule_skipped, process_rule_evaluated,
}

module _ (c : Client) (s : Store c) where
  evaluate_cached-KeepsGenerations :
      (key : String) (rule : NodeReadinessGateRule) (node : Node) (st : State c)
      → KeepsGenerations c s st.world (evaluate_cached c key rule node st).1.world
  unfolding evaluate_cached
  evaluate_cached-KeepsGenerations key rule node st =
      let out = evaluate_and_record c rule node st.world in
      KeepsGenerations-trans c s st.world out.world (update_rule_status c out.rule out.world).1
        (same-KeepsGenerations c s st.world out.world
          (evaluate_and_record-OnlyNode c s rule node st.world).rules)
        (update_rule_status-KeepsGenerations c s out.rule out.world)

  process_rule-KeepsGenerations :
      (key : String) (rule : NodeReadinessGateRule) (node : Node) (st : State c)
      → KeepsGenerations c s st.world (process_rule c key rule node st).1.world
  process_rule-KeepsGenerations key rule node st =
      let v = (is_bootstrap_completed c node.name rule.name st.world).1 in
      let (_, rules) = is_bootstrap_completed-reads c s node.name rule.name st.world in
      let read = same-KeepsGenerations c s st.world v rules in
      elim (Bool-cases (is_skipped c rule node st)) [
        | inl skipped ↦ rw (process_rule_skipped c key rule node st skipped) read
        | inr taken ↦ rw (process_rule_evaluated c key rule node st taken) (
            KeepsGenerations-trans c s st.world v _ read
              (evaluate_cached-KeepsGenerations key rule node (record st { world = v })))
      ]

  process_rules-KeepsGenerations :
      (rules : List (String × NodeReadinessGateRule)) (node : Node) (st : State c)
      → KeepsGenerations c s st.world (process_rules c rules node st).1.world
  unfolding process_rules
  process_rules-KeepsGenerations [] node st = same-KeepsGenerations c s st.world st.world refl
  process_rules-KeepsGenerations ((key, rule) ∷ rules) node st =
      KeepsGenerations-trans c s st.world (process_rule c key rule node st).1.world _
        (process_rule-KeepsGenerations key rule node st) (process_rules-KeepsGenerations rules _ _)

  module _ (sel : Selectors)
      (visit : GoMap NodeReadinessGateRule → GoMap NodeReadinessGateRule) where
    pub node_run-KeepsGenerations :
        (name : String) (st : State c)
        → KeepsGenerations c s st.world (reconcile c sel visit name st).1.world
    unfolding reconcile fetched process_node_against_all_rules after_process
    node_run-KeepsGenerations name st = answered (c.get_node name st.world) refl
      where
        answered :
            (a : Result c.Err Node × c.World)
            → c.get_node name st.world ≡ a
            → KeepsGenerations c s st.world (fetched c sel visit st a).1.world
        answered (err e, v) q =
            same-KeepsGenerations c s st.world v
              (ap (λ p. s.rule_at p.1) (sym q) ∙ s.get_node_rules st.world name)
        answered (ok node, v) q =
            KeepsGenerations-trans c s st.world v _
              (same-KeepsGenerations c s st.world v
                (ap (λ p. s.rule_at p.1) (sym q) ∙ s.get_node_rules st.world name))
              (process_rules-KeepsGenerations
                (get_applicable_rules_for_node sel visit st.cache node) node
                (record st { world = v }))
