-- ===== src/NodeReconciler/Isolation.antt =====
-- Which nodes the reconciliation of a node may change.
use node_readiness_gate_cont.Prelude.{
  ◌≡◌, refl, sym, ap, ◌∙◌, ◌≢◌, inl, inr, String, List, [], ◌∷◌, Result, ok, err, Bool-cases,
}
use node_readiness_gate_cont.Prelude.GoMap.{GoMap}
use node_readiness_gate_cont.Core.{Node, Selectors}
use node_readiness_gate_cont.Api.{NodeReadinessGateRule}
use node_readiness_gate_cont.Client.{Client}
use node_readiness_gate_cont.Client.Store.{Store}
use node_readiness_gate_cont.Bootstrap.{is_bootstrap_completed}
use node_readiness_gate_cont.Bootstrap.Laws.{is_bootstrap_completed-reads}
use node_readiness_gate_cont.Evaluation.{evaluate_and_record}
use node_readiness_gate_cont.Evaluation.Isolation.{
  evaluate_and_record-OnlyNode, evaluate_and_record-name,
}
use node_readiness_gate_cont.RuleStatus.Laws.{update_rule_status_outcome}
use node_readiness_gate_cont.Controller.{State, get_applicable_rules_for_node}
use node_readiness_gate_cont.NodeReconciler.{
  evaluate_cached, process_rule, process_rules, process_node_against_all_rules, after_process,
  fetched, reconcile,
}
use node_readiness_gate_cont.NodeReconciler.Laws.{
  is_skipped, process_rule_skipped, process_rule_evaluated,
}

module _ (c : Client) (s : Store c) where
  -- The other nodes are stored as before, and the node in memory has its name still.
  record Spares (name : String) (st : State c) (out : Node × State c) : Type 0 where
    named : out.0.name ≡ name
    others : (k : String) → k ≢ name → s.node_at out.1.world k ≡ s.node_at st.world k

  evaluate_cached-Spares :
      (key : String) (rule : NodeReadinessGateRule) (node : Node) (st : State c)
      → Spares node.name st (evaluate_cached c key rule node st)
  unfolding evaluate_cached
  evaluate_cached-Spares key rule node st =
      let out = evaluate_and_record c rule node st.world in
      let (nodes, _) = update_rule_status_outcome c s out.rule out.world in
      record {
        named = evaluate_and_record-name c s rule node st.world;
        others = λ k h.
            ap (λ f. f k) nodes ∙ (evaluate_and_record-OnlyNode c s rule node st.world).others k h;
      }

  process_rule-Spares :
      (key : String) (rule : NodeReadinessGateRule) (node : Node) (st : State c)
      → Spares node.name st (process_rule c key rule node st)
  process_rule-Spares key rule node st =
      let (nodes, _) = is_bootstrap_completed-reads c s node.name rule.name st.world in
      elim (Bool-cases (is_skipped c rule node st)) [
        | inl skipped ↦
            rw (process_rule_skipped c key rule node st skipped)
              (record { named = refl; others = λ k h. ap (λ f. f k) nodes })
        | inr taken ↦
            let run =
              evaluate_cached-Spares key rule node
                (record st { world = (is_bootstrap_completed c node.name rule.name st.world).1 }) in
            rw (process_rule_evaluated c key rule node st taken)
              (record { named = run.named; others = λ k h. run.others k h ∙ ap (λ f. f k) nodes })
      ]

  process_rules_others :
      (k : String) (rules : List (String × NodeReadinessGateRule)) (node : Node) (st : State c)
      → k ≢ node.name
      → s.node_at (process_rules c rules node st).1.world k ≡ s.node_at st.world k
  unfolding process_rules
  process_rules_others k [] node st h = refl
  process_rules_others k ((key, rule) ∷ rules) node st h =
      let here = process_rule-Spares key rule node st in
      process_rules_others k rules _ _ (λ e. h (e ∙ here.named)) ∙ here.others k h

  module _ (sel : Selectors)
      (visit : GoMap NodeReadinessGateRule → GoMap NodeReadinessGateRule) where
    -- Whatever rules are cached and whatever calls fail, the reconciliation of a node changes no
    -- other stored node.
    pub reconcile_others :
        (name k : String) (st : State c)
        → k ≢ name
        → s.node_at (reconcile c sel visit name st).1.world k ≡ s.node_at st.world k
    unfolding reconcile fetched process_node_against_all_rules after_process
    reconcile_others name k st h = answered (c.get_node name st.world) refl
      where
        answered :
            (a : Result c.Err Node × c.World)
            → c.get_node name st.world ≡ a
            → s.node_at (fetched c sel visit st a).1.world k ≡ s.node_at st.world k
        answered (err e, v) q =
            ap (λ p. s.node_at p.1 k) (sym q) ∙ ap (λ f. f k) (s.get_node_nodes st.world name)
        answered (ok node, v) q =
            let named = s.node_name st.world name node (s.get_node_ok st.world v name node q) in
            process_rules_others k (get_applicable_rules_for_node sel visit st.cache node) node
              (record st { world = v }) (λ e. h (e ∙ named))
            ∙ ap (λ p. s.node_at p.1 k) (sym q)
            ∙ ap (λ f. f k) (s.get_node_nodes st.world name)
