-- ===== src/AllNodes/Rules.antt =====
-- The stored rules under a pass over all nodes (processAllNodesForRule), whether or not it fails.
use node_readiness_gate_cont.Prelude.{
  ◌≡◌, refl, sym, ap, ◌∙◌, inl, inr, List, [], ◌∷◌, Result, ok, err, Bool-cases,
}
use node_readiness_gate_cont.Core.{Node, Selectors}
use node_readiness_gate_cont.Api.{NodeReadinessGateRule}
use node_readiness_gate_cont.Client.{Client}
use node_readiness_gate_cont.Client.Store.{Store}
use node_readiness_gate_cont.Evaluation.Isolation.{evaluate_and_record-OnlyNode}
use node_readiness_gate_cont.AllNodes.{
  Progress, applies, process_node, process_nodes, process_listed, process_all_nodes_for_rule,
}

module _ (c : Client) (sel : Selectors) (s : Store c) where
  process_node_rules :
      (p : Progress c) (node : Node)
      → s.rule_at (process_node c sel p node).world ≡ s.rule_at p.world
  unfolding process_node
  process_node_rules p node = elim (Bool-cases (applies c sel p.rule node)) [
    | inl y ↦ rw (y, process_node) ((evaluate_and_record-OnlyNode c s p.rule node p.world).rules)
    | inr n ↦ rw (n, process_node) refl
  ]

  process_nodes_keep_rules :
      (nodes : List Node) (p : Progress c)
      → s.rule_at (process_nodes c sel p nodes).world ≡ s.rule_at p.world
  unfolding process_nodes
  process_nodes_keep_rules [] p = refl
  process_nodes_keep_rules (node ∷ nodes) p =
      process_nodes_keep_rules nodes (process_node c sel p node) ∙ process_node_rules p node

  pub process_all_nodes_rules :
      (rule : NodeReadinessGateRule) (w : c.World)
      → s.rule_at (process_all_nodes_for_rule c sel rule w).2 ≡ s.rule_at w
  unfolding process_all_nodes_for_rule
  process_all_nodes_rules rule w = listed (c.list_nodes w) refl
    where
      listed :
          (a : Result c.Err (List Node) × c.World)
          → c.list_nodes w ≡ a
          → s.rule_at (process_listed c sel rule a).2 ≡ s.rule_at w
      listed (err e, v) q =
          unfold process_listed in ap (λ p. s.rule_at p.1) (sym q) ∙ s.list_nodes_rules w
      listed (ok nodes, v) q =
          unfold process_listed in
          process_nodes_keep_rules nodes (record { rule = rule; applied = []; world = v })
          ∙ ap (λ p. s.rule_at p.1) (sym q)
          ∙ s.list_nodes_rules w
