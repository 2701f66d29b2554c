-- ===== src/AllNodes/InLine.antt =====
-- The nodes that a rule has in line: what the passes and the reconciliations of a rule aim at.
use node_readiness_gate_cont.Prelude.{
  ◌≡◌, refl, ◌⊎◌, inl, inr, String, true, false, Option, none, some, Bool-cases,
}
use node_readiness_gate_cont.Core.{Node, Selectors}
use node_readiness_gate_cont.Api.{NodeReadinessGateRule}
use node_readiness_gate_cont.Client.{Client}
use node_readiness_gate_cont.Client.Store.{Store}
use node_readiness_gate_cont.Evaluation.Effect.{IsSettled}
use node_readiness_gate_cont.Evaluation.Failure.{has_failure}
use node_readiness_gate_cont.AllNodes.{applies, process_all_nodes_for_rule}
use node_readiness_gate_cont.AllNodes.Convergence.{process_all_nodes_for_rule-HasConverged}

module _ (c : Client) (sel : Selectors) where
  -- What is stored under the key is no node, a node that the rule does not select, one that has a
  -- failure in the status, or one that carries the taint exactly if some condition is not met.
  abbrev pub IsInLine :
      String → NodeReadinessGateRule → NodeReadinessGateRule → Option Node → Type 0
  IsInLine k rule result none = Unit
  IsInLine k rule result (some n) =
      (applies c sel rule n ≡ false) ⊎ ((has_failure k result ≡ true) ⊎ IsSettled rule n)

  pub in_line :
      (k : String) (rule result : NodeReadinessGateRule) (o : Option Node)
      → ((n : Node)
          → o ≡ some n
          → applies c sel rule n ≡ true
          → has_failure k result ≡ false
          → IsSettled rule n)
      → IsInLine k rule result o
  in_line k rule result none h = tt
  in_line k rule result (some n) h = elim (Bool-cases (applies c sel rule n)) [
    | inr skipped ↦ inl skipped
    | inl taken ↦ elim (Bool-cases (has_failure k result)) [
      | inl failed ↦ inr (inl failed)
      | inr fine ↦ inr (inr (h n refl taken fine))
    ]
  ]

  module _ (s : Store c) where
    -- After a pass over all nodes that does not fail, while nobody else writes to the nodes, every
    -- stored node that the rule selects carries the rule's taint exactly if some required
    -- condition is not met, or the status that the pass returns has a failure of that node; no
    -- stored rule has changed.
    pub process_all_nodes_for_rule-IsInLine :
        (rule : NodeReadinessGateRule) (w : c.World)
        → (process_all_nodes_for_rule c sel rule w).0 ≡ none
        → ((k : String)
            → IsInLine k rule
                (process_all_nodes_for_rule c sel rule w).1
                (s.node_at (process_all_nodes_for_rule c sel rule w).2 k))
          × (s.rule_at (process_all_nodes_for_rule c sel rule w).2 ≡ s.rule_at w)
    process_all_nodes_for_rule-IsInLine rule w h =
        let (settled, rules) = process_all_nodes_for_rule-HasConverged c sel s rule w h in
        (λ k. in_line k rule (process_all_nodes_for_rule c sel rule w).1 _ (settled k), rules)
