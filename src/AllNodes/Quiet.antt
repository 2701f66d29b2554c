-- ===== src/AllNodes/Quiet.antt =====
-- A pass over all nodes (processAllNodesForRule) that finds every node in line.
use node_readiness_gate_cont.Prelude.{
  ◌≡◌, refl, sym, ap, subst, ◌∙◌, inl, inr, String, true, not, List, [], ◌∷◌, some, Result, ok, err,
  Bool-cases, All, all,
}
use node_readiness_gate_cont.Core.{Node, Selectors}
use node_readiness_gate_cont.Api.{NodeReadinessGateRule, NodeReadinessGateRuleSpec}
use node_readiness_gate_cont.Client.{Client}
use node_readiness_gate_cont.Client.Store.{Store}
use node_readiness_gate_cont.Client.Listing.{IsFresh, list_nodes-IsListing}
use node_readiness_gate_cont.Conditions.Laws.{is_met}
use node_readiness_gate_cont.Taints.{has_taint_by_spec}
use node_readiness_gate_cont.Selection.{rule_applies_to}
use node_readiness_gate_cont.Evaluation.Quiet.{evaluate_settled}
use node_readiness_gate_cont.Evaluation.Failure.{evaluate_and_record_ok}
use node_readiness_gate_cont.AllNodes.{
  Progress, applies, process_node, process_nodes, process_listed, process_all_nodes_for_rule,
}
use node_readiness_gate_cont.AllNodes.Laws.{Keeps, Keeps-refl, Keeps-trans, process_node-Keeps}

module _ (sel : Selectors) where
  -- If a rule of the spec selects the node, its taint is there exactly if some condition is not met.
  abbrev pub IsCalm : NodeReadinessGateRuleSpec → Node → Type 0
  IsCalm spec n =
      rule_applies_to sel spec.node_selector n.labels ≡ true
      → has_taint_by_spec n.taints spec.taint ≡ not (all (is_met n.conditions) spec.conditions)

module _ (c : Client) (sel : Selectors) (s : Store c) where
  process_node_calm :
      (p : Progress c) (node : Node)
      → IsCalm sel p.rule.spec node
      → s.node_at (process_node c sel p node).world ≡ s.node_at p.world
  unfolding process_node
  process_node_calm p node calm = elim (Bool-cases (applies c sel p.rule node)) [
    | inr skipped ↦ rw (skipped, process_node) refl
    | inl taken ↦
        let (fine, nodes) = evaluate_settled c s p.rule node p.world (calm taken) in
        rw (taken, process_node, evaluate_and_record_ok c p.rule node p.world fine) nodes
  ]

  process_nodes_calm :
      (rule : NodeReadinessGateRule) (nodes : List Node) (p : Progress c)
      → Keeps c sel rule p.rule
      → All (IsCalm sel rule.spec) nodes
      → s.node_at (process_nodes c sel p nodes).world ≡ s.node_at p.world
  unfolding process_nodes
  process_nodes_calm rule [] p keeps h = refl
  process_nodes_calm rule (node ∷ nodes) p keeps h =
      process_nodes_calm rule nodes (process_node c sel p node)
        (Keeps-trans c sel keeps (process_node-Keeps c sel p node)) h.1
      ∙ process_node_calm p node
          (subst (λ (spec : NodeReadinessGateRuleSpec). IsCalm sel spec node) (sym keeps.spec) h.0)

  All-IsCalm :
      (spec : NodeReadinessGateRuleSpec) (v : c.World) (nodes : List Node)
      → All (λ n. IsFresh c s n v) nodes
      → ((k : String) (n : Node) → s.node_at v k ≡ some n → IsCalm sel spec n)
      → All (IsCalm sel spec) nodes
  All-IsCalm spec v [] fresh h = tt
  All-IsCalm spec v (n ∷ nodes) fresh h = (h n.name n fresh.0, All-IsCalm spec v nodes fresh.1 h)

  -- A pass over all nodes changes no stored node if every stored node
  -- that the rule selects carries the rule's taint exactly if some required condition is not met.
  pub process_all_nodes_calm :
      (rule : NodeReadinessGateRule) (w : c.World)
      → ((k : String) (n : Node) → s.node_at w k ≡ some n → IsCalm sel rule.spec n)
      → s.node_at (process_all_nodes_for_rule c sel rule w).2 ≡ s.node_at w
  unfolding process_all_nodes_for_rule process_listed
  process_all_nodes_calm rule w calm = listed (c.list_nodes w) refl
    where
      listed :
          (a : Result c.Err (List Node) × c.World)
          → c.list_nodes w ≡ a
          → s.node_at (process_listed c sel rule a).2 ≡ s.node_at w
      listed (err e, v) q = ap (λ p. s.node_at p.1) (sym q) ∙ s.list_nodes_nodes w
      listed (ok nodes, v) q =
          let l = list_nodes-IsListing c s w v nodes q in
          let known = ap (λ p. s.node_at p.1) (sym q) ∙ s.list_nodes_nodes w in
          process_nodes_calm rule nodes (record { rule = rule; applied = []; world = v })
            (Keeps-refl c sel rule)
            (All-IsCalm rule.spec v nodes l.fresh
              (λ k n stored. calm k n (ap (λ f. f k) (sym known) ∙ stored)))
          ∙ known
