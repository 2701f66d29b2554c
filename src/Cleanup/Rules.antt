-- ===== src/Cleanup/Rules.antt =====
-- The stored rules under cleanupTaintsForRule and cleanupNodesAfterSelectorChange, whether or not
-- these succeed.
use node_readiness_gate_cont.Prelude.{
  ◌≡◌, refl, sym, ap, ◌∙◌, inl, inr, String, Bool, true, false, if◌then◌else◌, List, [], ◌∷◌,
  Option, Result, ok, err, Bool-cases, ltb, length,
}
use node_readiness_gate_cont.Core.{Node, Selectors}
use node_readiness_gate_cont.Api.{NodeReadinessGateRule, TaintSpec}
use node_readiness_gate_cont.Client.{Client}
use node_readiness_gate_cont.Client.Store.{Store}
use node_readiness_gate_cont.Taints.{has_taint_by_spec}
use node_readiness_gate_cont.Evaluation.Isolation.{remove_taint_by_spec-OnlyNode}
use node_readiness_gate_cont.Cleanup.{
  clean_node, clean_nodes, clean_result, parse_old, clean_after_change, after_change_listed,
  cleanup_nodes_after_selector_change, cleanup_listed, cleanup_taints_for_rule,
}

module _ (c : Client) (s : Store c) where
  clean_node_rules :
      (spec : TaintSpec) (node : Node) (errors : List String) (w : c.World)
      → s.rule_at (clean_node c spec node errors w).1 ≡ s.rule_at w
  unfolding clean_node
  clean_node_rules spec node errors w = elim (Bool-cases (has_taint_by_spec node.taints spec)) [
    | inl present ↦ rw (present, clean_node) ((remove_taint_by_spec-OnlyNode c s node spec w).rules)
    | inr absent ↦ rw (absent, clean_node) refl
  ]

  round_rules :
      (picked : Bool) (spec : TaintSpec) (node : Node) (errors : List String) (w : c.World)
      → s.rule_at (if picked then clean_node c spec node errors w else (errors, w)).1 ≡ s.rule_at w
  round_rules true spec node errors w = clean_node_rules spec node errors w
  round_rules false spec node errors w = refl

  clean_nodes_rules :
      (pick : Node → Bool) (spec : TaintSpec) (nodes : List Node) (errors : List String)
      (w : c.World)
      → s.rule_at (clean_nodes c pick spec nodes errors w).1 ≡ s.rule_at w
  unfolding clean_nodes
  clean_nodes_rules pick spec [] errors w = refl
  clean_nodes_rules pick spec (node ∷ nodes) errors w =
      clean_nodes_rules pick spec nodes _ _ ∙ round_rules (pick node) spec node errors w

  clean_result_world : (p : List String × c.World) → (clean_result c p).1 ≡ p.1
  unfolding clean_result
  clean_result_world (errors, w) = elim (Bool-cases (ltb 0 (length errors))) [
    | inl some_lem ↦ rw some_lem refl
    | inr none_lem ↦ rw none_lem refl
  ]

  cleaned_rules :
      (pick : Node → Bool) (spec : TaintSpec) (nodes : List Node) (w v : c.World)
      → s.rule_at v ≡ s.rule_at w
      → s.rule_at (clean_result c (clean_nodes c pick spec nodes [] v)).1 ≡ s.rule_at w
  cleaned_rules pick spec nodes w v e =
      ap s.rule_at (clean_result_world (clean_nodes c pick spec nodes [] v))
      ∙ clean_nodes_rules pick spec nodes [] v
      ∙ e

  module _ (sel : Selectors) where
    pub cleanup_taints_rules :
        (rule : NodeReadinessGateRule) (w : c.World)
        → s.rule_at (cleanup_taints_for_rule c sel rule w).1 ≡ s.rule_at w
    unfolding cleanup_taints_for_rule
    cleanup_taints_rules rule w = listed (c.list_nodes w) refl
      where
        listed :
            (a : Result c.Err (List Node) × c.World)
            → c.list_nodes w ≡ a
            → s.rule_at (cleanup_listed c sel rule a).1 ≡ s.rule_at w
        listed (err e, v) q = ap (λ p. s.rule_at p.1) (sym q) ∙ s.list_nodes_rules w
        listed (ok nodes, v) q =
            cleaned_rules _ rule.spec.taint nodes w v
              (ap (λ p. s.rule_at p.1) (sym q) ∙ s.list_nodes_rules w)

    pub cleanup_nodes_rules :
        (old new : NodeReadinessGateRule) (w : c.World)
        → s.rule_at (cleanup_nodes_after_selector_change c sel old new w).1 ≡ s.rule_at w
    unfolding cleanup_nodes_after_selector_change
    cleanup_nodes_rules old new w = listed (c.list_nodes w) refl
      where
        parsed :
            (r : Result String (Option sel.Selector)) (nodes : List Node) (v : c.World)
            → s.rule_at v ≡ s.rule_at w
            → s.rule_at (clean_after_change c sel r new nodes v).1 ≡ s.rule_at w
        parsed (err e) nodes v q = q
        parsed (ok o) nodes v q = cleaned_rules _ new.spec.taint nodes w v q

        listed :
            (a : Result c.Err (List Node) × c.World)
            → c.list_nodes w ≡ a
            → s.rule_at (after_change_listed c sel old new a).1 ≡ s.rule_at w
        listed (err e, v) q = ap (λ p. s.rule_at p.1) (sym q) ∙ s.list_nodes_rules w
        listed (ok nodes, v) q =
            parsed (parse_old c sel old.spec.node_selector) nodes v
              (ap (λ p. s.rule_at p.1) (sym q) ∙ s.list_nodes_rules w)
