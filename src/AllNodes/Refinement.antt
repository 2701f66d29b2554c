-- ===== src/AllNodes/Refinement.antt =====
-- A pass over all nodes (processAllNodesForRule) against a function from what is stored of a node
-- before to what is stored of it after.
use node_readiness_gate_cont.Prelude.{
  ◌≡◌, refl, sym, ap, subst, ◌∙◌, ◌⊎◌, inl, inr, String, true, false, List, [], ◌∷◌, Option, none,
  some, Result, ok, err, arith, Bool-cases, Option-cases, All, ◌==◌, eq_iff,
}
use node_readiness_gate_cont.Core.{Node, Selectors}
use node_readiness_gate_cont.Api.{NodeReadinessGateRule, NodeReadinessGateRuleSpec}
use node_readiness_gate_cont.Client.{Client}
use node_readiness_gate_cont.Client.Store.{Store, node_named, HasDistinctNames}
use node_readiness_gate_cont.Client.Listing.{IsFresh, IsListing, list_nodes-IsListing}
use node_readiness_gate_cont.Bootstrap.Laws.{bare}
use node_readiness_gate_cont.Evaluation.{evaluate_rule_for_node}
use node_readiness_gate_cont.Evaluation.Effect.{evaluate_rule_for_node-Settles}
use node_readiness_gate_cont.Evaluation.Failure.{
  has_failure, evaluate_and_record_ok, evaluate_and_record-has_failure,
}
use node_readiness_gate_cont.Evaluation.Refinement.{desired, evaluate_rule_for_node-desired}
use node_readiness_gate_cont.AllNodes.{
  Progress, applies, process_node, process_nodes, process_listed, process_all_nodes_for_rule,
}
use node_readiness_gate_cont.AllNodes.Laws.{
  Keeps, Keeps-refl, Keeps-trans, process_node-Keeps, applies_congr, process_nodes-has_failure,
}
use node_readiness_gate_cont.AllNodes.Convergence.{
  process_node-OnlyNode, AreFresh_after, process_nodes_others,
}

module _ (c : Client) (sel : Selectors) where
  -- What is stored under the key after the pass, for what was stored before: nothing for nothing,
  -- the same node if the rule does not select it, and else the node with the taints that the rule
  -- wants, annotations aside, unless the status that the pass returns has a failure of the node.
  abbrev pub IsRefined :
      String → NodeReadinessGateRule → NodeReadinessGateRule → Option Node → Option Node → Type 0
  IsRefined k rule result none after = after ≡ none
  IsRefined k rule result (some n) after =
      ((applies c sel rule n ≡ false) × (after ≡ some n))
      ⊎ ((applies c sel rule n ≡ true)
          × ((has_failure k result ≡ true) ⊎ (bare after ≡ bare (some (desired rule n)))))

  desired_congr :
      (rule rule' : NodeReadinessGateRule) (node : Node)
      → Keeps c sel rule rule'
      → bare (some (desired rule' node)) ≡ bare (some (desired rule node))
  desired_congr rule rule' node k =
      ap
        (λ (spec : NodeReadinessGateRuleSpec).
          bare (some (desired (record rule { spec = spec }) node)))
        k.spec

  IsRefined-weaken :
      (k : String) (rule p p' q : NodeReadinessGateRule) (node : Node) (after : Option Node)
      → Keeps c sel rule p
      → (has_failure k p' ≡ true → has_failure k q ≡ true)
      → IsRefined k p p' (some node) after
      → IsRefined k rule q (some node) after
  IsRefined-weaken k rule p p' q node after keeps persists (inl (skipped, same)) =
      inl (sym (applies_congr c sel rule p node keeps) ∙ skipped, same)
  IsRefined-weaken k rule p p' q node after keeps persists (inr (taken, inl failed)) =
      inr (sym (applies_congr c sel rule p node keeps) ∙ taken, inl (persists failed))
  IsRefined-weaken k rule p p' q node after keeps persists (inr (taken, inr same)) = inr (
    sym (applies_congr c sel rule p node keeps) ∙ taken,
    inr (same ∙ desired_congr rule p node keeps),
  )

  module _ (s : Store c) where
    process_node-IsRefined :
        (p : Progress c) (node : Node)
        → IsFresh c s node p.world
        → let q = process_node c sel p node in
          IsRefined node.name p.rule q.rule (some node) (s.node_at q.world node.name)
    unfolding process_node
    process_node-IsRefined p node fresh = elim (Bool-cases (applies c sel p.rule node)) [
      | inr skipped ↦ rw (skipped, process_node) (inl (refl, fresh))
      | inl taken ↦ elim (Option-cases (evaluate_rule_for_node c p.rule node p.world).failure) [
        | inr (f, e) ↦
            let failed =
              (evaluate_and_record-has_failure c node.name p.rule node p.world).1 (λ z. cc) in
            rw (taken, process_node) (inr (refl, inl failed))
        | inl fine ↦
            let same = evaluate_and_record_ok c p.rule node p.world fine in
            let (_, r) = evaluate_rule_for_node-Settles c s p.rule node p.world fresh fine in
            let wanted = evaluate_rule_for_node-desired c s p.rule node p.world fresh fine in
            rw (taken, process_node, same)
              (inr (refl, inr (r.own ∙ ap (λ n. bare (some n)) wanted)))
      ]
    ]

    refine_loop :
        (k : String) (rule : NodeReadinessGateRule) (nodes : List Node) (p : Progress c) (n : Node)
        → Keeps c sel rule p.rule
        → HasDistinctNames nodes
        → All (λ n. IsFresh c s n p.world) nodes
        → node_named k nodes ≡ some n
        → let q = process_nodes c sel p nodes in
          IsRefined k rule q.rule (some n) (s.node_at q.world k)
    unfolding process_nodes
    refine_loop k rule [] p n keeps d h found = absurd (cc)
    refine_loop k rule (node ∷ nodes) p n keeps d h found =
        let o = process_node-OnlyNode c sel s p node h.0 in
        let p' = process_node c sel p node in
        let fresh = AreFresh_after c sel s node.name nodes _ _ o d.0 h.1 in
        elim (Bool-cases (node.name == k)) [
          | inr there ↦
              refine_loop k rule nodes p' n
                (Keeps-trans c sel keeps (process_node-Keeps c sel p node)) d.1 fresh (ground arith)
          | inl here ↦
              let name : node.name ≡ k = (eq_iff node.name k).0 here in
              let this : node ≡ n = ground arith in
              let absent : node_named k nodes ≡ none =
                subst (λ j. node_named j nodes ≡ none) name d.0 in
              let stored = process_nodes_others c sel s k nodes p' d.1 fresh absent in
              rw (stored, ← this)
                (IsRefined-weaken k rule p.rule p'.rule (process_nodes c sel p' nodes).rule node _
                  keeps (process_nodes-has_failure c sel k nodes p')
                  (subst (λ j. IsRefined j p.rule p'.rule (some node) (s.node_at p'.world j)) name
                    (process_node-IsRefined p node h.0)))
        ]

    listed-IsRefined :
        (k : String) (rule : NodeReadinessGateRule) (w v : c.World) (nodes : List Node)
        → IsListing c s w nodes v
        → let (_, rule', w') = process_listed c sel rule (ok nodes, v) in
          IsRefined k rule rule' (s.node_at w k) (s.node_at w' k)
    unfolding process_listed
    listed-IsRefined k rule w v nodes l =
        let start : Progress c = record { rule = rule; applied = []; world = v } in
        let before = sym (ap (λ f. f k) l.nodes_kept) ∙ l.complete k in
        elim (Option-cases (node_named k nodes)) [
          | inl absent ↦
              let kept = process_nodes_others c sel s k nodes start l.distinct l.fresh absent in
              rw (before, absent) (kept ∙ l.complete k ∙ absent)
          | inr (n, found) ↦
              rw (before, found)
                (refine_loop k rule nodes start n (Keeps-refl c sel rule) l.distinct l.fresh found)
        ]

    -- A pass over all nodes that does not fail, while nobody else writes to the nodes, refines a
    -- function of each stored node alone: under every name nothing stays nothing, a node that the
    -- rule does not select stays as it is, and a node that it selects becomes, annotations aside,
    -- the same node with the rule's taint removed if all required conditions are met, and else
    -- with the taint added at the end if none of its key and effect is there; or the status that
    -- the pass returns has a failure of that node.
    pub process_all_nodes_for_rule-IsRefined :
        (rule : NodeReadinessGateRule) (w : c.World)
        → (process_all_nodes_for_rule c sel rule w).0 ≡ none
        → (k : String)
        → IsRefined k rule
            (process_all_nodes_for_rule c sel rule w).1
            (s.node_at w k)
            (s.node_at (process_all_nodes_for_rule c sel rule w).2 k)
    unfolding process_all_nodes_for_rule
    process_all_nodes_for_rule-IsRefined rule w h k = listed (c.list_nodes w) refl h
      where
        listed :
            (answer : Result c.Err (List Node) × c.World)
            → c.list_nodes w ≡ answer
            → let (failure, rule', w') = process_listed c sel rule answer in
              failure ≡ none → IsRefined k rule rule' (s.node_at w k) (s.node_at w' k)
        listed (err e, v) q h = absurd (cc)
        listed (ok nodes, v) q h =
            listed-IsRefined k rule w v nodes (list_nodes-IsListing c s w v nodes q)
