-- ===== src/AllNodes/Convergence.antt =====
-- The stored nodes after a pass over all nodes (processAllNodesForRule).
use node_readiness_gate_cont.Prelude.{
  ◌≡◌, refl, subst, ◌∙◌, ◌≢◌, inl, inr, String, true, false, not, List, [], ◌∷◌, Option, none, some,
  Result, ok, err, arith, Bool-cases, Option-cases, All, all, ◌==◌, eq_iff,
}
use node_readiness_gate_cont.Core.{Node, Selectors}
use node_readiness_gate_cont.Api.{NodeReadinessGateRule, NodeReadinessGateRuleSpec}
use node_readiness_gate_cont.Client.{Client}
use node_readiness_gate_cont.Client.Store.{Store, node_named, HasDistinctNames}
use node_readiness_gate_cont.Client.Listing.{IsFresh, IsListing, list_nodes-IsListing}
use node_readiness_gate_cont.Conditions.Laws.{is_met}
use node_readiness_gate_cont.Taints.{has_taint_by_spec}
use node_readiness_gate_cont.Bootstrap.Laws.{bare}
use node_readiness_gate_cont.Evaluation.{evaluate_rule_for_node, evaluate_and_record}
use node_readiness_gate_cont.Evaluation.Laws.{is_ready}
use node_readiness_gate_cont.Evaluation.Effect.{IsSettled, evaluate_rule_for_node-Settles}
use node_readiness_gate_cont.Evaluation.Failure.{
  has_failure, evaluate_and_record_ok, evaluate_and_record-has_failure,
}
use node_readiness_gate_cont.Evaluation.Isolation.{OnlyNode, evaluate_and_record-OnlyNode}
use node_readiness_gate_cont.AllNodes.{
  Progress, applies, process_node, process_nodes, process_listed, process_all_nodes_for_rule,
}
use node_readiness_gate_cont.AllNodes.Laws.{
  Keeps, Keeps-refl, Keeps-trans, process_node-Keeps, applies_congr, process_nodes-has_failure,
}

module _ (c : Client) (sel : Selectors) (s : Store c) where
  pub process_node-OnlyNode :
      (p : Progress c) (node : Node)
      → IsFresh c s node p.world
      → OnlyNode c s node.name p.world (process_node c sel p node).world
  unfolding process_node
  process_node-OnlyNode p node fresh = elim (Bool-cases (applies c sel p.rule node)) [
    | inl y ↦ rw (y, process_node) (evaluate_and_record-OnlyNode c s p.rule node p.world)
    | inr n ↦ rw (n, process_node) (record { others = λ k h. refl; rules = refl })
  ]

  pub AreFresh_after :
      (name : String) (nodes : List Node) (w w' : c.World)
      → OnlyNode c s name w w'
      → node_named name nodes ≡ none
      → All (λ n. IsFresh c s n w) nodes
      → All (λ n. IsFresh c s n w') nodes
  AreFresh_after name [] w w' o absent h = tt
  AreFresh_after name (n ∷ nodes) w w' o absent h =
      let apart : n.name ≢ name = ground (arith, eq_iff n.name name) in
      (o.others n.name apart ∙ h.0, AreFresh_after name nodes w w' o (ground arith) h.1)

  -- The nodes that are not listed stay as they are, and so do the rules.
  pub process_nodes_others :
      (k : String) (nodes : List Node) (p : Progress c)
      → HasDistinctNames nodes
      → All (λ n. IsFresh c s n p.world) nodes
      → node_named k nodes ≡ none
      → s.node_at (process_nodes c sel p nodes).world k ≡ s.node_at p.world k
  unfolding process_nodes
  process_nodes_others k [] p d h absent = refl
  process_nodes_others k (node ∷ nodes) p d h absent =
      let o = process_node-OnlyNode p node h.0 in
      let apart : k ≢ node.name = ground (arith, eq_iff node.name k) in
      process_nodes_others k nodes (process_node c sel p node) d.1
        (AreFresh_after node.name nodes _ _ o d.0 h.1) (ground arith)
      ∙ o.others k apart

  pub process_nodes_rules :
      (nodes : List Node) (p : Progress c)
      → HasDistinctNames nodes
      → All (λ n. IsFresh c s n p.world) nodes
      → s.rule_at (process_nodes c sel p nodes).world ≡ s.rule_at p.world
  unfolding process_nodes
  process_nodes_rules [] p d h = refl
  process_nodes_rules (node ∷ nodes) p d h =
      let o = process_node-OnlyNode p node h.0 in
      process_nodes_rules nodes (process_node c sel p node) d.1
        (AreFresh_after node.name nodes _ _ o d.0 h.1)
      ∙ o.rules

  -- The node that is stored under the key is settled, unless it is not selected or has a failure.
  abbrev pub IsAccounted :
      String → NodeReadinessGateRule → NodeReadinessGateRule → Option Node → Type 0
  IsAccounted k rule rule' none = Unit
  IsAccounted k rule rule' (some n) =
      applies c sel rule n ≡ true → has_failure k rule' ≡ false → IsSettled rule n

  is_failed :
      (k : String) (rule rule' : NodeReadinessGateRule) (o : Option Node)
      → has_failure k rule' ≡ true
      → IsAccounted k rule rule' o
  is_failed k rule rule' none h = tt
  is_failed k rule rule' (some n) h = λ a b. absurd (cc)

  is_settled :
      (k : String) (rule rule' : NodeReadinessGateRule) (node m : Node) (o : Option Node)
      → bare o ≡ bare (some m)
      → m ≡ record node { taints = m.taints }
      → has_taint_by_spec m.taints rule.spec.taint ≡ not (is_ready rule node)
      → IsAccounted k rule rule' o
  is_settled k rule rule' node m none same kept h = tt
  is_settled k rule rule' node m (some n) same kept h = λ a b.
      let taints : n.taints ≡ m.taints = cc in
      let conditions : n.conditions ≡ node.conditions = cc in rw (taints, conditions) h

  process_node-IsAccounted :
      (p : Progress c) (node : Node)
      → IsFresh c s node p.world
      → let q = process_node c sel p node in
        IsAccounted node.name p.rule q.rule (s.node_at q.world node.name)
  unfolding process_node
  process_node-IsAccounted p node fresh = elim (Bool-cases (applies c sel p.rule node)) [
    | inr skipped ↦ rw (skipped, process_node, fresh) (λ a. absurd (cc))
    | inl taken ↦ elim (Option-cases (evaluate_rule_for_node c p.rule node p.world).failure) [
      | inr (f, e) ↦
          let failed =
            (evaluate_and_record-has_failure c node.name p.rule node p.world).1 (λ z. cc) in
          rw (taken, process_node)
            (is_failed node.name p.rule (evaluate_and_record c p.rule node p.world).rule _ failed)
      | inl fine ↦
          let same = evaluate_and_record_ok c p.rule node p.world fine in
          let (settled, r) = evaluate_rule_for_node-Settles c s p.rule node p.world fresh fine in
          rw (taken, process_node, same)
            (is_settled node.name p.rule (evaluate_rule_for_node c p.rule node p.world).rule node
              (evaluate_rule_for_node c p.rule node p.world).node _ r.own r.kept settled)
    ]
  ]

  IsAccounted-weaken :
      (k : String) (rule p p' q : NodeReadinessGateRule) (o : Option Node)
      → Keeps c sel rule p
      → (has_failure k p' ≡ true → has_failure k q ≡ true)
      → IsAccounted k p p' o
      → IsAccounted k rule q o
  IsAccounted-weaken k rule p p' q none keeps persists h = tt
  IsAccounted-weaken k rule p p' q (some n) keeps persists h = λ a b.
      let fine : has_failure k p' ≡ false = ground arith in
      let settled = h (applies_congr c sel rule p n keeps ∙ a) fine in
      subst
        (λ (spec : NodeReadinessGateRuleSpec).
          has_taint_by_spec n.taints spec.taint ≡ not (all (is_met n.conditions) spec.conditions))
        keeps.spec settled

  settle_loop :
      (k : String) (rule : NodeReadinessGateRule) (nodes : List Node) (p : Progress c) (n : Node)
      → Keeps c sel rule p.rule
      → HasDistinctNames nodes
      → All (λ n. IsFresh c s n p.world) nodes
      → node_named k nodes ≡ some n
      → let q = process_nodes c sel p nodes in IsAccounted k rule q.rule (s.node_at q.world k)
  unfolding process_nodes
  settle_loop k rule [] p n keeps d h found = absurd (cc)
  settle_loop k rule (node ∷ nodes) p n keeps d h found =
      let o = process_node-OnlyNode p node h.0 in
      let p' = process_node c sel p node in
      let fresh = AreFresh_after node.name nodes _ _ o d.0 h.1 in
      elim (Bool-cases (node.name == k)) [
        | inr there ↦
            settle_loop k rule nodes p' n
              (Keeps-trans c sel keeps (process_node-Keeps c sel p node)) d.1 fresh (ground arith)
        | inl here ↦
            let same : node.name ≡ k = (eq_iff node.name k).0 here in
            let absent : node_named k nodes ≡ none =
              subst (λ j. node_named j nodes ≡ none) same d.0 in
            let stored = process_nodes_others k nodes p' d.1 fresh absent in
            rw stored (
              IsAccounted-weaken k rule p.rule p'.rule (process_nodes c sel p' nodes).rule _ keeps
                (process_nodes-has_failure c sel k nodes p')
                (subst (λ j. IsAccounted j p.rule p'.rule (s.node_at p'.world j)) same
                  (process_node-IsAccounted p node h.0)))
      ]

  -- What a successful pass leaves in the store.
  abbrev pub HasConverged :
      NodeReadinessGateRule → c.World → NodeReadinessGateRule → c.World → Type 0
  HasConverged rule w rule' w' =
      ((k : String) (n : Node)
        → s.node_at w' k ≡ some n
        → applies c sel rule n ≡ true
        → has_failure k rule' ≡ false
        → IsSettled rule n)
      × (s.rule_at w' ≡ s.rule_at w)

  listed-HasConverged :
      (rule : NodeReadinessGateRule) (w v : c.World) (nodes : List Node)
      → IsListing c s w nodes v
      → let (_, rule', w') = process_listed c sel rule (ok nodes, v) in HasConverged rule w rule' w'
  unfolding process_listed
  listed-HasConverged rule w v nodes l =
      let start : Progress c = record { rule = rule; applied = []; world = v } in
      (
        λ k n stored. elim (Option-cases (node_named k nodes)) [
          | inl absent ↦
              let kept = process_nodes_others k nodes start l.distinct l.fresh absent in
              absurd (cc (l.complete k))
          | inr (m, found) ↦
              let h =
                settle_loop k rule nodes start m (Keeps-refl c sel rule) l.distinct l.fresh found in
              rw stored at h
        ],
        process_nodes_rules nodes start l.distinct l.fresh ∙ l.rules_kept,
      )

  -- After a pass over all nodes that does not fail, while nobody else writes to the nodes, every
  -- stored node that the rule selects carries the rule's taint exactly if some required condition
  -- is not met, unless the rule's status has a failure of that node; no stored rule has changed.
  pub process_all_nodes_for_rule-HasConverged :
      (rule : NodeReadinessGateRule) (w : c.World)
      → let (failure, rule', w') = process_all_nodes_for_rule c sel rule w in
        failure ≡ none → HasConverged rule w rule' w'
  unfolding process_all_nodes_for_rule
  process_all_nodes_for_rule-HasConverged rule w = listed (c.list_nodes w) refl
    where
      listed :
          (answer : Result c.Err (List Node) × c.World)
          → c.list_nodes w ≡ answer
          → let (failure, rule', w') = process_listed c sel rule answer in
            failure ≡ none → HasConverged rule w rule' w'
      listed (err e, v) q h = absurd (cc)
      listed (ok nodes, v) q h =
          listed-HasConverged rule w v nodes (list_nodes-IsListing c s w v nodes q)
