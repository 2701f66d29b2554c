-- ===== src/AllNodes/Laws.antt =====
-- What a pass over all nodes (processAllNodesForRule) makes of the rule.
use mathlib.Core.List.{append_assoc, append-nil}
use node_readiness_gate_cont.Prelude.{
  ◌≡◌, refl, sym, ap, ◌∙◌, ◌≢◌, inl, inr, String, true, List, [], ◌∷◌, ◌++◌, map, Option, none,
  Result, ok, err, Bool-cases, filter, if◌then◌else◌,
}
use node_readiness_gate_cont.Core.{Node, Selectors}
use node_readiness_gate_cont.Api.{NodeReadinessGateRule, NodeReadinessGateRuleSpec}
use node_readiness_gate_cont.Client.{Client, Fault}
use node_readiness_gate_cont.Selection.{rule_applies_to}
use node_readiness_gate_cont.Evaluation.Failure.{
  has_failure, evaluate_and_record_rest, evaluate_and_record-has_failure,
}
use node_readiness_gate_cont.AllNodes.{
  Progress, applies, process_node, process_nodes, process_listed, process_all_nodes_for_rule,
}

module _ (c : Client) (sel : Selectors) where
  -- All of the rule but its status is as it was.
  pub record Keeps (rule rule' : NodeReadinessGateRule) : Type 0 where
    pub spec : rule'.spec ≡ rule.spec
    pub generation : rule'.generation ≡ rule.generation
    pub name : rule'.name ≡ rule.name
    pub version : rule'.resource_version ≡ rule.resource_version
    pub finalizers : rule'.finalizers ≡ rule.finalizers
    pub deletion : rule'.deletion_timestamp ≡ rule.deletion_timestamp

  pub Keeps-refl : (rule : NodeReadinessGateRule) → Keeps rule rule
  Keeps-refl rule = record {
    spec = refl;
    generation = refl;
    name = refl;
    version = refl;
    finalizers = refl;
    deletion = refl;
  }

  pub Keeps-trans : {r s t : NodeReadinessGateRule} → Keeps r s → Keeps s t → Keeps r t
  Keeps-trans p q = record {
    spec = q.spec ∙ p.spec;
    generation = q.generation ∙ p.generation;
    name = q.name ∙ p.name;
    version = q.version ∙ p.version;
    finalizers = q.finalizers ∙ p.finalizers;
    deletion = q.deletion ∙ p.deletion;
  }

  pub process_node-Keeps :
      (p : Progress c) (node : Node) → Keeps p.rule (process_node c sel p node).rule
  unfolding process_node
  process_node-Keeps p node = elim (Bool-cases (applies c sel p.rule node)) [
    | inl y ↦
        let rest = evaluate_and_record_rest c p.rule node p.world in
        rw (y, process_node)
          (record {
            spec = ap (λ (r : NodeReadinessGateRule). r.spec) rest;
            generation = ap (λ (r : NodeReadinessGateRule). r.generation) rest;
            name = ap (λ (r : NodeReadinessGateRule). r.name) rest;
            version = ap (λ (r : NodeReadinessGateRule). r.resource_version) rest;
            finalizers = ap (λ (r : NodeReadinessGateRule). r.finalizers) rest;
            deletion = ap (λ (r : NodeReadinessGateRule). r.deletion_timestamp) rest;
          })
    | inr n ↦ rw (n, process_node) (Keeps-refl p.rule)
  ]

  pub process_nodes-Keeps :
      (nodes : List Node) (p : Progress c) → Keeps p.rule (process_nodes c sel p nodes).rule
  unfolding process_nodes
  process_nodes-Keeps [] p = Keeps-refl p.rule
  process_nodes-Keeps (node ∷ nodes) p =
      Keeps-trans (process_node-Keeps p node)
        (process_nodes-Keeps nodes (process_node c sel p node))

  pub applies_congr :
      (rule rule' : NodeReadinessGateRule) (node : Node)
      → Keeps rule rule'
      → applies c sel rule' node ≡ applies c sel rule node
  applies_congr rule rule' node k =
      ap (λ s. rule_applies_to sel (NodeReadinessGateRuleSpec.node_selector s) node.labels) k.spec

  -- The names of the nodes that a spec selects.
  abbrev pub selected_names : NodeReadinessGateRule → List Node → List String
  selected_names rule nodes = map (λ n. n.name) (filter (applies c sel rule) nodes)

  process_node_applied :
      (p : Progress c) (node : Node)
      → (process_node c sel p node).applied
        ≡ p.applied ++ (if applies c sel p.rule node then node.name ∷ [] else [])
  unfolding process_node
  process_node_applied p node = elim (Bool-cases (applies c sel p.rule node)) [
    | inl y ↦ rw (y, process_node)
    | inr n ↦ rw (n, process_node) (sym (append-nil _))
  ]

  process_nodes_applied :
      (nodes : List Node) (rule : NodeReadinessGateRule) (p : Progress c)
      → Keeps rule p.rule
      → (process_nodes c sel p nodes).applied ≡ p.applied ++ selected_names rule nodes
  unfolding process_nodes
  process_nodes_applied [] rule p k = sym (append-nil _)
  process_nodes_applied (node ∷ nodes) rule p k =
      let here = process_node_applied p node in
      let same = applies_congr rule p.rule node k in
      let rest =
        process_nodes_applied nodes rule (process_node c sel p node)
          (Keeps-trans k (process_node-Keeps p node)) in
      rest ∙ elim (Bool-cases (applies c sel rule node)) [
        | inl y ↦ rw (here, same, y) (append_assoc p.applied _ _)
        | inr n ↦
            rw (here, same, n) (ap (λ xs. xs ++ selected_names rule nodes) (append-nil p.applied))
      ]

  pub process_nodes-has_failure :
      (k : String) (nodes : List Node) (p : Progress c)
      → has_failure k p.rule ≡ true
      → has_failure k (process_nodes c sel p nodes).rule ≡ true
  unfolding process_nodes process_node
  process_nodes-has_failure k [] p h = h
  process_nodes-has_failure k (node ∷ nodes) p h =
      process_nodes-has_failure k nodes (process_node c sel p node)
        (elim (Bool-cases (applies c sel p.rule node)) [
          | inl y ↦
              rw (y, process_node) ((evaluate_and_record-has_failure c k p.rule node p.world).0 h)
          | inr n ↦ rw (n, process_node) h
        ])

  -- What a pass over all nodes makes of the answer of the listing.
  abbrev pub IsPass :
      NodeReadinessGateRule
      → Result c.Err (List Node) × c.World
      → Option (Fault c.Err) × NodeReadinessGateRule × c.World
      → Type 0
  IsPass rule (ok nodes, v) (failure, rule', w') =
      (failure ≡ none)
      × Keeps rule rule'
      × (rule'.status.applied_nodes ≡ selected_names rule nodes)
      × (rule'.status.observed_generation ≡ rule.generation)
  IsPass rule (err e, v) (failure, rule', w') = (failure ≢ none) × (rule' ≡ rule) × (w' ≡ v)

  listed-IsPass :
      (rule : NodeReadinessGateRule) (answer : Result c.Err (List Node) × c.World)
      → IsPass rule answer (process_listed c sel rule answer)
  unfolding process_listed
  listed-IsPass rule (err e, v) = ((λ z. cc), refl, refl)
  listed-IsPass rule (ok nodes, v) =
      let start : Progress c = record { rule = rule; applied = []; world = v } in
      let k = process_nodes-Keeps nodes start in
      (
        refl,
        record {
          spec = k.spec;
          generation = k.generation;
          name = k.name;
          version = k.version;
          finalizers = k.finalizers;
          deletion = k.deletion;
        },
        process_nodes_applied nodes rule start (Keeps-refl rule),
        k.generation,
      )

  -- A pass over the nodes that a listing returned never fails; it keeps the rule but for its
  -- status, whose applied nodes are then exactly the names of the selected nodes, in the order of
  -- the listing, and whose observed generation is the rule's. If the listing fails, so does the
  -- pass, with the rule untouched and nothing else done.
  pub process_all_nodes_for_rule-IsPass :
      (rule : NodeReadinessGateRule) (w : c.World)
      → IsPass rule (c.list_nodes w) (process_all_nodes_for_rule c sel rule w)
  unfolding process_all_nodes_for_rule
  process_all_nodes_for_rule-IsPass rule w = listed-IsPass rule (c.list_nodes w)
