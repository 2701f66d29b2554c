-- ===== src/DryRun/Laws.antt =====
-- The counters of processDryRun against the evaluations that they simulate.
use node_readiness_gate_cont.Prelude.{
  ℕ, ◌+◌, ◌≤◌, ◌≡◌, refl, ◌∙◌, Bool, true, false, not, ◌&&◌, List, [], ◌∷◌, Option, Result, ok, err,
  arith, ◌==◌, ltb, if◌then◌else◌, all, any, count,
}
use node_readiness_gate_cont.Core.{Node, NodeCondition, Selectors, condition_unknown}
use node_readiness_gate_cont.Api.{NodeReadinessGateRule, ConditionRequirement, DryRunResults}
use node_readiness_gate_cont.Client.{Client}
use node_readiness_gate_cont.Conditions.{get_condition_status}
use node_readiness_gate_cont.Conditions.Laws.{is_met}
use node_readiness_gate_cont.Selection.{rule_applies_to}
use node_readiness_gate_cont.Evaluation.Laws.{Action, remove, add, taint_action}
use node_readiness_gate_cont.DryRun.{
  simulate, Counters, count_node, count_nodes, dry_run_results, dry_run_listed, process_dry_run,
}

-- The node reports nothing about the condition, or reports it as unknown.
abbrev pub is_missing : List NodeCondition → ConditionRequirement → Bool
is_missing conditions req = get_condition_status conditions req.kind == condition_unknown

abbrev pub is_add : Action → Bool
is_add add = true
is_add _ = false

abbrev pub is_remove : Action → Bool
is_remove remove = true
is_remove _ = false

simulate_lem :
    (conditions : List NodeCondition) (reqs : List ConditionRequirement) (s : Bool) (m : ℕ)
    → ((simulate conditions s m reqs).0 ≡ (s && all (is_met conditions) reqs))
      × ((simulate conditions s m reqs).1 ≡ m + count (is_missing conditions) reqs)
unfolding simulate
simulate_lem conditions [] s m = (ground arith, omega arith)
simulate_lem conditions (req ∷ reqs) s m =
    let ih =
      simulate_lem conditions reqs
        (if not (get_condition_status conditions req.kind == req.required_status) then false else s)
        (if get_condition_status conditions req.kind == condition_unknown then m + 1 else m) in
    (ih.0 ∙ ground arith, ih.1 ∙ ground arith)

count-pos : {A : Type 0} (p : A → Bool) (xs : List A) → ltb 0 (count p xs) ≡ any p xs
count-pos p [] = refl
count-pos p (x ∷ xs) = ground (arith, count-pos p xs)

module _ (sel : Selectors) (rule : NodeReadinessGateRule) where
  -- The rule selects the node, and the node passes the test.
  abbrev pub selected : (Node → Bool) → Node → Bool
  selected p node = rule_applies_to sel rule.spec.node_selector node.labels && p node

  abbrev pub would_add : Node → Bool
  would_add = selected (λ node. is_add (taint_action rule node))

  abbrev pub would_remove : Node → Bool
  would_remove = selected (λ node. is_remove (taint_action rule node))

  abbrev pub has_missing : Node → Bool
  has_missing = selected (λ node. any (is_missing node.conditions) rule.spec.conditions)

  abbrev pub any_node : Node → Bool
  any_node = selected (λ _. true)

  count_node_lem :
      (n : Counters) (node : Node)
      → let m = count_node rule.spec n node in
        (m.affected ≡ n.affected + 1)
        × (m.to_add ≡ n.to_add + (if is_add (taint_action rule node) then 1 else 0))
        × (m.to_remove ≡ n.to_remove + (if is_remove (taint_action rule node) then 1 else 0))
        × (m.risky
            ≡ n.risky + (if any (is_missing node.conditions) rule.spec.conditions then 1 else 0))
  unfolding count_node
  count_node_lem n node =
      let (s, m) = simulate_lem node.conditions rule.spec.conditions true 0 in
      let risky = count-pos (is_missing node.conditions) rule.spec.conditions in
      (ground arith, ground arith, ground arith, ground arith)

  count_nodes_lem :
      (n : Counters) (nodes : List Node)
      → let m = count_nodes sel rule.spec n nodes in
        (m.affected ≡ n.affected + count any_node nodes)
        × (m.to_add ≡ n.to_add + count would_add nodes)
        × (m.to_remove ≡ n.to_remove + count would_remove nodes)
        × (m.risky ≡ n.risky + count has_missing nodes)
  unfolding count_nodes
  count_nodes_lem n [] = omega arith
  count_nodes_lem n (node ∷ nodes) =
      let here = count_node_lem n node in
      let m =
        if not (rule_applies_to sel rule.spec.node_selector node.labels)
        then n
        else count_node rule.spec n node in
      let (a, b, d, e) = count_nodes_lem m nodes in
      (a ∙ ground arith, b ∙ ground arith, d ∙ ground arith, e ∙ ground arith)

  split_le :
      (nodes : List Node) → count would_add nodes + count would_remove nodes ≤ count any_node nodes
  split_le [] = omega arith
  split_le (node ∷ nodes) = ground (arith, split_le nodes)

  -- The counters of a dry run are the numbers of selected nodes, of those to which an evaluation
  -- would add the taint, of those from which it would remove it, and of those with a required
  -- condition that is missing; no node is counted both as an addition and as a removal.
  pub dry_run_results_lem :
      (nodes : List Node)
      → let r = dry_run_results sel rule.spec nodes in
        (r.affected_nodes ≡ count any_node nodes)
        × (r.taints_to_add ≡ count would_add nodes)
        × (r.taints_to_remove ≡ count would_remove nodes)
        × (r.risky_operations ≡ count has_missing nodes)
        × (r.taints_to_add + r.taints_to_remove ≤ r.affected_nodes)
  unfolding dry_run_results
  dry_run_results_lem nodes =
      let (a, b, d, e) =
        count_nodes_lem (record { affected = 0; to_add = 0; to_remove = 0; risky = 0 }) nodes in
      (omega arith, omega arith, omega arith, omega arith, omega (arith, split_le nodes))

  module _ (c : Client) where
    -- A dry run writes to no object: the world after it is the world after the nodes were listed,
    -- and all of the rule but its dry run results stays as it was, also where the listing fails.
    pub process_dry_run_only :
        (w : c.World)
        → let (failure, rule', w') = process_dry_run sel c rule w in
          (w' ≡ (c.list_nodes w).1)
          × ((results : Option DryRunResults) × (let status = rule.status in
                rule' ≡ record rule { status = record status { dry_run_results = results } }))
    unfolding process_dry_run
    process_dry_run_only w = listed (c.list_nodes w)
      where
        listed :
            (answer : Result c.Err (List Node) × c.World)
            → let (failure, rule', w') = dry_run_listed sel c rule answer in
              (w' ≡ answer.1)
              × ((results : Option DryRunResults) × (let status = rule.status in
                    rule' ≡ record rule { status = record status { dry_run_results = results } }))
        listed (err e, v) = (refl, (rule.status.dry_run_results, refl))
        listed (ok nodes, v) = (refl, (_, refl))
