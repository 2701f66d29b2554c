-- ===== src/Evaluation/Effect.antt =====
-- What an evaluation (evaluateRuleForNode) does to the stored nodes while nobody else writes.
use node_readiness_gate_cont.Prelude.{
  ◌≡◌, refl, sym, ap, subst, ◌∙◌, ◌≢◌, inl, inr, String, Bool, true, false, not, List, Option, none,
  some, Result, ok, err, arith, ◌==◌, eq_iff, Bool-cases,
}
use node_readiness_gate_cont.Core.{Node, Taint}
use node_readiness_gate_cont.Api.{
  NodeReadinessGateRule, ConditionEvaluationResult, bootstrap_only, TaintSpec,
}
use node_readiness_gate_cont.Client.{Client}
use node_readiness_gate_cont.Client.Store.{Store, put}
use node_readiness_gate_cont.Client.Listing.{IsFresh}
use node_readiness_gate_cont.Taints.{has_taint_by_spec, with_taint, without_taint}
use node_readiness_gate_cont.Taints.Laws.{
  has_taint_by_spec-with_taint, has_taint_by_spec-without_taint,
}
use node_readiness_gate_cont.Bootstrap.{mark_bootstrap_completed}
use node_readiness_gate_cont.Bootstrap.Laws.{
  bare, OnlyAnnotates, mark_bootstrap_completed-OnlyAnnotates,
}
use node_readiness_gate_cont.Evaluation.{
  Evaluated, patched, add_taint_by_spec, remove_taint_by_spec, record_evaluation, after_remove,
  after_add, evaluate_rule_for_node,
}
use node_readiness_gate_cont.Evaluation.Laws.{
  is_ready, has_taint_of, action_for, run_action, evaluate_rule_for_node-run_action,
}

-- The taint is there exactly if some required condition is not met.
abbrev pub IsSettled : NodeReadinessGateRule → Node → Type 0
IsSettled rule node = has_taint_of rule node ≡ not (is_ready rule node)

-- The new world holds the node with the new taints, and all else as before, but for annotations.
pub record Retaints (c : Client) (s : Store c) (node node' : Node) (w w' : c.World) : Type 0 where
  pub kept : node' ≡ record node { taints = node'.taints }
  pub others : (k : String) → k ≢ node.name → s.node_at w' k ≡ s.node_at w k
  pub own : bare (s.node_at w' node.name) ≡ bare (some node')
  pub rules : s.rule_at w' ≡ s.rule_at w

module _ (c : Client) (s : Store c) where
  same_node :
      (node : Node) (w w' : c.World)
      → IsFresh c s node w
      → s.node_at w' ≡ s.node_at w
      → s.rule_at w' ≡ s.rule_at w
      → Retaints c s node node w w'
  same_node node w w' fresh nodes rules = record {
    kept = refl;
    others = λ k h. ap (λ f. f k) nodes;
    own = ap (λ f. bare (f node.name)) nodes ∙ ap bare fresh;
    rules = rules;
  }

  after_world :
      {node node' : Node} {u v w : c.World}
      → Retaints c s node node' u v
      → OnlyAnnotates c s node.name v w
      → Retaints c s node node' u w
  after_world r a = record {
    kept = r.kept;
    others = λ k h. a.others k h ∙ r.others k h;
    own = a.same ∙ r.own;
    rules = a.rules ∙ r.rules;
  }

  after_now :
      {node node' : Node} {u v : c.World}
      → Retaints c s node node' u v
      → Retaints c s node node' u (c.now v).1
  after_now {node} {v = v} r = record {
    kept = r.kept;
    others = λ k h. ap (λ f. f k) (s.now_nodes v) ∙ r.others k h;
    own = ap (λ f. bare (f node.name)) (s.now_nodes v) ∙ r.own;
    rules = s.now_rules v ∙ r.rules;
  }

  -- A patch that succeeds stores the taints that were sent, and touches nothing else.
  patch_put :
      (node : Node) (taints : List Taint) (w : c.World) (answer : Result c.Err Node × c.World)
      → IsFresh c s node w
      → c.patch_node node (record node { taints = taints }) w ≡ answer
      → (patched c (record node { taints = taints }) answer).0 ≡ none
      → let (_, node', w') = patched c (record node { taints = taints }) answer in
        (node' ≡ record node { taints = taints })
        × (s.node_at w' ≡ put node.name (record node { taints = taints }) (s.node_at w))
        × (s.rule_at w' ≡ s.rule_at w)
  unfolding patched
  patch_put node taints w (err e, w') fresh h success = absurd (cc)
  patch_put node taints w (ok n, w') fresh h success =
      let (old, found, stored, nodes, rules) = s.patch_taints_ok w w' node n taints h in
      let known : old ≡ node = cc in
      let sent : n ≡ record node { taints = taints } = rw known at stored in
      (sent, rw (← sent) nodes, rules)

  pub remove_put :
      (node : Node) (spec : TaintSpec) (w : c.World)
      → IsFresh c s node w
      → (remove_taint_by_spec c node spec w).0 ≡ none
      → (s.node_at (remove_taint_by_spec c node spec w).2
          ≡ put node.name (record node { taints = without_taint node.taints spec }) (s.node_at w))
        × (s.rule_at (remove_taint_by_spec c node spec w).2 ≡ s.rule_at w)
  unfolding remove_taint_by_spec
  remove_put node spec w fresh h =
      let (sent, nodes, rules) = patch_put node (without_taint node.taints spec) w _ fresh refl h in
      (nodes, rules)

  pub patch_ok :
      (node : Node) (taints : List Taint) (w : c.World) (answer : Result c.Err Node × c.World)
      → IsFresh c s node w
      → c.patch_node node (record node { taints = taints }) w ≡ answer
      → (patched c (record node { taints = taints }) answer).0 ≡ none
      → let (_, node', w') = patched c (record node { taints = taints }) answer in
        (node' ≡ record node { taints = taints }) × Retaints c s node node' w w'
  patch_ok node taints w answer fresh h success =
      let (sent, nodes, rules) = patch_put node taints w answer fresh h success in
      (
        sent,
        record {
          kept = rw sent refl;
          others = λ k h. ap (λ f. f k) nodes ∙ ground (arith, eq_iff node.name k);
          own =
              ap (λ f. bare (f node.name)) nodes
              ∙ (ground (arith, eq_iff node.name node.name) ∙ ap (λ n. bare (some n)) (sym sent));
          rules = rules;
        },
      )

  -- The rule's own taint is settled by the run, and the world holds the outcome.
  abbrev pub Settles : NodeReadinessGateRule → Node → c.World → Evaluated c → Type 0
  Settles rule node w out =
      (has_taint_by_spec out.node.taints rule.spec.taint ≡ not (is_ready rule node))
      × Retaints c s node out.node w out.world

  module _ (rule : NodeReadinessGateRule) (results : List ConditionEvaluationResult)
      (node : Node) where
    after_add-Settles :
        (w : c.World) (p : Option c.Err × Node × c.World)
        → is_ready rule node ≡ false
        → (p.0 ≡ none
            → (p.1 ≡ record node { taints = with_taint node.taints rule.spec.taint })
              × Retaints c s node p.1 w p.2)
        → (after_add c rule results p).failure ≡ none
        → Settles rule node w (after_add c rule results p)
    unfolding after_add
    after_add-Settles w (some e, n, w') ready effect h = absurd (cc)
    after_add-Settles w (none, n, w') ready effect h =
        let (sent, r) = effect refl in
        (rw (sent, ready) (has_taint_by_spec-with_taint node.taints rule.spec.taint), after_now r)

    after_remove-Settles :
        (w : c.World) (p : Option c.Err × Node × c.World)
        → is_ready rule node ≡ true
        → (p.0 ≡ none
            → (p.1 ≡ record node { taints = without_taint node.taints rule.spec.taint })
              × Retaints c s node p.1 w p.2)
        → (after_remove c rule results p).failure ≡ none
        → Settles rule node w (after_remove c rule results p)
    unfolding after_remove
    after_remove-Settles w (some e, n, w') ready effect h = absurd (cc)
    after_remove-Settles w (none, n, w') ready effect h =
        let (sent, r) = effect refl in
        (
          rw (sent, ready) (has_taint_by_spec-without_taint node.taints rule.spec.taint),
          after_now (elim (Bool-cases (rule.spec.enforcement_mode == bootstrap_only)) [
            | inl once ↦ rw once (
                after_world r (
                  subst
                    (λ k. OnlyAnnotates c s k w' (mark_bootstrap_completed c n.name rule.name w'))
                    (ap (λ (x : Node). x.name) sent)
                    (mark_bootstrap_completed-OnlyAnnotates c s n.name rule.name w')))
            | inr always ↦ rw always r
          ]),
        )

  action_for-Settles :
      (ready has : Bool) (rule : NodeReadinessGateRule) (node : Node) (w : c.World)
      → IsFresh c s node w
      → is_ready rule node ≡ ready
      → has_taint_of rule node ≡ has
      → (run_action c (action_for ready has) rule node w).failure ≡ none
      → Settles rule node w (run_action c (action_for ready has) rule node w)
  unfolding record_evaluation add_taint_by_spec remove_taint_by_spec
  action_for-Settles true true rule node w fresh r t h =
      after_remove-Settles rule _ node w (remove_taint_by_spec c node rule.spec.taint w) r
        (λ q. patch_ok node (without_taint node.taints rule.spec.taint) w _ fresh refl q) h
  action_for-Settles false false rule node w fresh r t h =
      after_add-Settles rule _ node w (add_taint_by_spec c node rule.spec.taint w) r
        (λ q. patch_ok node (with_taint node.taints rule.spec.taint) w _ fresh refl q) h
  action_for-Settles true false rule node w fresh r t h =
      (rw (r, t), after_now (same_node node w w fresh refl refl))
  action_for-Settles false true rule node w fresh r t h =
      (rw (r, t), after_now (same_node node w w fresh refl refl))

  -- An evaluation of the stored node that does not fail leaves the node with the rule's taint
  -- exactly if some required condition is not met; the stored node has the new taints and, but for
  -- its annotations, nothing else new; no other node and no rule in the store changes.
  pub evaluate_rule_for_node-Settles :
      (rule : NodeReadinessGateRule) (node : Node) (w : c.World)
      → IsFresh c s node w
      → (evaluate_rule_for_node c rule node w).failure ≡ none
      → Settles rule node w (evaluate_rule_for_node c rule node w)
  evaluate_rule_for_node-Settles rule node w fresh h =
      let e = evaluate_rule_for_node-run_action c rule node w in
      rw e (
        action_for-Settles (is_ready rule node) (has_taint_of rule node) rule node w fresh refl refl
          (rw e at h))
