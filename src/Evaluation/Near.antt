-- ===== src/Evaluation/Near.antt =====
-- An evaluation (evaluateRuleForNode) of a node that is stored as it is in memory but for its
-- annotations, as the second and later rules of a reconciliation find it.
use node_readiness_gate_cont.Prelude.{
  ◌≡◌, refl, sym, ap, ◌∙◌, inl, inr, Bool, true, false, not, List, Option, none, some, Result, ok,
  err, arith, ◌==◌, eq_refl, Bool-cases,
}
use node_readiness_gate_cont.Core.{Node, Taint}
use node_readiness_gate_cont.Api.{
  NodeReadinessGateRule, ConditionEvaluationResult, TaintSpec, bootstrap_only,
}
use node_readiness_gate_cont.Client.{Client}
use node_readiness_gate_cont.Client.Store.{Store}
use node_readiness_gate_cont.Taints.{has_taint_by_spec, with_taint, without_taint}
use node_readiness_gate_cont.Taints.Laws.{
  AreApart, has_taint_by_spec-with_taint, has_taint_by_spec-without_taint,
  has_taint_by_spec-with_taint_ne, has_taint_by_spec-without_taint_ne,
}
use node_readiness_gate_cont.Bootstrap.{mark_bootstrap_completed}
use node_readiness_gate_cont.Bootstrap.Laws.{bare, mark_bootstrap_completed-OnlyAnnotates}
use node_readiness_gate_cont.Evaluation.{
  patched, add_taint_by_spec, remove_taint_by_spec, record_evaluation, after_remove, after_add,
  evaluate_rule_for_node,
}
use node_readiness_gate_cont.Evaluation.Laws.{
  is_ready, has_taint_of, action_for, run_action, evaluation_results,
  evaluate_rule_for_node-run_action,
}

module _ (c : Client) (s : Store c) where
  -- The node is stored as it is in memory, annotations aside.
  abbrev pub IsNear : Node → c.World → Type 0
  IsNear node w = bare (s.node_at w node.name) ≡ bare (some node)

  -- The node in memory has the name and the conditions of before, new taints, and is stored.
  pub record Moves (node : Node) (new : List Taint) (node' : Node) (w : c.World) : Type 0 where
    pub taints : node'.taints ≡ new
    pub name : node'.name ≡ node.name
    pub conditions : node'.conditions ≡ node.conditions
    pub labels : node'.labels ≡ node.labels
    pub near : IsNear node' w

  pub IsNear-kept :
      (node : Node) (w w' : c.World) → s.node_at w' ≡ s.node_at w → IsNear node w → IsNear node w'
  IsNear-kept node w w' e h = ap (λ f. bare (f node.name)) e ∙ h

  patched-Moves :
      (node : Node) (taints : List Taint) (w : c.World) (answer : Result c.Err Node × c.World)
      → IsNear node w
      → c.patch_node node (record node { taints = taints }) w ≡ answer
      → (patched c (record node { taints = taints }) answer).0 ≡ none
      → let (_, node', w') = patched c (record node { taints = taints }) answer in
        Moves node taints node' w'
  unfolding patched
  patched-Moves node taints w (err e, w') near h success = absurd (cc)
  patched-Moves node taints w (ok n, w') near h success =
      let (old, found, stored, nodes, rules) = s.patch_taints_ok w w' node n taints h in
      let there : bare (some old) ≡ bare (some node) = sym (ap bare found) ∙ near in
      let conditions : old.conditions ≡ node.conditions = cc in
      let labels : old.labels ≡ node.labels = cc in
      let old_name : old.name ≡ node.name = cc in
      let name : n.name ≡ node.name = ap (λ (x : Node). x.name) stored ∙ old_name in
      record {
        taints = ap (λ (x : Node). x.taints) stored;
        name = name;
        conditions = ap (λ (x : Node). x.conditions) stored ∙ conditions;
        labels = ap (λ (x : Node). x.labels) stored ∙ labels;
        near =
            ap (λ k. bare (s.node_at w' k)) name
            ∙ ap (λ f. bare (f node.name)) nodes
            ∙ ground (arith, eq_refl node.name);
      }

  module _ (rule : NodeReadinessGateRule) (results : List ConditionEvaluationResult) (node : Node)
      (taints : List Taint) where
    record_evaluation-Moves :
        (n : Node) (w : c.World)
        → Moves node taints n w
        → Moves node taints n (record_evaluation c rule results n w).world
    unfolding record_evaluation
    record_evaluation-Moves n w m = record {
      taints = m.taints;
      name = m.name;
      conditions = m.conditions;
      labels = m.labels;
      near = IsNear-kept n w (c.now w).1 (s.now_nodes w) m.near;
    }

    after_add-Moves :
        (p : Option c.Err × Node × c.World)
        → (p.0 ≡ none → Moves node taints p.1 p.2)
        → let out = after_add c rule results p in
          out.failure ≡ none → Moves node taints out.node out.world
    unfolding after_add record_evaluation
    after_add-Moves (some e, n, w) h z = absurd (cc)
    after_add-Moves (none, n, w) h z = record_evaluation-Moves n w (h refl)

    after_remove-Moves :
        (p : Option c.Err × Node × c.World)
        → (p.0 ≡ none → Moves node taints p.1 p.2)
        → let out = after_remove c rule results p in
          out.failure ≡ none → Moves node taints out.node out.world
    unfolding after_remove record_evaluation
    after_remove-Moves (some e, n, w) h z = absurd (cc)
    after_remove-Moves (none, n, w) h z =
        elim (Bool-cases (rule.spec.enforcement_mode == bootstrap_only)) [
          | inr always ↦ rw always (record_evaluation-Moves n w (h refl))
          | inl once ↦
              let marked = mark_bootstrap_completed-OnlyAnnotates c s n.name rule.name w in
              let m = h refl in
              rw once (
                record_evaluation-Moves n (mark_bootstrap_completed c n.name rule.name w) (record {
                  taints = m.taints;
                  name = m.name;
                  conditions = m.conditions;
                  labels = m.labels;
                  near = marked.same ∙ m.near;
                }))
        ]

  -- The taints that the rule wants, for its two answers.
  abbrev wanted_taints : Bool → Bool → NodeReadinessGateRule → Node → List Taint
  wanted_taints true true rule node = without_taint node.taints rule.spec.taint
  wanted_taints false false rule node = with_taint node.taints rule.spec.taint
  wanted_taints true false rule node = node.taints
  wanted_taints false true rule node = node.taints

  run_action-Moves :
      (ready has : Bool) (rule : NodeReadinessGateRule) (node : Node) (w : c.World)
      → IsNear node w
      → (run_action c (action_for ready has) rule node w).failure ≡ none
      → let out = run_action c (action_for ready has) rule node w in
        Moves node (wanted_taints ready has rule node) out.node out.world
  unfolding record_evaluation add_taint_by_spec remove_taint_by_spec
  run_action-Moves true true rule node w near h =
      after_remove-Moves rule _ node _ (remove_taint_by_spec c node rule.spec.taint w)
        (λ q. patched-Moves node (without_taint node.taints rule.spec.taint) w _ near refl q) h
  run_action-Moves false false rule node w near h =
      after_add-Moves rule _ node _ (add_taint_by_spec c node rule.spec.taint w)
        (λ q. patched-Moves node (with_taint node.taints rule.spec.taint) w _ near refl q) h
  run_action-Moves true false rule node w near h =
      record_evaluation-Moves rule (evaluation_results c rule node) node node.taints node w
        (record { taints = refl; name = refl; conditions = refl; labels = refl; near = near })
  run_action-Moves false true rule node w near h =
      record_evaluation-Moves rule (evaluation_results c rule node) node node.taints node w
        (record { taints = refl; name = refl; conditions = refl; labels = refl; near = near })

  -- The rule's own taint is as its conditions say, every other taint is as it was.
  pub record Places (rule : NodeReadinessGateRule) (node node' : Node) (w' : c.World) : Type 0 where
    pub own : has_taint_by_spec node'.taints rule.spec.taint ≡ not (is_ready rule node)
    pub others :
        (t : TaintSpec)
        → AreApart rule.spec.taint t
        → has_taint_by_spec node'.taints t ≡ has_taint_by_spec node.taints t
    pub name : node'.name ≡ node.name
    pub conditions : node'.conditions ≡ node.conditions
    pub near : IsNear node' w'

  wanted_own :
      (ready has : Bool) (rule : NodeReadinessGateRule) (node : Node)
      → has_taint_of rule node ≡ has
      → has_taint_by_spec (wanted_taints ready has rule node) rule.spec.taint ≡ not ready
  wanted_own true true rule node h = has_taint_by_spec-without_taint node.taints rule.spec.taint
  wanted_own false false rule node h = has_taint_by_spec-with_taint node.taints rule.spec.taint
  wanted_own true false rule node h = h
  wanted_own false true rule node h = h

  wanted_others :
      (ready has : Bool) (rule : NodeReadinessGateRule) (node : Node) (t : TaintSpec)
      → AreApart rule.spec.taint t
      → has_taint_by_spec (wanted_taints ready has rule node) t ≡ has_taint_by_spec node.taints t
  wanted_others true true rule node t apart =
      has_taint_by_spec-without_taint_ne rule.spec.taint t apart node.taints
  wanted_others false false rule node t apart =
      has_taint_by_spec-with_taint_ne rule.spec.taint t apart node.taints
  wanted_others true false rule node t apart = refl
  wanted_others false true rule node t apart = refl

  pub evaluate_rule_for_node-Places :
      (rule : NodeReadinessGateRule) (node : Node) (w : c.World)
      → IsNear node w
      → (evaluate_rule_for_node c rule node w).failure ≡ none
      → let out = evaluate_rule_for_node c rule node w in Places rule node out.node out.world
  evaluate_rule_for_node-Places rule node w near h =
      let e = evaluate_rule_for_node-run_action c rule node w in
      let ready = is_ready rule node in
      let has = has_taint_of rule node in
      let m = run_action-Moves ready has rule node w near (rw e at h) in
      rw e (record {
        own =
            ap (λ ts. has_taint_by_spec ts rule.spec.taint) m.taints
            ∙ wanted_own ready has rule node refl;
        others = λ t apart.
            ap (λ ts. has_taint_by_spec ts t) m.taints ∙ wanted_others ready has rule node t apart;
        name = m.name;
        conditions = m.conditions;
        near = m.near;
      })
