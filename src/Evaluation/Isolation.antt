-- ===== src/Evaluation/Isolation.antt =====
-- Which stored objects an evaluation (evaluateRuleForNode) may touch.
use node_readiness_gate_cont.Prelude.{
  ◌≡◌, refl, sym, ap, subst, ◌∙◌, ◌≢◌, inl, inr, String, List, Option, none, some, Result, ok, err,
  ◌==◌, Bool-cases, Option-cases,
}
use node_readiness_gate_cont.Core.{Node, Taint}
use node_readiness_gate_cont.Api.{
  TaintSpec, NodeReadinessGateRule, ConditionEvaluationResult, bootstrap_only,
}
use node_readiness_gate_cont.Client.{Client}
use node_readiness_gate_cont.Client.Store.{Store}
use node_readiness_gate_cont.Bootstrap.{mark_bootstrap_completed}
use node_readiness_gate_cont.Bootstrap.Laws.{OnlyAnnotates, mark_bootstrap_completed-OnlyAnnotates}
use node_readiness_gate_cont.Evaluation.{
  patched, patch_taints, add_taint_by_spec, remove_taint_by_spec, record_evaluation, after_remove,
  after_add, evaluate_rule_for_node, record_node_failure, evaluate_and_record,
}
use node_readiness_gate_cont.Evaluation.Laws.{
  Action, remove, add, keep, taint_action, run_action, evaluate_rule_for_node-run_action,
}
use node_readiness_gate_cont.Evaluation.Failure.{evaluate_and_record_ok, evaluate_and_record_err}

-- The second world holds what the first holds, but for the node of the name.
pub record OnlyNode (c : Client) (s : Store c) (name : String) (w w' : c.World) : Type 0 where
  pub others : (k : String) → k ≢ name → s.node_at w' k ≡ s.node_at w k
  pub rules : s.rule_at w' ≡ s.rule_at w

module _ (c : Client) (s : Store c) where
  pub OnlyNode-trans :
      {name : String} {u v w : c.World}
      → OnlyNode c s name u v
      → OnlyNode c s name v w
      → OnlyNode c s name u w
  OnlyNode-trans p q = record {
    others = λ k h. q.others k h ∙ p.others k h;
    rules = q.rules ∙ p.rules;
  }

  after_now : (name : String) (w : c.World) → OnlyNode c s name w (c.now w).1
  after_now name w = record { others = λ k h. ap (λ f. f k) (s.now_nodes w); rules = s.now_rules w }

  -- The patch of a stored node touches that node only, and a node that it returns has its name.
  abbrev IsPatchOf : Node → c.World → Option c.Err × Node × c.World → Type 0
  IsPatchOf node w p = OnlyNode c s node.name w p.2 × (p.0 ≡ none → p.1.name ≡ node.name)

  patch_taints-IsPatchOf :
      (node : Node) (taints : List Taint) (w : c.World)
      → IsPatchOf node w (patch_taints c node taints w)
  unfolding patch_taints
  patch_taints-IsPatchOf node taints w = answered _ refl
    where
      answered :
          (a : Result c.Err Node × c.World)
          → c.patch_node node (record node { taints = taints }) w ≡ a
          → IsPatchOf node w (patched c (record node { taints = taints }) a)
      answered (ok n, v) e =
          let (old, found, stored, nodes, rules) = s.patch_taints_ok w v node n taints e in
          (
            record {
              others = λ k h. ap (λ p. s.node_at p.1 k) (sym e) ∙ s.patch_node_others w node _ k h;
              rules = rules;
            },
            λ z. ap (λ (x : Node). x.name) stored ∙ s.node_name w node.name old found,
          )
      answered (err x, v) e = (
        record {
          others = λ k h. ap (λ p. s.node_at p.1 k) (sym e) ∙ s.patch_node_others w node _ k h;
          rules = ap (λ p. s.rule_at p.1) (sym e) ∙ s.patch_node_rules w node _;
        },
        λ z. absurd (cc),
      )

  pub remove_taint_by_spec-OnlyNode :
      (node : Node) (spec : TaintSpec) (w : c.World)
      → OnlyNode c s node.name w (remove_taint_by_spec c node spec w).2
  unfolding remove_taint_by_spec
  remove_taint_by_spec-OnlyNode node spec w = (patch_taints-IsPatchOf node _ w).0

  after_add-OnlyNode :
      (rule : NodeReadinessGateRule) (results : List ConditionEvaluationResult) (node : Node)
      (w : c.World) (p : Option c.Err × Node × c.World)
      → IsPatchOf node w p
      → OnlyNode c s node.name w (after_add c rule results p).world
  unfolding after_add
  after_add-OnlyNode rule results node w (some e, n, v) (o, named) = o
  after_add-OnlyNode rule results node w (none, n, v) (o, named) =
      OnlyNode-trans o (after_now node.name v)

  after_remove-OnlyNode :
      (rule : NodeReadinessGateRule) (results : List ConditionEvaluationResult) (node : Node)
      (w : c.World) (p : Option c.Err × Node × c.World)
      → IsPatchOf node w p
      → OnlyNode c s node.name w (after_remove c rule results p).world
  unfolding after_remove
  after_remove-OnlyNode rule results node w (some e, n, v) (o, named) = o
  after_remove-OnlyNode rule results node w (none, n, v) (o, named) =
      elim (Bool-cases (rule.spec.enforcement_mode == bootstrap_only)) [
        | inr always ↦ rw always (OnlyNode-trans o (after_now node.name v))
        | inl once ↦
            let marked : OnlyAnnotates c s node.name v
                (mark_bootstrap_completed c n.name rule.name v) =
              subst (λ k. OnlyAnnotates c s k v (mark_bootstrap_completed c n.name rule.name v))
                (named refl) (mark_bootstrap_completed-OnlyAnnotates c s n.name rule.name v) in
            rw once (
              OnlyNode-trans
                (OnlyNode-trans o (record { others = marked.others; rules = marked.rules }))
                (after_now node.name _))
      ]

  run_action-OnlyNode :
      (a : Action) (rule : NodeReadinessGateRule) (node : Node) (w : c.World)
      → OnlyNode c s node.name w (run_action c a rule node w).world
  unfolding add_taint_by_spec remove_taint_by_spec record_evaluation
  run_action-OnlyNode remove rule node w =
      after_remove-OnlyNode rule _ node w _ (patch_taints-IsPatchOf node _ w)
  run_action-OnlyNode add rule node w =
      after_add-OnlyNode rule _ node w _ (patch_taints-IsPatchOf node _ w)
  run_action-OnlyNode keep rule node w = after_now node.name w

  pub evaluate_rule_for_node-OnlyNode :
      (rule : NodeReadinessGateRule) (node : Node) (w : c.World)
      → OnlyNode c s node.name w (evaluate_rule_for_node c rule node w).world
  evaluate_rule_for_node-OnlyNode rule node w =
      rw (evaluate_rule_for_node-run_action c rule node w)
        (run_action-OnlyNode (taint_action rule node) rule node w)

  patch_taints-name :
      (node : Node) (taints : List Taint) (w : c.World)
      → (patch_taints c node taints w).1.name ≡ node.name
  unfolding patch_taints
  patch_taints-name node taints w = answered _ refl
    where
      answered :
          (a : Result c.Err Node × c.World)
          → c.patch_node node (record node { taints = taints }) w ≡ a
          → (patched c (record node { taints = taints }) a).1.name ≡ node.name
      answered (ok n, v) e =
          let (old, found, stored, _, _) = s.patch_taints_ok w v node n taints e in
          ap (λ (x : Node). x.name) stored ∙ s.node_name w node.name old found
      answered (err x, v) e = refl

  after_add-name :
      (rule : NodeReadinessGateRule) (results : List ConditionEvaluationResult)
      (p : Option c.Err × Node × c.World)
      → (after_add c rule results p).node.name ≡ p.1.name
  unfolding after_add
  after_add-name rule results (some e, n, w) = refl
  after_add-name rule results (none, n, w) = refl

  after_remove-name :
      (rule : NodeReadinessGateRule) (results : List ConditionEvaluationResult)
      (p : Option c.Err × Node × c.World)
      → (after_remove c rule results p).node.name ≡ p.1.name
  unfolding after_remove
  after_remove-name rule results (some e, n, w) = refl
  after_remove-name rule results (none, n, w) = refl

  run_action-name :
      (a : Action) (rule : NodeReadinessGateRule) (node : Node) (w : c.World)
      → (run_action c a rule node w).node.name ≡ node.name
  unfolding add_taint_by_spec remove_taint_by_spec record_evaluation
  run_action-name remove rule node w = after_remove-name rule _ _ ∙ patch_taints-name node _ w
  run_action-name add rule node w = after_add-name rule _ _ ∙ patch_taints-name node _ w
  run_action-name keep rule node w = refl

  pub evaluate_and_record-name :
      (rule : NodeReadinessGateRule) (node : Node) (w : c.World)
      → (evaluate_and_record c rule node w).node.name ≡ node.name
  evaluate_and_record-name rule node w =
      let named : (evaluate_rule_for_node c rule node w).node.name ≡ node.name =
        rw (evaluate_rule_for_node-run_action c rule node w)
          (run_action-name (taint_action rule node) rule node w) in
      elim (Option-cases (evaluate_rule_for_node c rule node w).failure) [
        | inl fine ↦ rw (evaluate_and_record_ok c rule node w fine) named
        | inr (f, e) ↦ rw (evaluate_and_record_err c rule node w f e) named
      ]

  -- A recorded evaluation touches no stored node but its own and no stored rule, on every path.
  pub evaluate_and_record-OnlyNode :
      (rule : NodeReadinessGateRule) (node : Node) (w : c.World)
      → OnlyNode c s node.name w (evaluate_and_record c rule node w).world
  unfolding record_node_failure
  evaluate_and_record-OnlyNode rule node w =
      let first = evaluate_rule_for_node-OnlyNode rule node w in
      elim (Option-cases (evaluate_rule_for_node c rule node w).failure) [
        | inl fine ↦ rw (evaluate_and_record_ok c rule node w fine) first
        | inr (f, e) ↦
            rw (evaluate_and_record_err c rule node w f e)
              (OnlyNode-trans first (after_now node.name _))
      ]
