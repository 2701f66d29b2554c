-- ===== src/NodeReconciler/Stepping.antt =====
-- The taints of a node after one round of processNodeAgainstAllRules, and the cache after all.
use node_readiness_gate_cont.Prelude.{
  ◌≡◌, refl, sym, subst, ◌∙◌, ◌≢◌, ◌⊎◌, inl, inr, String, Bool, true, false, not, ◌&&◌, List, [],
  ◌∷◌, some, ◌==◌, eq_iff, arith, All, Bool-cases, Option-cases,
}
use node_readiness_gate_cont.Prelude.GoMap.{lookup, insert, lookup-insert}
use node_readiness_gate_cont.Core.{Node}
use node_readiness_gate_cont.Api.{NodeReadinessGateRule, TaintSpec, bootstrap_only}
use node_readiness_gate_cont.Client.{Client}
use node_readiness_gate_cont.Client.Store.{Store}
use node_readiness_gate_cont.Taints.{has_taint_by_spec}
use node_readiness_gate_cont.Taints.Laws.{AreApart}
use node_readiness_gate_cont.Bootstrap.{is_bootstrap_completed}
use node_readiness_gate_cont.Bootstrap.Laws.{is_bootstrap_completed-reads}
use node_readiness_gate_cont.Evaluation.{Evaluated, evaluate_rule_for_node, evaluate_and_record}
use node_readiness_gate_cont.Evaluation.Laws.{is_ready}
use node_readiness_gate_cont.Evaluation.Failure.{
  has_failure, evaluate_and_record_ok, evaluate_and_record-has_failure,
}
use node_readiness_gate_cont.Evaluation.Near.{
  IsNear, IsNear-kept, Places, evaluate_rule_for_node-Places,
}
use node_readiness_gate_cont.RuleStatus.{update_rule_status}
use node_readiness_gate_cont.RuleStatus.Laws.{update_rule_status_outcome}
use node_readiness_gate_cont.Controller.{State}
use node_readiness_gate_cont.NodeReconciler.{evaluate_cached, process_rule, process_rules}
use node_readiness_gate_cont.NodeReconciler.Laws.{
  is_skipped, process_rule_skipped, process_rule_evaluated,
}

-- A rule that the node reconciler enforces at all times.
abbrev pub is_enforced : NodeReadinessGateRule → Bool
is_enforced rule = not (rule.spec.enforcement_mode == bootstrap_only) && not rule.spec.dry_run

module _ (c : Client) (s : Store c) where
  -- The rule that is cached under the key has a failure of the node.
  abbrev pub HasFailedAt : String → String → State c → Type 0
  HasFailedAt name key st =
      (r : NodeReadinessGateRule) × (lookup key st.cache ≡ some r) × (has_failure name r ≡ true)

  -- What a step makes of the node: the rule's own taint is as its conditions say if the rule is
  -- one that is enforced, and the taints of all others are as they were.
  pub record Steps (e : String × NodeReadinessGateRule) (node : Node) (out : Node × State c)
      : Type 0 where
    pub own :
        is_enforced e.1 ≡ true
        → has_taint_by_spec out.0.taints e.1.spec.taint ≡ not (is_ready e.1 node)
    pub others :
        (t : TaintSpec)
        → AreApart e.1.spec.taint t
        → has_taint_by_spec out.0.taints t ≡ has_taint_by_spec node.taints t
    pub name : out.0.name ≡ node.name
    pub conditions : out.0.conditions ≡ node.conditions
    pub near : IsNear c s out.0 out.1.world

  placed-Steps :
      (key : String) (rule : NodeReadinessGateRule) (node : Node) (st : State c) (run : Evaluated c)
      → Places c s rule node run.node run.world
      → let w = (update_rule_status c run.rule run.world).1 in
        Steps
          (key, rule)
          node
          (run.node, record st { world = w; cache = insert key run.rule st.cache })
  placed-Steps key rule node st run p = record {
    own = λ enforced. p.own;
    others = p.others;
    name = p.name;
    conditions = p.conditions;
    near =
        IsNear-kept c s run.node run.world (update_rule_status c run.rule run.world).1
          (update_rule_status_outcome c s run.rule run.world).0 p.near;
  }

  evaluate_cached-Steps :
      (key : String) (rule : NodeReadinessGateRule) (node : Node) (st : State c)
      → IsNear c s node st.world
      → let out = evaluate_cached c key rule node st in
        HasFailedAt node.name key out.1 ⊎ Steps (key, rule) node out
  unfolding evaluate_cached
  evaluate_cached-Steps key rule node st near =
      let run = evaluate_and_record c rule node st.world in
      elim (Option-cases (evaluate_rule_for_node c rule node st.world).failure) [
        | inr (f, e) ↦ inl (
          run.rule,
          lookup-insert key key run.rule st.cache ∙ ground (arith, eq_iff key key),
          (evaluate_and_record-has_failure c node.name rule node st.world).1 (λ z. cc),
        )
        | inl fine ↦
            let same = evaluate_and_record_ok c rule node st.world fine in
            let p = evaluate_rule_for_node-Places c s rule node st.world near fine in
            inr (
              placed-Steps key rule node st run
                (subst (λ (o : Evaluated c). Places c s rule node o.node o.world) (sym same) p))
      ]

  pub process_rule-Steps :
      (key : String) (rule : NodeReadinessGateRule) (node : Node) (st : State c)
      → st.global_dry_run ≡ false
      → IsNear c s node st.world
      → let out = process_rule c key rule node st in
        HasFailedAt node.name key out.1 ⊎ Steps (key, rule) node out
  process_rule-Steps key rule node st live near =
      let v = (is_bootstrap_completed c node.name rule.name st.world).1 in
      let (nodes, _) = is_bootstrap_completed-reads c s node.name rule.name st.world in
      let read = IsNear-kept c s node st.world v nodes near in
      elim (Bool-cases (is_skipped c rule node st)) [
        | inl skipped ↦ rw (process_rule_skipped c key rule node st skipped) (
            inr (record {
              own = λ enforced. absurd (ground arith);
              others = λ t apart. refl;
              name = refl;
              conditions = refl;
              near = read;
            }))
        | inr taken ↦
            rw (process_rule_evaluated c key rule node st taken)
              (evaluate_cached-Steps key rule node (record st { world = v }) read)
      ]

  pub process_rule_flag :
      (key : String) (rule : NodeReadinessGateRule) (node : Node) (st : State c)
      → (process_rule c key rule node st).1.global_dry_run ≡ st.global_dry_run
  unfolding evaluate_cached
  process_rule_flag key rule node st = elim (Bool-cases (is_skipped c rule node st)) [
    | inl skipped ↦ rw (process_rule_skipped c key rule node st skipped) refl
    | inr taken ↦ rw (process_rule_evaluated c key rule node st taken) refl
  ]

  lookup-process_rule :
      (k key : String) (rule : NodeReadinessGateRule) (node : Node) (st : State c)
      → key ≢ k
      → lookup k (process_rule c key rule node st).1.cache ≡ lookup k st.cache
  unfolding evaluate_cached
  lookup-process_rule k key rule node st other = elim (Bool-cases (is_skipped c rule node st)) [
    | inl skipped ↦ rw (process_rule_skipped c key rule node st skipped) refl
    | inr taken ↦
        rw (process_rule_evaluated c key rule node st taken)
          (lookup-insert key k _ st.cache ∙ ground (arith, eq_iff key k))
  ]

  pub lookup-process_rules :
      (k : String) (rules : List (String × NodeReadinessGateRule)) (node : Node) (st : State c)
      → All (λ f. f.0 ≢ k) rules
      → lookup k (process_rules c rules node st).1.cache ≡ lookup k st.cache
  unfolding process_rules
  lookup-process_rules k [] node st h = refl
  lookup-process_rules k ((key, rule) ∷ rules) node st h =
      lookup-process_rules k rules _ _ h.1 ∙ lookup-process_rule k key rule node st h.0
