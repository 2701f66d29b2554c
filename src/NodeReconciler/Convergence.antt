-- ===== src/NodeReconciler/Convergence.antt =====
-- The taints of a node after its reconciliation.
use node_readiness_gate_cont.Prelude.{
  ◌≡◌, refl, sym, ap, subst, ◌∙◌, ◌≢◌, ◌⊎◌, inl, inr, String, true, false, not, List, [], ◌∷◌,
  Option, none, some, ok, All, all,
}
use node_readiness_gate_cont.Prelude.GoMap.{GoMap}
use node_readiness_gate_cont.Core.{Node, NodeCondition, Taint, Selectors}
use node_readiness_gate_cont.Api.{NodeReadinessGateRule, TaintSpec}
use node_readiness_gate_cont.Client.{Client}
use node_readiness_gate_cont.Client.Store.{Store}
use node_readiness_gate_cont.Conditions.Laws.{is_met}
use node_readiness_gate_cont.Taints.{has_taint_by_spec}
use node_readiness_gate_cont.Taints.Laws.{AreApart}
use node_readiness_gate_cont.Bootstrap.Laws.{bare}
use node_readiness_gate_cont.Evaluation.Laws.{is_ready}
use node_readiness_gate_cont.Evaluation.Effect.{IsSettled}
use node_readiness_gate_cont.Evaluation.Failure.{has_failure}
use node_readiness_gate_cont.Evaluation.Near.{IsNear}
use node_readiness_gate_cont.Controller.{State, get_applicable_rules_for_node}
use node_readiness_gate_cont.NodeReconciler.{
  process_rule, process_rules, process_node_against_all_rules, after_process, fetched, reconcile,
}
use node_readiness_gate_cont.NodeReconciler.Stepping.{
  is_enforced, HasFailedAt, Steps, process_rule-Steps, process_rule_flag, lookup-process_rules,
}

-- The entries have different keys, and the taints of their rules differ in key or effect.
abbrev pub AreDistinct : List (String × NodeReadinessGateRule) → Type 0
AreDistinct [] = Unit
AreDistinct (e ∷ es) =
    All (λ f. (f.0 ≢ e.0) × AreApart f.1.spec.taint e.1.spec.taint) es × AreDistinct es

module _ (c : Client) (s : Store c) where
  -- What the loop makes of the node.
  record Loops (rules : List (String × NodeReadinessGateRule)) (node : Node) (out : Node × State c)
      : Type 0 where
    own :
        All
          (λ e.
            is_enforced e.1 ≡ true
            → has_taint_by_spec out.0.taints e.1.spec.taint ≡ not (is_ready e.1 node))
          rules
    others :
        (t : TaintSpec)
        → All (λ e. AreApart e.1.spec.taint t) rules
        → has_taint_by_spec out.0.taints t ≡ has_taint_by_spec node.taints t
    name : out.0.name ≡ node.name
    conditions : out.0.conditions ≡ node.conditions
    near : IsNear c s out.0 out.1.world

  Loops-cons :
      (e : String × NodeReadinessGateRule) (rules : List (String × NodeReadinessGateRule))
      (node : Node) (mid out : Node × State c)
      → All (λ f. (f.0 ≢ e.0) × AreApart f.1.spec.taint e.1.spec.taint) rules
      → Steps c s e node mid
      → Loops rules mid.0 out
      → Loops (e ∷ rules) node out
  Loops-cons e rules node mid out apart step rest = record {
    own = (
      λ enforced. rest.others e.1.spec.taint (seconds rules apart) ∙ step.own enforced,
      subst
          (λ (conditions : List NodeCondition).
            All
              (λ f.
                is_enforced f.1 ≡ true
                → has_taint_by_spec out.0.taints f.1.spec.taint
                  ≡ not (all (is_met conditions) f.1.spec.conditions))
              rules)
          step.conditions rest.own,
    );
    others = λ t all. rest.others t all.1 ∙ step.others t all.0;
    name = rest.name ∙ step.name;
    conditions = rest.conditions ∙ step.conditions;
    near = rest.near;
  }
    where
      seconds :
          (fs : List (String × NodeReadinessGateRule))
          → All (λ f. (f.0 ≢ e.0) × AreApart f.1.spec.taint e.1.spec.taint) fs
          → All (λ f. AreApart f.1.spec.taint e.1.spec.taint) fs
      seconds [] h = tt
      seconds (f ∷ fs) h = (h.0.1, seconds fs h.1)

  firsts :
      (k : String) (t : TaintSpec) (fs : List (String × NodeReadinessGateRule))
      → All (λ f. (f.0 ≢ k) × AreApart f.1.spec.taint t) fs
      → All (λ f. f.0 ≢ k) fs
  firsts k t [] h = tt
  firsts k t (f ∷ fs) h = (h.0.0, firsts k t fs h.1)

  process_rules-Loops :
      (rules : List (String × NodeReadinessGateRule)) (node : Node) (st : State c)
      → st.global_dry_run ≡ false
      → AreDistinct rules
      → IsNear c s node st.world
      → let out = process_rules c rules node st in
        ((key : String) × HasFailedAt c s node.name key out.1) ⊎ Loops rules node out
  unfolding process_rules
  process_rules-Loops [] node st live d near =
      inr (record { own = tt; others = λ t h. refl; name = refl; conditions = refl; near = near })
  process_rules-Loops ((key, rule) ∷ rules) node st live d near =
      let mid = process_rule c key rule node st in
      elim (process_rule-Steps c s key rule node st live near) [
        | inl (r, found, failed) ↦
            let kept =
              lookup-process_rules c s key rules mid.0 mid.1
                (firsts key rule.spec.taint rules d.0) in
            inl (key, (r, kept ∙ found, failed))
        | inr step ↦
            elim (process_rules-Loops rules mid.0 mid.1
              (process_rule_flag c s key rule node st ∙ live) d.1 step.near) [
                | inl (k, (r, found, failed)) ↦
                    inl (k, (r, found, subst (λ name. has_failure name r ≡ true) step.name failed))
                | inr rest ↦ inr (Loops-cons (key, rule) rules node mid _ d.0 step rest)
              ]
      ]

  -- The taints of the enforced rules are on the node exactly if some condition is not met.
  abbrev pub AreSettled : List (String × NodeReadinessGateRule) → Node → Type 0
  AreSettled rules n = All (λ e. is_enforced e.1 ≡ true → IsSettled e.1 n) rules

  settled_in_store :
      (rules : List (String × NodeReadinessGateRule)) (node m : Node) (o : Option Node)
      → bare o ≡ bare (some m)
      → m.conditions ≡ node.conditions
      → All
          (λ e.
            is_enforced e.1 ≡ true
            → has_taint_by_spec m.taints e.1.spec.taint ≡ not (is_ready e.1 node))
          rules
      → (n : Node) × (o ≡ some n) × AreSettled rules n
  settled_in_store rules node m none near conditions own = absurd (cc)
  settled_in_store rules node m (some n) near conditions own =
      let taints : m.taints ≡ n.taints = cc in
      let same : node.conditions ≡ n.conditions = cc in
      (
        n,
        refl,
        subst
            (λ (cs : List NodeCondition).
              All
                (λ e.
                  is_enforced e.1 ≡ true
                  → has_taint_by_spec n.taints e.1.spec.taint
                    ≡ not (all (is_met cs) e.1.spec.conditions))
                rules)
            same
            (subst
              (λ (ts : List Taint).
                All
                  (λ e.
                    is_enforced e.1 ≡ true
                    → has_taint_by_spec ts e.1.spec.taint ≡ not (is_ready e.1 node))
                  rules)
              taints own),
      )

  module _ (sel : Selectors)
      (visit : GoMap NodeReadinessGateRule → GoMap NodeReadinessGateRule) where
    -- The reconciliation of a stored node, while nobody else writes and the global dry run is off,
    -- and if the cached rules that select the node have different taints: afterwards either the
    -- cached version of some rule has a failure of the node, or the node is stored, and for each of
    -- these rules that is neither for the bootstrap only nor a dry run it carries the rule's taint
    -- exactly if some required condition of the rule is not met.
    pub node_run-AreSettled :
        (name : String) (st : State c) (node : Node) (w : c.World)
        → c.get_node name st.world ≡ (ok node, w)
        → st.global_dry_run ≡ false
        → AreDistinct (get_applicable_rules_for_node sel visit st.cache node)
        → let st' = (reconcile c sel visit name st).1 in
          ((key : String) × HasFailedAt c s name key st')
          ⊎ ((n : Node) × (s.node_at st'.world name ≡ some n)
              × AreSettled (get_applicable_rules_for_node sel visit st.cache node) n)
    unfolding reconcile fetched process_node_against_all_rules after_process
    node_run-AreSettled name st node w read live distinct =
        let found = s.get_node_ok st.world w name node read in
        let named : node.name ≡ name = s.node_name st.world name node found in
        let kept = ap (λ p. s.node_at p.1) (sym read) ∙ s.get_node_nodes st.world name in
        let near : IsNear c s node w =
          ap (λ k. bare (s.node_at w k)) named ∙ ap (λ f. bare (f name)) kept ∙ ap bare found in
        let rules = get_applicable_rules_for_node sel visit st.cache node in
        let start : State c = record st { world = w } in
        rw read (elim (process_rules-Loops rules node start live distinct near) [
          | inl (key, (r, cached, failed)) ↦
              inl (key, (r, cached, subst (λ k. has_failure k r ≡ true) named failed))
          | inr l ↦
              let out = process_rules c rules node start in
              inr (
                settled_in_store rules node out.0 (s.node_at out.1.world name)
                  (ap (λ k. bare (s.node_at out.1.world k)) (sym (l.name ∙ named)) ∙ l.near)
                  l.conditions l.own)
        ])
