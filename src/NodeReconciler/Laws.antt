-- ===== src/NodeReconciler/Laws.antt =====
-- When the reconciliation of a node skips a rule, and the names of the cached rules.
use node_readiness_gate_cont.Prelude.{
  ◌≡◌, refl, sym, ap, subst, ◌∙◌, inl, inr, String, Bool, true, false, ◌&&◌, ◌||◌, List, [], ◌∷◌,
  Result, ok, err, arith, ◌==◌, Bool-cases, All, filter,
}
use node_readiness_gate_cont.Prelude.GoMap.{GoMap}
use node_readiness_gate_cont.Core.{Node, Selectors}
use node_readiness_gate_cont.Api.{NodeReadinessGateRule, bootstrap_only}
use node_readiness_gate_cont.Client.{Client}
use node_readiness_gate_cont.Client.Store.{Store}
use node_readiness_gate_cont.Bootstrap.{is_bootstrap_completed}
use node_readiness_gate_cont.Bootstrap.Laws.{is_bootstrap_completed-reads}
use node_readiness_gate_cont.Evaluation.Failure.{evaluate_and_record_keeps}
use node_readiness_gate_cont.Selection.{rule_applies_to}
use node_readiness_gate_cont.Controller.{State, get_applicable_rules_for_node}
use node_readiness_gate_cont.Controller.Laws.{IsNamed, insert-IsNamed}
use node_readiness_gate_cont.NodeReconciler.{
  evaluate_cached, process_rule, process_rules, process_node_against_all_rules, after_process,
  fetched, reconcile,
}

module _ (c : Client) where
  -- The test that skips a rule without evaluating it.
  abbrev pub is_skipped : NodeReadinessGateRule → Node → State c → Bool
  is_skipped rule node st =
      ((is_bootstrap_completed c node.name rule.name st.world).0
        && rule.spec.enforcement_mode == bootstrap_only)
      || (rule.spec.dry_run || st.global_dry_run)

  -- What a step that skips its rule leaves: the cache, the flag and all stored objects.
  record IsQuiet (s : Store c) (st st' : State c) : Type 0 where
    cache : st'.cache ≡ st.cache
    flag : st'.global_dry_run ≡ st.global_dry_run
    nodes : s.node_at st'.world ≡ s.node_at st.world
    rules : s.rule_at st'.world ≡ s.rule_at st.world

  pub process_rule_skipped :
      (key : String) (rule : NodeReadinessGateRule) (node : Node) (st : State c)
      → is_skipped rule node st ≡ true
      → process_rule c key rule node st
        ≡ (node, record st { world = (is_bootstrap_completed c node.name rule.name st.world).1 })
  unfolding process_rule
  process_rule_skipped key rule node st h =
      elim (Bool-cases (
        (is_bootstrap_completed c node.name rule.name st.world).0
        && rule.spec.enforcement_mode == bootstrap_only)) [
          | inl completed ↦ rw (process_rule, completed)
          | inr pending ↦
              let dry : (rule.spec.dry_run || st.global_dry_run) ≡ true = ground arith in
              rw (process_rule, pending, dry)
        ]

  pub process_rule_evaluated :
      (key : String) (rule : NodeReadinessGateRule) (node : Node) (st : State c)
      → is_skipped rule node st ≡ false
      → process_rule c key rule node st
        ≡ evaluate_cached c key rule node
            (record st { world = (is_bootstrap_completed c node.name rule.name st.world).1 })
  unfolding process_rule
  process_rule_evaluated key rule node st h =
      let pending : ((is_bootstrap_completed c node.name rule.name st.world).0
            && rule.spec.enforcement_mode == bootstrap_only)
          ≡ false =
        ground arith in
      let wet : (rule.spec.dry_run || st.global_dry_run) ≡ false = ground arith in
      rw (process_rule, pending, wet)

  process_rules_dry :
      (s : Store c) (rules : List (String × NodeReadinessGateRule)) (node : Node) (st : State c)
      → st.global_dry_run ≡ true
      → IsQuiet s st (process_rules c rules node st).1
  unfolding process_rules
  process_rules_dry s [] node st h = record {
    cache = refl;
    flag = refl;
    nodes = refl;
    rules = refl;
  }
  process_rules_dry s ((key, rule) ∷ rules) node st h =
      let skip = process_rule_skipped key rule node st (ground arith) in
      let read : State c = record st {
        world = (is_bootstrap_completed c node.name rule.name st.world).1;
      } in
      let (nodes, rules_kept) = is_bootstrap_completed-reads c s node.name rule.name st.world in
      let q = process_rules_dry s rules node read h in
      subst (λ (p : Node × State c). IsQuiet s st (process_rules c rules p.0 p.1).1) (sym skip)
        (record {
          cache = q.cache;
          flag = q.flag;
          nodes = q.nodes ∙ nodes;
          rules = q.rules ∙ rules_kept;
        })

  evaluate_cached-IsNamed :
      (key : String) (rule : NodeReadinessGateRule) (node : Node) (st : State c)
      → rule.name ≡ key
      → IsNamed st.cache
      → IsNamed (evaluate_cached c key rule node st).1.cache
  unfolding evaluate_cached
  evaluate_cached-IsNamed key rule node st named i =
      let (_, _, name) = evaluate_and_record_keeps c rule node st.world in
      insert-IsNamed key _ st.cache (name ∙ named) i

  process_rule-IsNamed :
      (key : String) (rule : NodeReadinessGateRule) (node : Node) (st : State c)
      → rule.name ≡ key
      → IsNamed st.cache
      → IsNamed (process_rule c key rule node st).1.cache
  unfolding process_rule
  process_rule-IsNamed key rule node st named i = elim (Bool-cases (is_skipped rule node st)) [
    | inl skipped ↦ rw (process_rule_skipped key rule node st skipped) i
    | inr taken ↦ rw (process_rule_evaluated key rule node st taken) (
        evaluate_cached-IsNamed key rule node
          (record st { world = (is_bootstrap_completed c node.name rule.name st.world).1 }) named i)
  ]

  process_rules-IsNamed :
      (rules : List (String × NodeReadinessGateRule)) (node : Node) (st : State c)
      → All (λ e. e.1.name ≡ e.0) rules
      → IsNamed st.cache
      → IsNamed (process_rules c rules node st).1.cache
  unfolding process_rules
  process_rules-IsNamed [] node st h i = i
  process_rules-IsNamed ((key, rule) ∷ rules) node st h i =
      process_rules-IsNamed rules _ _ h.1 (process_rule-IsNamed key rule node st h.0 i)

  module _ (sel : Selectors)
      (visit : GoMap NodeReadinessGateRule → GoMap NodeReadinessGateRule) where
    picked :
        (p : String × NodeReadinessGateRule → Bool) (es : GoMap NodeReadinessGateRule)
        → All (λ e. e.1.name ≡ e.0) es
        → All (λ e. e.1.name ≡ e.0) (filter p es)
    picked p [] h = tt
    picked p (e ∷ es) h = elim (Bool-cases (p e)) [
      | inl y ↦ rw y (h.0, picked p es h.1)
      | inr n ↦ rw n (picked p es h.1)
    ]

    -- The global dry run is an off-switch for the node controller: while it is set, the
    -- reconciliation of a node changes no stored node, no stored rule and no cached rule.
    pub reconcile-dry_run :
        (s : Store c) (name : String) (st : State c)
        → st.global_dry_run ≡ true
        → let st' = (reconcile c sel visit name st).1 in
          (st'.cache ≡ st.cache)
          × (s.node_at st'.world ≡ s.node_at st.world)
          × (s.rule_at st'.world ≡ s.rule_at st.world)
    unfolding reconcile fetched process_node_against_all_rules after_process
    reconcile-dry_run s name st h = answered (c.get_node name st.world) refl
      where
        answered :
            (a : Result c.Err Node × c.World)
            → c.get_node name st.world ≡ a
            → let st' = (fetched c sel visit st a).1 in
              (st'.cache ≡ st.cache)
              × (s.node_at st'.world ≡ s.node_at st.world)
              × (s.rule_at st'.world ≡ s.rule_at st.world)
        answered (err e, v) q = (
          refl,
          ap (λ p. s.node_at p.1) (sym q) ∙ s.get_node_nodes st.world name,
          ap (λ p. s.rule_at p.1) (sym q) ∙ s.get_node_rules st.world name,
        )
        answered (ok node, v) q =
            let read : State c = record st { world = v } in
            let quiet =
              process_rules_dry s (get_applicable_rules_for_node sel visit st.cache node) node read
                h in
            (
              quiet.cache,
              quiet.nodes ∙ ap (λ p. s.node_at p.1) (sym q) ∙ s.get_node_nodes st.world name,
              quiet.rules ∙ ap (λ p. s.rule_at p.1) (sym q) ∙ s.get_node_rules st.world name,
            )

    -- The reconciliation of a node keeps the cache sound: if every rule is cached once and under
    -- its own name, and the loop visits the cache's entries only, it is so afterwards.
    pub reconcile-IsNamed :
        (name : String) (st : State c)
        → All (λ e. e.1.name ≡ e.0) (visit st.cache)
        → IsNamed st.cache
        → IsNamed (reconcile c sel visit name st).1.cache
    unfolding reconcile fetched process_node_against_all_rules after_process
        get_applicable_rules_for_node
    reconcile-IsNamed name st own i = answered (c.get_node name st.world)
      where
        answered : (a : Result c.Err Node × c.World) → IsNamed (fetched c sel visit st a).1.cache
        answered (err e, v) = i
        answered (ok node, v) =
            process_rules-IsNamed _ node (record st { world = v })
              (picked (λ e. rule_applies_to sel e.1.spec.node_selector node.labels) (visit st.cache)
                own)
              i
