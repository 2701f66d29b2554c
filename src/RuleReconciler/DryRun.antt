-- ===== src/RuleReconciler/DryRun.antt =====
-- The nodes under the reconciliation of a rule in dry run, and of one that finds every node as it
-- wants it.
use node_readiness_gate_cont.Prelude.{
  ◌≡◌, refl, sym, ap, subst, ◌∙◌, inl, inr, String, true, false, not, Option, none, some, Result,
  ok, err, Bool-cases, if◌then◌else◌,
}
use node_readiness_gate_cont.Core.{Node, Selectors, Time}
use node_readiness_gate_cont.Api.{NodeReadinessGateRule, NodeReadinessGateRuleSpec}
use node_readiness_gate_cont.Client.{Client}
use node_readiness_gate_cont.Client.Store.{Store}
use node_readiness_gate_cont.Selection.{node_selector_changed}
use node_readiness_gate_cont.AllNodes.Quiet.{IsCalm}
use node_readiness_gate_cont.Finalizers.{finalizer_name, contains_finalizer, add_finalizer}
use node_readiness_gate_cont.Finalizers.Laws.{add_finalizer_keeps}
use node_readiness_gate_cont.Controller.{State, get_cached_rule}
use node_readiness_gate_cont.RuleReconciler.Steps.{go, continue, called, call}
use node_readiness_gate_cont.RuleReconciler.{
  adopt, ensure_finalizer, reconcile_live, by_deletion, fetched, reconcile,
}
use node_readiness_gate_cont.RuleReconciler.Enforcing.{enforce}
use node_readiness_gate_cont.RuleReconciler.Quiet.{LeavesNodes, enforce_nodes}

module _ (c : Client) (sel : Selectors) (s : Store c) where
  module _ (name : String) (rule : NodeReadinessGateRule) (named : rule.name ≡ name) where
    -- Neither the rule nor its dry run has a reason to write to the nodes of the world.
    abbrev IsIdle : c.World → Type 0
    IsIdle w = LeavesNodes c sel s rule.spec (s.node_at w)

    IsIdle-kept : (w v : c.World) → s.node_at v ≡ s.node_at w → IsIdle w → IsIdle v
    IsIdle-kept w v e h =
        subst (λ (view : String → Option Node). LeavesNodes c sel s rule.spec view) (sym e) h

    -- The cached version of the rule, if there is one, has the selector of the rule.
    abbrev IsSteady : State c → Type 0
    IsSteady st =
        (old : NodeReadinessGateRule)
        → get_cached_rule c st name ≡ some old
        → node_selector_changed rule.spec.node_selector old.spec.node_selector ≡ false

    owned_nodes :
        (owned : NodeReadinessGateRule) (st : State c)
        → owned.name ≡ name
        → owned.spec ≡ rule.spec
        → IsIdle st.world
        → IsSteady st
        → s.node_at (enforce c sel s owned st).1.world ≡ s.node_at st.world
    owned_nodes owned st same spec idle steady =
        enforce_nodes c sel s owned st
          (subst (λ (q : NodeReadinessGateRuleSpec). LeavesNodes c sel s q (s.node_at st.world))
            (sym spec) idle)
          (λ old found.
            ap
              (λ (q : NodeReadinessGateRuleSpec).
                node_selector_changed q.node_selector old.spec.node_selector)
              spec
            ∙ steady old (ap (get_cached_rule c st) (sym same) ∙ found))

    adopted_nodes :
        (st : State c) (read : Result c.Err NodeReadinessGateRule × c.World)
        → c.get_rule name st.world ≡ read
        → ((x : NodeReadinessGateRule) → s.rule_at st.world name ≡ some x → x.spec ≡ rule.spec)
        → IsIdle st.world
        → IsSteady st
        → s.node_at (continue (called st read) (enforce c sel s)).1.world ≡ s.node_at st.world
    unfolding get_cached_rule
    adopted_nodes st (err e, w) q known idle steady =
        ap (λ p. s.node_at p.1) (sym q) ∙ s.get_rule_nodes st.world name
    adopted_nodes st (ok owned, w) q known idle steady =
        let (found, same) = s.get_rule_ok st.world w name owned q in
        let kept = ap (λ p. s.node_at p.1) (sym q) ∙ s.get_rule_nodes st.world name in
        owned_nodes owned (record st { world = w }) same (known owned found)
          (IsIdle-kept st.world w kept idle) steady
        ∙ kept

    updated_nodes :
        (st : State c) (answer : Result c.Err NodeReadinessGateRule × c.World)
        → c.update_rule (add_finalizer rule finalizer_name) st.world ≡ answer
        → IsIdle st.world
        → IsSteady st
        → s.node_at
            (continue
              (continue (called st answer) (λ _. call (c.get_rule name)))
              (enforce c sel s)).1.world
          ≡ s.node_at st.world
    unfolding get_cached_rule
    updated_nodes st (err e, w) q idle steady =
        ap (λ p. s.node_at p.1) (sym q) ∙ s.update_rule_nodes st.world _
    updated_nodes st (ok r, w) q idle steady =
        let (spec, same) = add_finalizer_keeps rule finalizer_name in
        let kept = ap (λ p. s.node_at p.1) (sym q) ∙ s.update_rule_nodes st.world _ in
        adopted_nodes (record st { world = w }) _ refl
          (λ x found.
            (s.update_rule_ok st.world w _ r x q (ap (s.rule_at w) (same ∙ named) ∙ found)).0
            ∙ spec)
          (IsIdle-kept st.world w kept idle) steady
        ∙ kept

    live_nodes :
        (st : State c)
        → IsIdle st.world
        → IsSteady st
        → s.node_at (reconcile_live c sel name rule st).1.world ≡ s.node_at st.world
    unfolding reconcile_live ensure_finalizer adopt
    live_nodes st idle steady = elim (Bool-cases (contains_finalizer rule finalizer_name)) [
      | inl has ↦
          ap
            (λ b.
              s.node_at
                (continue ((if not b then adopt c sel name rule else (λ st. (go rule, st))) st)
                  (enforce c sel s)).1.world)
            has
          ∙ owned_nodes rule st named refl idle steady
      | inr lacks ↦
          ap
            (λ b.
              s.node_at
                (continue ((if not b then adopt c sel name rule else (λ st. (go rule, st))) st)
                  (enforce c sel s)).1.world)
            lacks
          ∙ updated_nodes st _ refl idle steady
    ]

    alive_nodes :
        (st : State c) (deleted : Option Time)
        → deleted ≡ none
        → IsIdle st.world
        → IsSteady st
        → s.node_at (by_deletion c sel name rule deleted st).1.world ≡ s.node_at st.world
    unfolding by_deletion
    alive_nodes st none z idle steady = live_nodes st idle steady
    alive_nodes st (some t) z idle steady = absurd (cc)

  idle_nodes :
      (name : String) (st : State c) (rule : NodeReadinessGateRule) (w : c.World)
      → c.get_rule name st.world ≡ (ok rule, w)
      → rule.deletion_timestamp ≡ none
      → LeavesNodes c sel s rule.spec (s.node_at st.world)
      → ((old : NodeReadinessGateRule)
          → get_cached_rule c st name ≡ some old
          → node_selector_changed rule.spec.node_selector old.spec.node_selector ≡ false)
      → s.node_at (reconcile c sel name st).1.world ≡ s.node_at st.world
  unfolding reconcile fetched get_cached_rule
  idle_nodes name st rule w read alive idle steady =
      let (_, named) = s.get_rule_ok st.world w name rule read in
      let next : State c = record st { world = w } in
      let kept = ap (λ p. s.node_at p.1) (sym read) ∙ s.get_rule_nodes st.world name in
      ap
        (λ a.
          s.node_at
            (continue (fetched c sel name st a)
              (λ r. by_deletion c sel name r r.deletion_timestamp)).1.world)
        read
      ∙ alive_nodes name rule named next rule.deletion_timestamp alive
          (IsIdle-kept name rule named st.world w kept idle) steady
      ∙ kept

  -- The reconciliation of a rule in dry run, which is not being deleted and whose selector is the
  -- one of its cached version if it has one, changes no stored node, whether it fails or not.
  pub reconcile-dry_run_nodes :
      (name : String) (st : State c) (rule : NodeReadinessGateRule) (w : c.World)
      → c.get_rule name st.world ≡ (ok rule, w)
      → rule.deletion_timestamp ≡ none
      → rule.spec.dry_run ≡ true
      → ((old : NodeReadinessGateRule)
          → get_cached_rule c st name ≡ some old
          → node_selector_changed rule.spec.node_selector old.spec.node_selector ≡ false)
      → s.node_at (reconcile c sel name st).1.world ≡ s.node_at st.world
  reconcile-dry_run_nodes name st rule w read alive dry steady =
      idle_nodes name st rule w read alive (inl dry) steady

  -- The reconciliations of a rule come to rest: one of a rule that is not being deleted, whose
  -- selector is the one of its cached version if it has one, and that finds on every stored node
  -- that the rule selects the rule's taint exactly if some required condition is not met, changes
  -- no stored node, whether it fails or not.
  pub reconcile-rests :
      (name : String) (st : State c) (rule : NodeReadinessGateRule) (w : c.World)
      → c.get_rule name st.world ≡ (ok rule, w)
      → rule.deletion_timestamp ≡ none
      → ((k : String) (n : Node) → s.node_at st.world k ≡ some n → IsCalm sel rule.spec n)
      → ((old : NodeReadinessGateRule)
          → get_cached_rule c st name ≡ some old
          → node_selector_changed rule.spec.node_selector old.spec.node_selector ≡ false)
      → s.node_at (reconcile c sel name st).1.world ≡ s.node_at st.world
  reconcile-rests name st rule w read alive calm steady =
      idle_nodes name st rule w read alive (inr calm) steady
