-- ===== src/RuleReconciler/Convergence.antt =====
-- The stored nodes after a reconciliation of a rule, while nobody else writes.
use node_readiness_gate_cont.Prelude.{
  ◌≡◌, refl, sym, ap, subst, ◌∙◌, inl, inr, String, true, false, Option, none, some, Result, ok,
  err, Bool-cases,
}
use node_readiness_gate_cont.Core.{Selectors, Time}
use node_readiness_gate_cont.Api.{NodeReadinessGateRule, NodeReadinessGateRuleSpec}
use node_readiness_gate_cont.Client.{Client}
use node_readiness_gate_cont.Client.Store.{Store}
use node_readiness_gate_cont.Finalizers.{finalizer_name, contains_finalizer, add_finalizer}
use node_readiness_gate_cont.Finalizers.Laws.{add_finalizer_keeps}
use node_readiness_gate_cont.AllNodes.InLine.{IsInLine, in_line}
use node_readiness_gate_cont.Controller.{State}
use node_readiness_gate_cont.RuleReconciler.Steps.{go, continue, called, call}
use node_readiness_gate_cont.RuleReconciler.{
  adopt, ensure_finalizer, reconcile_live, by_deletion, fetched, reconcile,
}
use node_readiness_gate_cont.RuleReconciler.Storing.{HasNoError, IsOwn, IsInForce, IsEnforced}
use node_readiness_gate_cont.RuleReconciler.Enforcing.{enforce, enforce-IsEnforced}

module _ (c : Client) (sel : Selectors) (s : Store c) where
  -- A rule with the spec is stored under the name, and is in force.
  abbrev pub Enforces : String → NodeReadinessGateRuleSpec → c.World → Type 0
  Enforces name spec w =
      (after : NodeReadinessGateRule) × (s.rule_at w name ≡ some after)
      × (after.spec ≡ spec)
      × IsInForce c sel s after w

  module _ (name : String) (rule : NodeReadinessGateRule) (real : rule.spec.dry_run ≡ false) where
    owned-Enforces :
        (owned : NodeReadinessGateRule) (w : c.World)
        → owned.name ≡ name
        → owned.spec ≡ rule.spec
        → IsEnforced c sel s owned w
        → Enforces name rule.spec w
    owned-Enforces owned w named spec (after, found, same, force) =
        (after, ap (s.rule_at w) (sym named) ∙ found, same ∙ spec, force)

    adopted-Enforces :
        (st : State c) (read : Result c.Err NodeReadinessGateRule × c.World)
        → c.get_rule name st.world ≡ read
        → ((x : NodeReadinessGateRule) → s.rule_at st.world name ≡ some x → x.spec ≡ rule.spec)
        → let end = continue (called st read) (enforce c sel s) in
          HasNoError end → Enforces name rule.spec end.1.world
    adopted-Enforces st (err e, w) q known h = absurd (cc)
    adopted-Enforces st (ok owned, w) q known h =
        let (found, named) = s.get_rule_ok st.world w name owned q in
        let rules = ap (λ p. s.rule_at p.1) (sym q) ∙ s.get_rule_rules st.world name in
        let spec = known owned found in
        owned-Enforces owned _ named spec (
          enforce-IsEnforced c sel s owned (record st { world = w })
            (ap (λ (q : NodeReadinessGateRuleSpec). q.dry_run) spec ∙ real)
            (ap (s.rule_at w) named ∙ ap (λ f. f name) rules ∙ found) h)

    updated-Enforces :
        (st : State c) (answer : Result c.Err NodeReadinessGateRule × c.World)
        → rule.name ≡ name
        → c.update_rule (add_finalizer rule finalizer_name) st.world ≡ answer
        → let end =
            continue
              (continue (called st answer) (λ _. call (c.get_rule name)))
              (enforce c sel s) in
          HasNoError end → Enforces name rule.spec end.1.world
    updated-Enforces st (err e, w) named q h = absurd (cc)
    updated-Enforces st (ok r, w) named q h =
        adopted-Enforces (record st { world = w }) _ refl
          (λ x found.
            let (spec, same) = add_finalizer_keeps rule finalizer_name in
            let there = ap (s.rule_at w) (same ∙ named) ∙ found in
            (s.update_rule_ok st.world w _ r x q there).0 ∙ spec)
          h

    ensure_kept :
        (st : State c)
        → contains_finalizer rule finalizer_name ≡ true
        → ensure_finalizer c sel name rule st ≡ (go rule, st)
    unfolding ensure_finalizer
    ensure_kept st h = rw (h, ensure_finalizer)

    ensure_added :
        (st : State c)
        → contains_finalizer rule finalizer_name ≡ false
        → ensure_finalizer c sel name rule st ≡ adopt c sel name rule st
    unfolding ensure_finalizer
    ensure_added st h = rw (h, ensure_finalizer)

    ensured-Enforces :
        (st : State c)
        → rule.name ≡ name
        → IsOwn c sel s rule st.world
        → let end = continue (ensure_finalizer c sel name rule st) (enforce c sel s) in
          HasNoError end → Enforces name rule.spec end.1.world
    unfolding adopt
    ensured-Enforces st named own h = elim (Bool-cases (contains_finalizer rule finalizer_name)) [
      | inl has ↦
          let e = ensure_kept st has in
          rw e (
            owned-Enforces rule _ named refl
              (enforce-IsEnforced c sel s rule st real own (rw e at h)))
      | inr lacks ↦
          let e = ensure_added st lacks in rw e (updated-Enforces st _ named refl (rw e at h))
    ]

    live-Enforces :
        (st : State c)
        → rule.name ≡ name
        → IsOwn c sel s rule st.world
        → HasNoError (reconcile_live c sel name rule st)
        → Enforces name rule.spec (reconcile_live c sel name rule st).1.world
    unfolding reconcile_live
    live-Enforces st named own h = ensured-Enforces st named own h

    by_deletion-Enforces :
        (st : State c) (deleted : Option Time)
        → deleted ≡ none
        → rule.name ≡ name
        → IsOwn c sel s rule st.world
        → HasNoError (by_deletion c sel name rule deleted st)
        → Enforces name rule.spec (by_deletion c sel name rule deleted st).1.world
    unfolding by_deletion
    by_deletion-Enforces st none z named own h = live-Enforces st named own h
    by_deletion-Enforces st (some t) z named own h = absurd (cc)

  fetched-Enforces :
      (name : String) (st : State c) (rule : NodeReadinessGateRule) (w : c.World)
      (answer : Result c.Err NodeReadinessGateRule × c.World)
      → answer ≡ (ok rule, w)
      → rule.name ≡ name
      → IsOwn c sel s rule w
      → rule.deletion_timestamp ≡ none
      → rule.spec.dry_run ≡ false
      → let end =
          continue
            (fetched c sel name st answer)
            (λ r. by_deletion c sel name r r.deletion_timestamp) in
        HasNoError end → Enforces name rule.spec end.1.world
  unfolding fetched
  fetched-Enforces name st rule w (err e, w') q named own alive real h = absurd (cc)
  fetched-Enforces name st rule w (ok r, w') q named own alive real h =
      let same : (rule, w) ≡ (r, w') = sym (cc) in
      subst
        (λ (p : NodeReadinessGateRule × c.World).
          let end = by_deletion c sel name p.0 p.0.deletion_timestamp (record st { world = p.1 }) in
          HasNoError end → Enforces name rule.spec end.1.world)
        same
        (by_deletion-Enforces name rule real (record st { world = w }) rule.deletion_timestamp alive
          named own)
        h

  -- A rule with the spec is stored under the name, and it has every stored node in line.
  abbrev pub IsUpheld : String → NodeReadinessGateRuleSpec → c.World → Type 0
  IsUpheld name spec w =
      (after : NodeReadinessGateRule) × (s.rule_at w name ≡ some after)
      × (after.spec ≡ spec)
      × ((k : String) → IsInLine c sel k after after (s.node_at w k))

  -- A reconciliation of a rule that is neither being deleted nor a dry run, if it ends without an
  -- error while nobody else writes: a rule with the spec that was read is stored under the name,
  -- and every stored node that it selects carries its taint exactly if some required condition is
  -- not met, or the stored status of the rule has a failure of that node.
  pub reconcile-IsUpheld :
      (name : String) (st : State c) (rule : NodeReadinessGateRule) (w : c.World)
      → c.get_rule name st.world ≡ (ok rule, w)
      → rule.deletion_timestamp ≡ none
      → rule.spec.dry_run ≡ false
      → (reconcile c sel name st).0.failure ≡ none
      → IsUpheld name rule.spec (reconcile c sel name st).1.world
  unfolding reconcile
  reconcile-IsUpheld name st rule w read alive real h =
      let (found, named) = s.get_rule_ok st.world w name rule read in
      let rules = ap (λ p. s.rule_at p.1) (sym read) ∙ s.get_rule_rules st.world name in
      let (after, stored, spec, force) =
        fetched-Enforces name st rule w (c.get_rule name st.world) read named
          (ap (s.rule_at w) named ∙ ap (λ f. f name) rules ∙ found) alive real h in
      (after, stored, spec, λ k. in_line c sel k after after _ (force k))
