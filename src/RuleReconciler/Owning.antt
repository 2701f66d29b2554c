-- ===== src/RuleReconciler/Owning.antt =====
-- The generations of the stored rules under the steps of a reconciliation that add and remove the
-- finalizer of a rule.
use node_readiness_gate_cont.Prelude.{
  ◌≡◌, refl, ap, ◌∙◌, inl, inr, String, Option, none, some, Result, ok, err, Bool-cases,
}
use node_readiness_gate_cont.Core.{Selectors, Time}
use node_readiness_gate_cont.Api.{NodeReadinessGateRule}
use node_readiness_gate_cont.Client.{Client, Fault}
use node_readiness_gate_cont.Client.Store.{Store}
use node_readiness_gate_cont.Finalizers.{
  finalizer_name, contains_finalizer, add_finalizer, remove_finalizer,
}
use node_readiness_gate_cont.Finalizers.Laws.{add_finalizer_keeps}
use node_readiness_gate_cont.RuleStatus.Generations.{
  KeepsGenerations, KeepsGenerations-trans, same-KeepsGenerations,
}
use node_readiness_gate_cont.Cleanup.{cleanup_taints_for_rule}
use node_readiness_gate_cont.Cleanup.Rules.{cleanup_taints_rules}
use node_readiness_gate_cont.Controller.{State, Outcome, remove_rule_from_cache}
use node_readiness_gate_cont.RuleReconciler.Steps.{
  Flow, stop, go, Step, continue, ◌>>◌, done, modify, attempted, called, call, lifted,
}
use node_readiness_gate_cont.RuleReconciler.{
  minute, release, clean_and_release, reconcile_deletion, adopt, ensure_finalizer,
}

module _ (c : Client) (s : Store c) where
  -- From the world on, the step keeps the generations of the stored rules.
  abbrev pub Settled : {A : Type 0} → c.World → Flow c A × State c → Type 0
  Settled w p = KeepsGenerations c s w p.1.world

  pub since_same : (w w' : c.World) → s.rule_at w' ≡ s.rule_at w → KeepsGenerations c s w w'
  since_same = same-KeepsGenerations c s

  pub next :
      {A B : Type 0} (w : c.World) (p : Flow c A × State c) (k : A → Step c B)
      → Settled w p
      → ((a : A) (st : State c) → KeepsGenerations c s w st.world → Settled w (k a st))
      → Settled w (continue p k)
  next w (stop o, st) k i h = i
  next w (go a, st) k i h = h a st i

  pub attempted_since :
      (w : c.World) (st : State c) (t : Time) (p : Option (Fault c.Err) × c.World)
      → KeepsGenerations c s w p.1
      → Settled w (attempted st t p)
  attempted_since w st t (none, v) i = i
  attempted_since w st t (some e, v) i = i

  pub called_since :
      {A : Type 0} (w : c.World) (st : State c) (p : Result c.Err A × c.World)
      → KeepsGenerations c s w p.1
      → Settled w (called st p)
  called_since w st (ok a, v) i = i
  called_since w st (err e, v) i = i

  pub lifted_since :
      (w : c.World) (p : Option c.Err × c.World)
      → KeepsGenerations c s w p.1
      → KeepsGenerations c s w (lifted c p).1
  lifted_since w (none, v) i = i
  lifted_since w (some e, v) i = i

  module _ (sel : Selectors) where
    release_since :
        (rule : NodeReadinessGateRule) (st : State c)
        → s.rule_at st.world rule.name ≡ some rule
        → Settled st.world (release c sel rule st)
    unfolding release remove_rule_from_cache remove_finalizer
    release_since rule st stored =
        let sent = remove_finalizer rule finalizer_name in
        next st.world (called st (c.update_rule sent st.world))
          (λ released. modify (remove_rule_from_cache c released.name) >> done {A = Outcome c})
          (called_since st.world st (c.update_rule sent st.world)
            (λ k new. s.update_rule_generation st.world sent rule k new stored refl))
          (λ released st' i. i)

    clean_since :
        (rule : NodeReadinessGateRule) (st : State c)
        → s.rule_at st.world rule.name ≡ some rule
        → Settled st.world (clean_and_release c sel rule st)
    unfolding clean_and_release
    clean_since rule st stored =
        cleaned (cleanup_taints_for_rule c sel rule st.world)
          (cleanup_taints_rules c s sel rule st.world)
      where
        cleaned :
            (p : Option (Fault c.Err) × c.World)
            → s.rule_at p.1 ≡ s.rule_at st.world
            → Settled st.world (continue (attempted st minute p) (λ _. release c sel rule))
        cleaned (none, v) e =
            KeepsGenerations-trans c s st.world v _ (since_same st.world v e)
              (release_since rule (record st { world = v }) (ap (λ f. f rule.name) e ∙ stored))
        cleaned (some f, v) e = since_same st.world v e

    pub deletion_since :
        (rule : NodeReadinessGateRule) (st : State c)
        → s.rule_at st.world rule.name ≡ some rule
        → Settled st.world (reconcile_deletion c sel rule st)
    unfolding reconcile_deletion
    deletion_since rule st stored = elim (Bool-cases (contains_finalizer rule finalizer_name)) [
      | inl owned ↦ rw owned (clean_since rule st stored)
      | inr free ↦ rw free (since_same st.world st.world refl)
    ]

    adopt_since :
        (name : String) (rule : NodeReadinessGateRule) (st : State c)
        → s.rule_at st.world rule.name ≡ some rule
        → Settled st.world (adopt c sel name rule st)
    unfolding adopt
    adopt_since name rule st stored =
        let sent = add_finalizer rule finalizer_name in
        next st.world (called st (c.update_rule sent st.world)) (λ _. call (c.get_rule name))
          (called_since st.world st (c.update_rule sent st.world) (λ k new.
            s.update_rule_generation st.world sent rule k new
              (ap (s.rule_at st.world) (add_finalizer_keeps rule finalizer_name).1 ∙ stored)
              (add_finalizer_keeps rule finalizer_name).0))
          (λ r st' i. called_since st.world st' (c.get_rule name st'.world) (
            KeepsGenerations-trans c s st.world st'.world (c.get_rule name st'.world).1 i (
              since_same st'.world (c.get_rule name st'.world).1
                (s.get_rule_rules st'.world name))))

    pub ensure_since :
        (name : String) (rule : NodeReadinessGateRule) (st : State c)
        → s.rule_at st.world rule.name ≡ some rule
        → Settled st.world (ensure_finalizer c sel name rule st)
    unfolding ensure_finalizer
    ensure_since name rule st stored = elim (Bool-cases (contains_finalizer rule finalizer_name)) [
      | inl owned ↦ rw owned (since_same st.world st.world refl)
      | inr free ↦ rw free (adopt_since name rule st stored)
    ]
