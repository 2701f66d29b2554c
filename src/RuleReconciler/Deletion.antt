-- ===== src/RuleReconciler/Deletion.antt =====
-- The reconciliation of a rule that is being deleted.
use node_readiness_gate_cont.Prelude.{
  ◌≢◌, ◌⊎◌, inl, inr, Option-cases, ◌≡◌, refl, sym, ap, ◌∙◌, String, true, Option, none, some,
  Result, ok, err,
}
use node_readiness_gate_cont.Core.{Selectors, Time}
use node_readiness_gate_cont.Api.{NodeReadinessGateRule}
use node_readiness_gate_cont.Client.{Client, Fault}
use node_readiness_gate_cont.Client.Store.{Store}
use node_readiness_gate_cont.Selection.{rule_applies_to}
use node_readiness_gate_cont.Finalizers.{finalizer_name, contains_finalizer, remove_finalizer}
use node_readiness_gate_cont.Cleanup.{cleanup_taints_for_rule}
use node_readiness_gate_cont.Cleanup.Loop.{cleaned?}
use node_readiness_gate_cont.Cleanup.Rules.{cleanup_taints_rules}
use node_readiness_gate_cont.Cleanup.Laws.{cleanup_taints_for_rule-IsCleaned}
use node_readiness_gate_cont.Controller.{State, Outcome, remove_rule_from_cache}
use node_readiness_gate_cont.RuleReconciler.Steps.{
  Flow, stop, Step, continue, ◌>>◌, done, modify, attempted, called,
}
use node_readiness_gate_cont.RuleReconciler.{
  minute, outcome_of, release, clean_and_release, reconcile_deletion, by_deletion, fetched,
  reconcile,
}

-- The outcome and the state that a reconciliation ends with.
abbrev ended : {c : Client} → Flow c (Outcome c) × State c → Outcome c × State c
ended (flow, st) = (outcome_of flow, st)

failed_attempt :
    {c : Client} {B : Type 0} (st : State c) (p : Option (Fault c.Err) × c.World) (f : Fault c.Err)
    (k : Unit {0} → Step c B)
    → p.0 ≡ some f
    → continue (attempted st minute p) k
      ≡ (stop (record { requeue_after = 60; failure = some f }), record st { world = p.1 })
failed_attempt st (none, w) f k h = absurd (cc)
failed_attempt st (some g, w) f k h = cc

module _ (c : Client) (sel : Selectors) where
  release_if_owned :
      (rule : NodeReadinessGateRule)
      → contains_finalizer rule finalizer_name ≡ true
      → reconcile_deletion c sel rule ≡ clean_and_release c sel rule
  unfolding reconcile_deletion
  release_if_owned rule owned = rw (owned, reconcile_deletion)

  delete_if_marked :
      (name : String) (rule : NodeReadinessGateRule) (t : Time) (d : Option Time)
      → d ≡ some t
      → by_deletion c sel name rule d ≡ reconcile_deletion c sel rule
  unfolding by_deletion
  delete_if_marked name rule t none h = absurd (cc)
  delete_if_marked name rule t (some u) h = refl

  release_nodes :
      (s : Store c) (rule : NodeReadinessGateRule) (st : State c)
      → s.node_at (release c sel rule st).1.world ≡ s.node_at st.world
  unfolding release remove_rule_from_cache
  release_nodes s rule st =
      answered (c.update_rule (remove_finalizer rule finalizer_name) st.world) refl
    where
      answered :
          (a : Result c.Err NodeReadinessGateRule × c.World)
          → c.update_rule (remove_finalizer rule finalizer_name) st.world ≡ a
          → s.node_at
              (continue (called st a) (λ released.
                modify (remove_rule_from_cache c released.name) >> done {A = Outcome c})).1.world
            ≡ s.node_at st.world
      answered (ok r, v) q = ap (λ p. s.node_at p.1) (sym q) ∙ s.update_rule_nodes st.world _
      answered (err e, v) q = ap (λ p. s.node_at p.1) (sym q) ∙ s.update_rule_nodes st.world _

  attempted_nodes :
      (s : Store c) (rule : NodeReadinessGateRule) (st : State c)
      (p : Option (Fault c.Err) × c.World)
      → p.0 ≡ none
      → s.node_at (continue (attempted st minute p) (λ _. release c sel rule)).1.world
        ≡ s.node_at p.1
  attempted_nodes s rule st (none, v) h = release_nodes s rule (record st { world = v })
  attempted_nodes s rule st (some f, v) h = absurd (cc)

  module _ (name : String) (st : State c) (rule : NodeReadinessGateRule) (w : c.World) (t : Time)
      (read : c.get_rule name st.world ≡ (ok rule, w)) (deleted : rule.deletion_timestamp ≡ some t)
      (owned : contains_finalizer rule finalizer_name ≡ true) where
    reconcile-release :
        reconcile c sel name st ≡ ended (clean_and_release c sel rule (record st { world = w }))
    unfolding reconcile fetched
    reconcile-release = rw read (
        ap (λ (m : Step c (Outcome c)). ended (m (record st { world = w })))
          (delete_if_marked name rule t rule.deletion_timestamp deleted
            ∙ release_if_owned rule owned))

    cleaned_of_clean :
        (s : Store c)
        → (cleanup_taints_for_rule c sel rule w).0 ≡ none
        → (k : String)
        → s.node_at (reconcile c sel name st).1.world k
          ≡ cleaned?
              (λ n. rule_applies_to sel rule.spec.node_selector n.labels)
              rule.spec.taint
              (s.node_at st.world k)
    unfolding clean_and_release
    cleaned_of_clean s clean k =
        let start : State c = record st { world = w } in
        let p = cleanup_taints_for_rule c sel rule w in
        let (cleaned, _) = cleanup_taints_for_rule-IsCleaned c sel s rule w clean in
        let known : s.node_at w ≡ s.node_at st.world =
          ap (λ q. s.node_at q.1) (sym read) ∙ s.get_rule_nodes st.world name in
        ap (λ (o : Outcome c × State c). s.node_at o.1.world k) reconcile-release
        ∙ ap (λ f. f k) (attempted_nodes s rule start p clean)
        ∙ cleaned k
        ∙ ap
            (λ f.
              cleaned? (λ n. rule_applies_to sel rule.spec.node_selector n.labels) rule.spec.taint
                (f k))
            known

    held :
        (s : Store c) (f : Fault c.Err)
        → (cleanup_taints_for_rule c sel rule w).0 ≡ some f
        → let (outcome, st') = reconcile c sel name st in
          (outcome ≡ record { requeue_after = 60; failure = some f })
          × (s.rule_at st'.world ≡ s.rule_at st.world)
          × (st'.cache ≡ st.cache)
    unfolding clean_and_release
    held s f failed =
        let e : reconcile c sel name st ≡ _ =
          reconcile-release
          ∙ ap ended (
              failed_attempt (record st { world = w }) (cleanup_taints_for_rule c sel rule w) f _
                failed) in
        (
          ap (λ o. o.0) e,
          ap (λ (o : Outcome c × State c). s.rule_at o.1.world) e
              ∙ cleanup_taints_rules c s sel rule w
              ∙ ap (λ p. s.rule_at p.1) (sym read)
              ∙ s.get_rule_rules st.world name,
          ap (λ (o : Outcome c × State c). o.1.cache) e,
        )

    -- However the reconciliation of a rule ends that is being deleted and has the finalizer, whatever
    -- calls fail, while nobody else writes: either the rule's taint is off every stored node that
    -- the rule selects, and all else of the nodes is as it was, or an error is returned with a new
    -- attempt after a minute, and every stored rule, with its finalizers, and the cache are as they
    -- were.
    pub reconcile-cleans_or_keeps :
        (s : Store c)
        → let (outcome, st') = reconcile c sel name st in
          ((k : String)
            → s.node_at st'.world k
              ≡ cleaned?
                  (λ n. rule_applies_to sel rule.spec.node_selector n.labels)
                  rule.spec.taint
                  (s.node_at st.world k))
          ⊎ ((outcome.failure ≢ none)
              × (outcome.requeue_after ≡ 60)
              × (s.rule_at st'.world ≡ s.rule_at st.world)
              × (st'.cache ≡ st.cache))
    reconcile-cleans_or_keeps s = elim (Option-cases (cleanup_taints_for_rule c sel rule w).0) [
      | inl clean ↦ inl (cleaned_of_clean s clean)
      | inr (f, failed) ↦
          let (outcome, rules, cache) = held s f failed in
          inr (
            (λ z. let made = ap (λ (o : Outcome c). o.failure) outcome in cc),
            ap (λ (o : Outcome c). o.requeue_after) outcome,
            rules,
            cache,
          )
    ]
