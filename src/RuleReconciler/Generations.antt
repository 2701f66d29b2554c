-- ===== src/RuleReconciler/Generations.antt =====
-- The generations of the stored rules under the reconciliation of a rule.
use node_readiness_gate_cont.Prelude.{
  ◌≡◌, refl, sym, ap, ◌∙◌, inl, inr, String, Bool, true, false, Option, none, some, Result, ok, err,
  Bool-cases, if◌then◌else◌,
}
use node_readiness_gate_cont.Core.{Selectors, Time}
use node_readiness_gate_cont.Api.{NodeReadinessGateRule}
use node_readiness_gate_cont.Client.{Client, Fault}
use node_readiness_gate_cont.Client.Store.{Store}
use node_readiness_gate_cont.AllNodes.{process_all_nodes_for_rule}
use node_readiness_gate_cont.AllNodes.Rules.{process_all_nodes_rules}
use node_readiness_gate_cont.DryRun.{process_dry_run}
use node_readiness_gate_cont.DryRun.Laws.{process_dry_run_only}
use node_readiness_gate_cont.RuleStatus.{update_rule_status, cleanup_deleted_nodes}
use node_readiness_gate_cont.RuleStatus.Generations.{
  KeepsGenerations, KeepsGenerations-trans, update_rule_status-KeepsGenerations,
  cleanup_deleted_nodes-KeepsGenerations,
}
use node_readiness_gate_cont.Selection.{node_selector_changed}
use node_readiness_gate_cont.Cleanup.{cleanup_nodes_after_selector_change}
use node_readiness_gate_cont.Cleanup.Rules.{cleanup_nodes_rules}
use node_readiness_gate_cont.Controller.{
  State, Outcome, update_rule_cache, get_cached_rule, remove_rule_from_cache,
}
use node_readiness_gate_cont.RuleReconciler.Steps.{
  continue, ◌>>=◌, ◌>>◌, done, modify, attempted, attempt, lifted,
}
use node_readiness_gate_cont.RuleReconciler.{
  minute, clean_old_nodes, leave_selector, processed, process, without_dry_run, store_status,
  ensure_finalizer, reconcile_live, by_deletion, fetched, reconcile,
}
use node_readiness_gate_cont.RuleReconciler.Owning.{
  Settled, since_same, next, attempted_since, lifted_since, deletion_since, ensure_since,
}

module _ (c : Client) (s : Store c) where
  module _ (sel : Selectors) where
    -- A call that leaves the rules alone, after all that has kept the generations.
    then_same :
        (u v w : c.World)
        → KeepsGenerations c s u v
        → s.rule_at w ≡ s.rule_at v
        → KeepsGenerations c s u w
    then_same u v w i e = KeepsGenerations-trans c s u v w i (since_same c s v w e)

    leave_since :
        (w : c.World) (rule : NodeReadinessGateRule) (cached : Option NodeReadinessGateRule)
        (st : State c)
        → KeepsGenerations c s w st.world
        → Settled c s w (clean_old_nodes c sel rule cached st)
    unfolding clean_old_nodes
    leave_since w rule none st i = i
    leave_since w rule (some old) st i =
        let p = cleanup_nodes_after_selector_change c sel old rule st.world in
        elim (Bool-cases (node_selector_changed rule.spec.node_selector old.spec.node_selector)) [
          | inr same ↦ rw same i
          | inl changed ↦ rw changed (
              attempted_since c s w st minute p
                (then_same w st.world p.1 i (cleanup_nodes_rules c s sel old rule st.world)))
        ]

    process_since :
        (w : c.World) (rule : NodeReadinessGateRule) (st : State c)
        → KeepsGenerations c s w st.world
        → Settled c s w (process c sel rule st)
    unfolding process processed
    process_since w rule st i = chosen rule.spec.dry_run
      where
        ended :
            (p : Option (Fault c.Err) × NodeReadinessGateRule × c.World)
            → s.rule_at p.2 ≡ s.rule_at st.world
            → Settled c s w (processed c sel st p)
        ended (none, r, v) e = then_same w st.world v i e
        ended (some f, r, v) e = then_same w st.world v i e

        chosen :
            (b : Bool)
            → Settled c s w (
                processed c sel st (
                  if b
                  then process_dry_run sel c rule st.world
                  else process_all_nodes_for_rule c sel (without_dry_run c sel rule) st.world))
        chosen true = ended (process_dry_run sel c rule st.world) (
            ap s.rule_at (process_dry_run_only sel rule c st.world).0 ∙ s.list_nodes_rules st.world)
        chosen false =
            ended (process_all_nodes_for_rule c sel (without_dry_run c sel rule) st.world)
              (process_all_nodes_rules c sel s (without_dry_run c sel rule) st.world)

    store_since :
        (w : c.World) (rule : NodeReadinessGateRule) (st : State c)
        → KeepsGenerations c s w st.world
        → Settled c s w (store_status c sel rule st)
    unfolding store_status
    store_since w rule st i =
        let p = lifted c (update_rule_status c rule st.world) in
        next c s w (attempted st minute p)
          (λ _. attempt minute (λ v. lifted c (cleanup_deleted_nodes c rule v)))
          (attempted_since c s w st minute p (
            lifted_since c s w (update_rule_status c rule st.world) (
              KeepsGenerations-trans c s w st.world _ i
                (update_rule_status-KeepsGenerations c s rule st.world))))
          (λ _ st' j.
            attempted_since c s w st' minute (lifted c (cleanup_deleted_nodes c rule st'.world)) (
              lifted_since c s w (cleanup_deleted_nodes c rule st'.world) (
                KeepsGenerations-trans c s w st'.world _ j
                  (cleanup_deleted_nodes-KeepsGenerations c s rule st'.world))))

    -- The steps from the cleanup of the nodes that the selector has left.
    owned_since :
        (w : c.World) (owned : NodeReadinessGateRule) (st : State c)
        → KeepsGenerations c s w st.world
        → Settled c s w (
            (leave_selector c sel owned
                >> (modify (update_rule_cache c owned)
                    >> (process c sel owned >>= λ result.
                        store_status c sel result >> done {A = Outcome c})))
              st)
    unfolding leave_selector update_rule_cache
    owned_since w owned st i =
        next c s w (leave_selector c sel owned st)
          (λ _.
            modify (update_rule_cache c owned)
            >> (process c sel owned >>= λ result.
                store_status c sel result >> done {A = Outcome c}))
          (leave_since w owned (get_cached_rule c st owned.name) st i)
          (λ _ st' j.
            let cached = update_rule_cache c owned st' in
            next c s w (process c sel owned cached)
              (λ result. store_status c sel result >> done {A = Outcome c})
              (process_since w owned cached j)
              (λ result st2 l.
                next c s w (store_status c sel result st2) (λ _. done {A = Outcome c})
                  (store_since w result st2 l) (λ _ st3 l3. l3)))

    by_deletion_since :
        (name : String) (rule : NodeReadinessGateRule) (deleted : Option Time) (st : State c)
        → s.rule_at st.world rule.name ≡ some rule
        → Settled c s st.world (by_deletion c sel name rule deleted st)
    unfolding by_deletion reconcile_live
    by_deletion_since name rule (some t) st stored = deletion_since c s sel rule st stored
    by_deletion_since name rule none st stored =
        next c s st.world (ensure_finalizer c sel name rule st)
          (λ owned.
            leave_selector c sel owned
            >> (modify (update_rule_cache c owned)
                >> (process c sel owned >>= λ result.
                    store_status c sel result >> done {A = Outcome c})))
          (ensure_since c s sel name rule st stored) (owned_since st.world)

    pub rule_run-KeepsGenerations :
        (name : String) (st : State c)
        → KeepsGenerations c s st.world (reconcile c sel name st).1.world
    unfolding reconcile
    rule_run-KeepsGenerations name st = answered (c.get_rule name st.world) refl
      where
        answered :
            (a : Result c.Err NodeReadinessGateRule × c.World)
            → c.get_rule name st.world ≡ a
            → Settled c s st.world (
                continue
                  (fetched c sel name st a)
                  (λ rule. by_deletion c sel name rule rule.deletion_timestamp))
        answered (err e, v) q =
            let rules = ap (λ p. s.rule_at p.1) (sym q) ∙ s.get_rule_rules st.world name in
            elim (Bool-cases (c.is_not_found e)) [
              | inl gone ↦
                  unfold fetched in
                  rw gone (unfold remove_rule_from_cache in since_same c s st.world v rules)
              | inr broken ↦ unfold fetched in rw broken (since_same c s st.world v rules)
            ]
        answered (ok rule, v) q =
            unfold fetched in
            let rules = ap (λ p. s.rule_at p.1) (sym q) ∙ s.get_rule_rules st.world name in
            let (stored, named) = s.get_rule_ok st.world v name rule q in
            KeepsGenerations-trans c s st.world v _ (since_same c s st.world v rules) (
              by_deletion_since name rule rule.deletion_timestamp (record st { world = v })
                (ap (λ f. f rule.name) rules ∙ ap (s.rule_at st.world) named ∙ stored))
