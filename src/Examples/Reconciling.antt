-- ===== src/Examples/Reconciling.antt =====
-- The theorems on the reconciliations of a deleted rule, of a node, and on sequences of runs.
use node_readiness_gate_cont.Prelude.{
  ◌≡◌, ◌≢◌, ◌⊎◌, refl, subst, String, false, [], ◌∷◌, none, some,
}
use node_readiness_gate_cont.Prelude.GoMap.{GoMap, lookup, insert}
use node_readiness_gate_cont.Api.{NodeReadinessGateRule}
use node_readiness_gate_cont.Selection.{rule_applies_to, node_selector_changed, string_map_equal}
use node_readiness_gate_cont.Taints.{has_taint_by_spec}
use node_readiness_gate_cont.Evaluation.{
  evaluate_rule_for_node, evaluate_and_record, add_taint_by_spec, remove_taint_by_spec,
}
use node_readiness_gate_cont.Conditions.{evaluate_conditions, get_condition_status}
use node_readiness_gate_cont.Status.{update_node_evaluations}
use node_readiness_gate_cont.RuleStatus.{update_rule_status}
use node_readiness_gate_cont.Finalizers.{contains_finalizer}
use node_readiness_gate_cont.Cleanup.Loop.{cleaned?}
use node_readiness_gate_cont.Controller.{State, new_controller, get_cached_rule}
use node_readiness_gate_cont.Controller.Laws.{IsNamed, insert-IsNamed}
use node_readiness_gate_cont.RuleReconciler.Deletion.{reconcile-cleans_or_keeps}
use node_readiness_gate_cont.RuleReconciler.DryRun.{reconcile-dry_run_nodes}
use node_readiness_gate_cont.NodeReconciler.Isolation.{reconcile_others}
use node_readiness_gate_cont.NodeReconciler.Overwriting.{evaluate_cached_overwrites}
use node_readiness_gate_cont.History.{
  VisitsEntries, started, rule_reconciled, node_reconciled, IsReachable-IsNamed,
}
use node_readiness_gate_cont.NodeReconciler.Laws.{reconcile-dry_run}
use node_readiness_gate_cont.NodeReconciler
use node_readiness_gate_cont.RuleReconciler
use node_readiness_gate_cont.Examples.Memory.{memory}
use node_readiness_gate_cont.Examples.Memory.Stored.{memory_store}
use node_readiness_gate_cont.Examples.Cluster.{
  by_labels, workers, network, rule, deleted_rule, cluster, deleting, unlistable, held,
  switched_off, trying, dry_rule, down-ne-up, down_node, stored,
}

reconcile-cleans_or_keeps_example :
    let (outcome, st') = RuleReconciler.reconcile memory by_labels "network" held in
    ((k : String)
      → memory_store.node_at st'.world k
        ≡ cleaned?
            (λ n. rule_applies_to by_labels (some workers) n.labels)
            network
            (memory_store.node_at held.world k))
    ⊎ ((outcome.failure ≢ none)
        × (outcome.requeue_after ≡ 60)
        × (memory_store.rule_at st'.world ≡ memory_store.rule_at held.world)
        × (st'.cache ≡ held.cache))
unfolding contains_finalizer
reconcile-cleans_or_keeps_example =
    reconcile-cleans_or_keeps memory by_labels "network" held deleted_rule unlistable 90 refl refl
      refl memory_store

nothing-IsNamed : IsNamed []
unfolding lookup
nothing-IsNamed = record { distinct = tt; own = λ k r h. absurd (cc) }

one-IsNamed : IsNamed (("network", rule) ∷ [])
unfolding insert
one-IsNamed = insert-IsNamed "network" rule [] refl nothing-IsNamed

-- The order of the entries is the cache's own.
abbrev in_order : GoMap NodeReadinessGateRule → GoMap NodeReadinessGateRule
in_order m = m

reconcile-dry_run_example :
    let st' = (NodeReconciler.reconcile memory by_labels in_order "up" switched_off).1 in
    (st'.cache ≡ switched_off.cache)
    × (memory_store.node_at st'.world ≡ memory_store.node_at cluster)
    × (memory_store.rule_at st'.world ≡ memory_store.rule_at cluster)
reconcile-dry_run_example =
    reconcile-dry_run memory by_labels in_order memory_store "up" switched_off refl

in_order-VisitsEntries : VisitsEntries memory by_labels in_order
in_order-VisitsEntries P m h = h

abbrev first_pass : State memory
first_pass = (RuleReconciler.reconcile memory by_labels "network" (new_controller memory cluster)).1

IsReachable-IsNamed_example :
    IsNamed (NodeReconciler.reconcile memory by_labels in_order "up" first_pass).1.cache
IsReachable-IsNamed_example =
    IsReachable-IsNamed memory by_labels in_order in_order-VisitsEntries
      (node_reconciled "up" (rule_reconciled "network" (started cluster)))

reconcile_others_example :
    memory_store.node_at
      (NodeReconciler.reconcile memory by_labels in_order "up" deleting).1.world
      "down"
    ≡ memory_store.node_at deleting.world "down"
reconcile_others_example =
    reconcile_others memory memory_store by_labels in_order "up" "down" deleting down-ne-up

cached-selector_kept :
    (old : NodeReadinessGateRule)
    → get_cached_rule memory trying "network" ≡ some old
    → node_selector_changed (some workers) old.spec.node_selector ≡ false
unfolding get_cached_rule lookup node_selector_changed string_map_equal
cached-selector_kept old found =
    let same : rule ≡ old = cc in
    subst
      (λ (r : NodeReadinessGateRule).
        node_selector_changed (some workers) r.spec.node_selector ≡ false)
      same refl

reconcile-dry_run_nodes_example :
    memory_store.node_at (RuleReconciler.reconcile memory by_labels "network" trying).1.world
    ≡ memory_store.node_at trying.world
reconcile-dry_run_nodes_example =
    reconcile-dry_run_nodes memory by_labels memory_store "network" trying dry_rule trying.world
      refl refl refl cached-selector_kept

evaluate_cached_overwrites_example :
    (after : NodeReadinessGateRule) × (memory_store.rule_at
        (NodeReconciler.evaluate_cached memory "network" rule down_node stored).1.world
        "network"
      ≡ some after)
    × (after.status.applied_nodes ≡ [])
    × (after.status.observed_generation ≡ 0)
    × (after.status.dry_run_results ≡ none)
unfolding evaluate_and_record evaluate_rule_for_node evaluate_conditions get_condition_status
    has_taint_by_spec add_taint_by_spec remove_taint_by_spec update_node_evaluations
    update_rule_status
evaluate_cached_overwrites_example =
    evaluate_cached_overwrites memory memory_store "network" rule down_node stored refl
