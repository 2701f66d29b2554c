-- ===== src/Examples/Runs.antt =====
-- The theorems on the small cluster.
use node_readiness_gate_cont.Prelude.{
  ◌≡◌, refl, String, List, some, true, not, ◌&&◌, [], ◌∷◌, ◌+◌, ◌≤◌,
}
use node_readiness_gate_cont.Prelude.GoMap.{lookup, insert}
use node_readiness_gate_cont.Core.{Node}
use node_readiness_gate_cont.Api.{NodeReadinessGateRule, NodeEvaluation}
use node_readiness_gate_cont.Taints.{has_taint_by_spec}
use node_readiness_gate_cont.Conditions.{evaluate_conditions, get_condition_status}
use node_readiness_gate_cont.Status.{update_node_evaluations, keep_existing, existing_nodes}
use node_readiness_gate_cont.Finalizers.{contains_finalizer}
use node_readiness_gate_cont.Selection.{rule_applies_to}
use node_readiness_gate_cont.Bootstrap.{
  has_annotation, is_bootstrap_completed, mark_bootstrap_completed,
}
use node_readiness_gate_cont.Bootstrap.Laws.{
  OnlyAnnotates, is_bootstrap_completed-mark, mark_bootstrap_completed-OnlyAnnotates,
}
use node_readiness_gate_cont.Evaluation.{
  evaluate_rule_for_node, evaluate_and_record, add_taint_by_spec, remove_taint_by_spec,
}
use node_readiness_gate_cont.Evaluation.Laws.{Records, evaluate_rule_for_node-Records}
use node_readiness_gate_cont.Evaluation.Effect.{Settles, evaluate_rule_for_node-Settles}
use node_readiness_gate_cont.Evaluation.Failure.{has_failure, evaluate_and_record-has_failure_iff}
use node_readiness_gate_cont.Evaluation.Isolation.{OnlyNode, evaluate_and_record-OnlyNode}
use node_readiness_gate_cont.AllNodes.{process_all_nodes_for_rule}
use node_readiness_gate_cont.AllNodes.Laws.{IsPass, process_all_nodes_for_rule-IsPass}
use node_readiness_gate_cont.AllNodes.InLine.{IsInLine, process_all_nodes_for_rule-IsInLine}
use node_readiness_gate_cont.DryRun.{dry_run_results}
use node_readiness_gate_cont.DryRun.Laws.{dry_run_results_lem}
use node_readiness_gate_cont.Cleanup.{cleanup_taints_for_rule, cleanup_nodes_after_selector_change}
use node_readiness_gate_cont.Cleanup.Loop.{IsCleaned}
use node_readiness_gate_cont.Cleanup.Laws.{
  cleanup_taints_for_rule-IsCleaned, cleanup_nodes_after_selector_change-IsCleaned,
}
use node_readiness_gate_cont.RuleStatus.{update_rule_status, cleanup_deleted_nodes}
use node_readiness_gate_cont.RuleStatus.Laws.{IsStored, update_rule_status-IsStored}
use node_readiness_gate_cont.RuleStatus.Pruning.{OnlyPrunes, cleanup_deleted_nodes-OnlyPrunes}
use node_readiness_gate_cont.Controller.{get_cached_rule, update_rule_cache}
use node_readiness_gate_cont.RuleReconciler.{reconcile}
use node_readiness_gate_cont.RuleReconciler.Convergence.{IsUpheld, reconcile-IsUpheld}
use node_readiness_gate_cont.Examples.Memory.{Memory, memory}
use node_readiness_gate_cont.Examples.Memory.Stored.{memory_store}
use node_readiness_gate_cont.Examples.Cluster.{
  by_labels, network, workers, masters, up_node, marked_node, down_node, gone_node, spec, status,
  rule, masters_rule, applied_rule, cluster, state,
}

process_all_nodes_for_rule-IsInLine_example :
    ((k : String)
      → IsInLine memory by_labels k rule
          (process_all_nodes_for_rule memory by_labels rule cluster).1
          (memory_store.node_at (process_all_nodes_for_rule memory by_labels rule cluster).2 k))
    × (memory_store.rule_at (process_all_nodes_for_rule memory by_labels rule cluster).2
        ≡ memory_store.rule_at cluster)
unfolding process_all_nodes_for_rule
process_all_nodes_for_rule-IsInLine_example =
    process_all_nodes_for_rule-IsInLine memory by_labels memory_store rule cluster refl

reconcile-IsUpheld_example :
    IsUpheld memory by_labels memory_store "network" spec
      (reconcile memory by_labels "network" state).1.world
unfolding reconcile contains_finalizer get_cached_rule update_rule_cache lookup insert
    update_rule_status cleanup_deleted_nodes rule_applies_to evaluate_and_record
    remove_taint_by_spec add_taint_by_spec evaluate_conditions get_condition_status
    has_taint_by_spec update_node_evaluations process_all_nodes_for_rule
reconcile-IsUpheld_example =
    reconcile-IsUpheld memory by_labels memory_store "network" state rule cluster refl refl refl
      refl

evaluate_rule_for_node-Settles_example :
    Settles memory memory_store rule up_node cluster
      (evaluate_rule_for_node memory rule up_node cluster)
unfolding memory_store evaluate_rule_for_node remove_taint_by_spec evaluate_conditions
    get_condition_status has_taint_by_spec
evaluate_rule_for_node-Settles_example =
    evaluate_rule_for_node-Settles memory memory_store rule up_node cluster refl refl

evaluate_rule_for_node-Records_example :
    Records memory rule up_node (evaluate_rule_for_node memory rule up_node cluster)
evaluate_rule_for_node-Records_example = evaluate_rule_for_node-Records memory rule up_node cluster

evaluate_and_record-OnlyNode_example :
    OnlyNode memory memory_store "down" cluster
      (evaluate_and_record memory rule down_node cluster).world
unfolding memory_store
evaluate_and_record-OnlyNode_example =
    evaluate_and_record-OnlyNode memory memory_store rule down_node cluster

evaluate_and_record-has_failure_iff_example :
    has_failure "gone" (evaluate_and_record memory rule gone_node cluster).rule ≡ true
unfolding evaluate_and_record evaluate_rule_for_node add_taint_by_spec evaluate_conditions
    get_condition_status has_taint_by_spec
evaluate_and_record-has_failure_iff_example =
    evaluate_and_record-has_failure_iff memory "gone" rule gone_node cluster

process_all_nodes_for_rule-IsPass_example :
    IsPass memory by_labels rule
      (memory.list_nodes cluster)
      (process_all_nodes_for_rule memory by_labels rule cluster)
process_all_nodes_for_rule-IsPass_example =
    process_all_nodes_for_rule-IsPass memory by_labels rule cluster

cleanup_taints_for_rule-IsCleaned_example :
    IsCleaned memory memory_store
      (λ n. rule_applies_to by_labels (some workers) n.labels)
      network
      cluster
      (cleanup_taints_for_rule memory by_labels rule cluster).1
unfolding cleanup_taints_for_rule rule_applies_to has_taint_by_spec remove_taint_by_spec lookup
cleanup_taints_for_rule-IsCleaned_example =
    cleanup_taints_for_rule-IsCleaned memory by_labels memory_store rule cluster refl

cleanup_nodes_after_selector_change-IsCleaned_example :
    IsCleaned memory memory_store
      (λ n.
        rule_applies_to by_labels (some workers) n.labels
        && not (rule_applies_to by_labels (some masters) n.labels))
      network
      cluster
      (cleanup_nodes_after_selector_change memory by_labels rule masters_rule cluster).1
unfolding cleanup_nodes_after_selector_change rule_applies_to has_taint_by_spec remove_taint_by_spec
    lookup
cleanup_nodes_after_selector_change-IsCleaned_example =
    cleanup_nodes_after_selector_change-IsCleaned memory by_labels memory_store rule masters_rule
      cluster refl

update_rule_status-IsStored_example :
    IsStored memory memory_store applied_rule cluster
      (update_rule_status memory applied_rule cluster).1
    × (memory_store.node_at (update_rule_status memory applied_rule cluster).1
        ≡ memory_store.node_at cluster)
unfolding update_rule_status
update_rule_status-IsStored_example =
    update_rule_status-IsStored memory memory_store applied_rule cluster refl

-- The evaluations of a node that is there and of one that is gone.
abbrev evaluations : List NodeEvaluation
evaluations =
    record {
      node_name = "up";
      condition_results = [];
      taint_status = "Present";
      last_evaluated = 1;
    }
    ∷ record {
      node_name = "gone";
      condition_results = [];
      taint_status = "Absent";
      last_evaluated = 1;
    }
    ∷ []

abbrev evaluated_rule : NodeReadinessGateRule
evaluated_rule = record rule { status = record status { node_evaluations = evaluations } }

abbrev shrunk : Memory
shrunk = record cluster { rule = some evaluated_rule }

cleanup_deleted_nodes-OnlyPrunes_example :
    ((after : NodeReadinessGateRule) × (memory_store.rule_at
          (cleanup_deleted_nodes memory evaluated_rule shrunk).1
          "network"
        ≡ some after)
      × OnlyPrunes (memory_store.node_at shrunk) evaluations evaluated_rule after)
    × (memory_store.node_at (cleanup_deleted_nodes memory evaluated_rule shrunk).1
        ≡ memory_store.node_at shrunk)
unfolding cleanup_deleted_nodes memory_store keep_existing existing_nodes lookup insert
cleanup_deleted_nodes-OnlyPrunes_example =
    cleanup_deleted_nodes-OnlyPrunes memory memory_store evaluated_rule shrunk evaluated_rule refl
      refl

-- The node without its taint, in a cluster that has lost the other node since.
abbrev healthy_node : Node
healthy_node = record marked_node { taints = [] }

abbrev later : Memory
later = record { nodes = healthy_node ∷ []; rule = some rule; time = 200 }

is_bootstrap_completed-mark_example : (is_bootstrap_completed memory "up" "network" later).0 ≡ true
unfolding mark_bootstrap_completed has_annotation lookup insert memory_store
is_bootstrap_completed-mark_example =
    is_bootstrap_completed-mark memory memory_store "up" "network" cluster later healthy_node later
      refl (λ h. refl) refl

mark_bootstrap_completed-OnlyAnnotates_example :
    OnlyAnnotates memory memory_store "up" cluster
      (mark_bootstrap_completed memory "up" "network" cluster)
mark_bootstrap_completed-OnlyAnnotates_example =
    mark_bootstrap_completed-OnlyAnnotates memory memory_store "up" "network" cluster

dry_run_results_lem_example :
    let r = dry_run_results by_labels spec (up_node ∷ down_node ∷ []) in
    (r.affected_nodes ≡ 2)
    × (r.taints_to_add ≡ 1)
    × (r.taints_to_remove ≡ 1)
    × (r.risky_operations ≡ 0)
    × (r.taints_to_add + r.taints_to_remove ≤ r.affected_nodes)
unfolding rule_applies_to get_condition_status has_taint_by_spec lookup
dry_run_results_lem_example = dry_run_results_lem by_labels rule (up_node ∷ down_node ∷ [])
