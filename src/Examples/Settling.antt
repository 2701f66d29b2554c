-- ===== src/Examples/Settling.antt =====
-- The theorems on passes and reconciliations that come to rest, and on rules that never do.
use node_readiness_gate_cont.Prelude.{
  ◌≡◌, ◌≢◌, refl, subst, String, false, ◌==◌, arith, inr, Option, none, some, [], ◌∷◌, length,
  eq_iff,
}
use node_readiness_gate_cont.Prelude.GoMap.{lookup, insert}
use node_readiness_gate_cont.Core.{LabelSelector}
use node_readiness_gate_cont.Api.{NodeReadinessGateRule}
use node_readiness_gate_cont.Taints.{has_taint_by_spec}
use node_readiness_gate_cont.Conditions.{evaluate_conditions, get_condition_status}
use node_readiness_gate_cont.Status.{update_node_evaluations}
use node_readiness_gate_cont.Status.Bounds.{GrowsBy}
use node_readiness_gate_cont.Finalizers.{contains_finalizer}
use node_readiness_gate_cont.Selection.{rule_applies_to, node_selector_changed, string_map_equal}
use node_readiness_gate_cont.Evaluation.{
  evaluate_and_record, add_taint_by_spec, remove_taint_by_spec,
}
use node_readiness_gate_cont.AllNodes.{process_all_nodes_for_rule}
use node_readiness_gate_cont.AllNodes.Refinement.{IsRefined, process_all_nodes_for_rule-IsRefined}
use node_readiness_gate_cont.AllNodes.Bounds.{process_all_nodes_for_rule-GrowsBy}
use node_readiness_gate_cont.RuleStatus.{update_rule_status, cleanup_deleted_nodes}
use node_readiness_gate_cont.Controller.{State, get_cached_rule, update_rule_cache}
use node_readiness_gate_cont.RuleReconciler.{reconcile}
use node_readiness_gate_cont.RuleReconciler.Stable.{reconcile-stable}
use node_readiness_gate_cont.Webhook.{a_rule, validate_create}
use node_readiness_gate_cont.Webhook.Laws.{IsValidSpec}
use node_readiness_gate_cont.Webhook.Overlap.{admitted_rules_oppose}
use node_readiness_gate_cont.AllNodes.Quiet.{IsCalm}
use node_readiness_gate_cont.Examples.Memory.{memory}
use node_readiness_gate_cont.Examples.Memory.Stored.{memory_store}
use node_readiness_gate_cont.Examples.Cluster.{
  by_labels, workers, rule, cluster, state, spec, up_node,
}

process_all_nodes_for_rule-IsRefined_example :
    IsRefined memory by_labels "up" rule
      (process_all_nodes_for_rule memory by_labels rule cluster).1
      (memory_store.node_at cluster "up")
      (memory_store.node_at (process_all_nodes_for_rule memory by_labels rule cluster).2 "up")
unfolding process_all_nodes_for_rule
process_all_nodes_for_rule-IsRefined_example =
    process_all_nodes_for_rule-IsRefined memory by_labels memory_store rule cluster refl "up"

process_all_nodes_for_rule-GrowsBy_example :
    let (failure, rule', w') = process_all_nodes_for_rule memory by_labels rule cluster in
    GrowsBy (length rule'.status.applied_nodes) rule.status rule'.status
unfolding process_all_nodes_for_rule
process_all_nodes_for_rule-GrowsBy_example =
    process_all_nodes_for_rule-GrowsBy memory by_labels rule cluster refl

abbrev settled_state : State memory
settled_state = (reconcile memory by_labels "network" state).1

abbrev rule_or : NodeReadinessGateRule → Option NodeReadinessGateRule → NodeReadinessGateRule
rule_or default none = default
rule_or default (some r) = r

-- The rule that the reconciliation has stored.
abbrev settled_rule : NodeReadinessGateRule
settled_rule = rule_or rule settled_state.world.rule

settled-selector_kept :
    (old : NodeReadinessGateRule)
    → get_cached_rule memory settled_state "network" ≡ some old
    → node_selector_changed settled_rule.spec.node_selector old.spec.node_selector ≡ false
unfolding reconcile contains_finalizer get_cached_rule update_rule_cache lookup insert
    update_rule_status cleanup_deleted_nodes rule_applies_to evaluate_and_record
    remove_taint_by_spec add_taint_by_spec evaluate_conditions get_condition_status
    has_taint_by_spec update_node_evaluations process_all_nodes_for_rule node_selector_changed
    string_map_equal
settled-selector_kept old found =
    let same : rule ≡ old = cc in
    subst
      (λ (r : NodeReadinessGateRule).
        node_selector_changed (some workers) r.spec.node_selector ≡ false)
      same refl

reconcile-stable_example :
    memory_store.node_at (reconcile memory by_labels "network" settled_state).1.world
    ≡ memory_store.node_at settled_state.world
unfolding reconcile contains_finalizer get_cached_rule update_rule_cache lookup insert
    update_rule_status cleanup_deleted_nodes rule_applies_to evaluate_and_record
    remove_taint_by_spec add_taint_by_spec evaluate_conditions get_condition_status
    has_taint_by_spec update_node_evaluations process_all_nodes_for_rule
reconcile-stable_example =
    reconcile-stable memory by_labels memory_store "network" state rule settled_rule cluster
      settled_state.world refl refl refl refl refl refl (λ k. refl) settled-selector_kept

-- A rule for all nodes with the same taint, which waits for the storage.
abbrev every_node : LabelSelector
every_node = record { match_labels = []; match_expressions = [] }

abbrev storage_rule : NodeReadinessGateRule
storage_rule = record rule {
  name = "storage";
  spec = record spec {
    conditions = (record { kind = "StorageReady"; required_status = "True" }) ∷ [];
    node_selector = some every_node;
  };
}

text_ne : (s t : String) → (s == t) ≡ false → s ≢ t
text_ne s t h e = absurd (ground (arith, eq_iff s t))

storage_rule-IsValidSpec : IsValidSpec storage_rule.spec
storage_rule-IsValidSpec = record {
  some_condition = λ h. absurd (cc);
  conditions = ((text_ne "StorageReady" "" refl, text_ne "True" "" refl), tt);
  key = text_ne "readiness/network" "" refl;
  effect = text_ne "NoSchedule" "" refl;
  mode = inr refl;
}

admitted_rules_oppose_example :
    ((validate_create by_labels memory (a_rule storage_rule) cluster).0 ≡ none)
    × ¬ (IsCalm by_labels rule.spec up_node × IsCalm by_labels storage_rule.spec up_node)
unfolding rule_applies_to lookup get_condition_status
admitted_rules_oppose_example =
    admitted_rules_oppose by_labels memory rule storage_rule workers.match_labels [] cluster up_node
      refl storage_rule-IsValidSpec (refl, refl) ((workers, refl, refl), (every_node, refl, refl))
      (text_ne _ _ refl) (refl, refl) (refl, refl)
