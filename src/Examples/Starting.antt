-- ===== src/Examples/Starting.antt =====
-- The theorems on the start of the program and on its watches.
use node_readiness_gate_cont.Prelude.{
  ◌≡◌, ◌⊎◌, refl, String, Bool, true, false, List, [], ◌∷◌, Option, none, some, any, arith,
  if◌then◌else◌,
}
use node_readiness_gate_cont.Prelude.GoMap.{GoMap, lookup}
use node_readiness_gate_cont.Api.{NodeReadinessGateRule}
use node_readiness_gate_cont.Setup.{
  Event, created, updated, deleted, generic, TypedFuncs, Watching, IsWatching, Runtime, Call, start,
}
use node_readiness_gate_cont.Main.{default_flags, returned, main}
use node_readiness_gate_cont.Main.Laws.{required_calls, logging, calls_made, is_start, main-starts}
use node_readiness_gate_cont.Main.Watches.{node_passes, rule_passes, every_node_event_passes}
use node_readiness_gate_cont.Main.Requeue.{finished, node_run, Runs-rule_passes}
use node_readiness_gate_cont.Taints.{has_taint_by_spec}
use node_readiness_gate_cont.Controller.{State, get_applicable_rules_for_node}
use node_readiness_gate_cont.Bootstrap.{has_annotation, is_bootstrap_completed}
use node_readiness_gate_cont.Conditions.{evaluate_conditions, get_condition_status}
use node_readiness_gate_cont.Evaluation.{
  evaluate_and_record, add_taint_by_spec, remove_taint_by_spec,
}
use node_readiness_gate_cont.Selection.{rule_applies_to}
use node_readiness_gate_cont.RuleStatus.{update_rule_status}
use node_readiness_gate_cont.Core.{Node}
use node_readiness_gate_cont.NodeReconciler
use node_readiness_gate_cont.NodeReconciler.Stepping.{HasFailedAt}
use node_readiness_gate_cont.NodeReconciler.Convergence.{AreSettled, node_run-AreSettled}
use node_readiness_gate_cont.Examples.Memory.{memory}
use node_readiness_gate_cont.Examples.Memory.Stored.{memory_store}
use node_readiness_gate_cont.Examples.Cluster.{by_labels, up_node, rule, state, cluster}

-- Libraries of which only the start of the manager fails, as it does without a server.
abbrev fails : Call → Option String
fails start = some "no server"
fails call = none

abbrev offline : Runtime
offline = record { World = Unit {0}; Err = String; perform = λ call w. (fails call, w) }

main-starts_example :
    (any is_start (calls_made offline default_flags tt) ≡ true
      → calls_made offline default_flags tt ≡ required_calls default_flags)
    × ((main (logging offline) default_flags (tt, [])).0 ≡ returned
        → calls_made offline default_flags tt ≡ required_calls default_flags)
main-starts_example = main-starts offline default_flags tt

starts : any is_start (calls_made offline default_flags tt) ≡ true
unfolding main
starts = refl

-- The predicates as controller-runtime applies them.
abbrev allowed : {A : Type 0} → TypedFuncs A → Event A → Bool
allowed f (created x) = elim f.create_func [ none ↦ true | some g ↦ g x ]
allowed f (updated old new) = elim f.update_func [ none ↦ true | some g ↦ g old new ]
allowed f (deleted x) = elim f.delete_func [ none ↦ true | some g ↦ g x ]
allowed f (generic x) = elim f.generic_func [ none ↦ true | some g ↦ g x ]

abbrev all_allow : {A : Type 0} → List (TypedFuncs A) → Event A → Bool
all_allow [] e = true
all_allow (f ∷ fs) e = if allowed f e then all_allow fs e else false

abbrev watching : Watching
watching = record { passes = all_allow }

watching-IsWatching : IsWatching watching
watching-IsWatching = record {
  passes_all = λ e. refl;
  passes_update = λ f g old new h. rw h (ground arith);
  passes_create = λ f x h. rw h refl;
  passes_delete = λ f x h. rw h refl;
}

-- An update of a node that changes nothing.
every_node_event_passes_example :
    any (node_passes watching (updated up_node up_node)) (calls_made offline default_flags tt)
    ≡ true
every_node_event_passes_example =
    every_node_event_passes watching watching-IsWatching offline default_flags tt starts
      (updated up_node up_node)

abbrev in_order : GoMap NodeReadinessGateRule → GoMap NodeReadinessGateRule
in_order m = m

-- The rule has been cached, and its status is not stored yet.
abbrev cached_state : State memory
cached_state = record state { cache = ("network", rule) ∷ [] }

abbrev run_state : State memory
run_state = (NodeReconciler.reconcile memory by_labels in_order "up" cached_state).1

abbrev kept_rule : Option NodeReadinessGateRule → NodeReadinessGateRule
kept_rule none = rule
kept_rule (some r) = r

-- The rule that is stored after the run.
abbrev run_rule : NodeReadinessGateRule
run_rule = kept_rule run_state.world.rule

Runs-rule_passes_example :
    (old : NodeReadinessGateRule) × (memory_store.rule_at cached_state.world "network" ≡ some old)
    × (any (rule_passes watching (updated old run_rule)) (calls_made offline default_flags tt)
        ≡ false)
unfolding memory_store NodeReconciler.reconcile update_rule_status rule_applies_to
    evaluate_and_record evaluate_conditions get_condition_status has_taint_by_spec
    remove_taint_by_spec add_taint_by_spec has_annotation is_bootstrap_completed
    NodeReconciler.process_rule NodeReconciler.process_rules NodeReconciler.evaluate_cached
    get_applicable_rules_for_node NodeReconciler.process_node_against_all_rules lookup
Runs-rule_passes_example =
    Runs-rule_passes memory by_labels in_order memory_store watching watching-IsWatching offline
      default_flags tt cached_state run_state starts (node_run "up" finished) "network" run_rule
      refl

-- The network of the node is up, and the rule is the only one.
node_run-AreSettled_example :
    ((key : String) × HasFailedAt memory memory_store "up" key run_state)
    ⊎ ((n : Node) × (memory_store.node_at run_state.world "up" ≡ some n)
        × AreSettled memory memory_store (("network", rule) ∷ []) n)
unfolding get_applicable_rules_for_node rule_applies_to lookup
node_run-AreSettled_example =
    node_run-AreSettled memory memory_store by_labels in_order "up" cached_state up_node cluster
      refl refl (tt, tt)
