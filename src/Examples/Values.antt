-- ===== src/Examples/Values.antt =====
-- The theorems on single rules, nodes and maps.
use mathlib.Core.List.{Memᴰ}
use mathlib.Core.Bool.{false≢true}
use node_readiness_gate_cont.Prelude.{
  ◌≡◌, ◌≢◌, refl, ◌↔◌, String, none, true, false, [], ◌∷◌, ok, eq_iff,
}
use node_readiness_gate_cont.Prelude.GoMap.{GoMap, lookup, insert}
use node_readiness_gate_cont.Api.{NodeEvaluation}
use node_readiness_gate_cont.Taints.{has_taint_by_spec}
use node_readiness_gate_cont.Conditions.{evaluate_conditions}
use node_readiness_gate_cont.Status.{keep_existing, existing_nodes}
use node_readiness_gate_cont.Status.Laws.{evaluation_of, keep_existing_lem}
use node_readiness_gate_cont.Selection.{rule_applies_to, string_map_equal}
use node_readiness_gate_cont.Selection.Laws.{string_map_equal_of_empty}
use node_readiness_gate_cont.Events.{should_reconcile, taints_equal, labels_equal}
use node_readiness_gate_cont.Events.Taints.{AreClear, taints_equal_collision}
use node_readiness_gate_cont.Events.Laws.{
  IsComparable, should_reconcile_sound, labels_equal_of_empty,
}
use node_readiness_gate_cont.Webhook.{validate_spec, a_rule, validate_create, validate_update}
use node_readiness_gate_cont.Webhook.Laws.{
  IsValidSpec, IsAdmissible, validate_spec_iff, validate-admits_iff,
}
use node_readiness_gate_cont.Webhook.Admission.{start, next, created, IsSound, Reached-IsSound}
use node_readiness_gate_cont.Examples.Memory.{Memory, memory}
use node_readiness_gate_cont.Examples.Cluster.{
  by_labels, by_labels_lawful, up_node, marked_node, spec, rule, masters_rule, cluster,
}

validate_spec_iff_example : (validate_spec spec ≡ []) ↔ IsValidSpec spec
validate_spec_iff_example = validate_spec_iff spec

validate-admits_iff_example :
    (((validate_create by_labels memory (a_rule masters_rule) cluster).0 ≡ none)
      ↔ IsAdmissible by_labels memory false masters_rule (ok (rule ∷ [])))
    × (((validate_update by_labels memory (a_rule rule) (a_rule masters_rule) cluster).0 ≡ none)
        ↔ IsAdmissible by_labels memory true masters_rule (ok (rule ∷ [])))
validate-admits_iff_example =
    validate-admits_iff by_labels memory (a_rule rule) masters_rule cluster

abbrev no_rules : Memory
no_rules = record { nodes = []; rule = none; time = 0 }

first_admitted : (validate_create by_labels memory (a_rule rule) no_rules).0 ≡ none
unfolding validate_create
first_admitted = refl

Reached-IsSound_example : IsSound by_labels (rule ∷ [])
Reached-IsSound_example =
    Reached-IsSound by_labels memory (next start (created rule no_rules refl tt first_admitted))

abbrev an_evaluation : NodeEvaluation
an_evaluation = record {
  node_name = "gone";
  condition_results = [];
  taint_status = "Absent";
  last_evaluated = 3;
}

keep_existing_lem_example :
    evaluation_of "gone" (keep_existing (existing_nodes (up_node ∷ [])) (an_evaluation ∷ [])) ≡ none
keep_existing_lem_example = keep_existing_lem "gone" (up_node ∷ []) (an_evaluation ∷ [])

abbrev gpu_label : GoMap String
gpu_label = ("gpu", "") ∷ []

abbrev cpu_label : GoMap String
cpu_label = ("cpu", "4") ∷ []

abbrev gpu : String
gpu = "gpu"

gpu-ne-cpu : gpu ≢ "cpu"
gpu-ne-cpu e = false≢true ((eq_iff gpu "cpu").1 e)

string_map_equal_of_empty_example :
    (string_map_equal gpu_label cpu_label ≡ true)
    × (lookup "cpu" gpu_label ≢ lookup "cpu" cpu_label)
unfolding lookup
string_map_equal_of_empty_example =
    string_map_equal_of_empty "gpu" "cpu" "4" [] (refl, tt) (refl, tt) gpu-ne-cpu

labels_equal_of_empty_example :
    (labels_equal gpu_label cpu_label ≡ true) × (lookup "cpu" gpu_label ≢ lookup "cpu" cpu_label)
unfolding lookup
labels_equal_of_empty_example =
    labels_equal_of_empty "gpu" "cpu" "4" [] (refl, tt) (refl, tt) gpu-ne-cpu

taints_equal_collision_example :
    taints_equal
      (record { key = "gpuPrefer"; value = "x"; effect = "NoSchedule" } ∷ [])
      (record { key = "gpu"; value = "x"; effect = "PreferNoSchedule" } ∷ [])
    ≡ true
taints_equal_collision_example = taints_equal_collision "gpu" "x"

up_taints-AreClear : AreClear up_node.taints up_node.taints
up_taints-AreClear s t (Memᴰ.head a) (Memᴰ.head b) q = (cc, cc)
up_taints-AreClear s t (Memᴰ.head a) (Memᴰ.tail m) q = elim m [ ]
up_taints-AreClear s t (Memᴰ.tail m) b q = elim m [ ]

up-marked-IsComparable : IsComparable up_node marked_node
unfolding lookup
up-marked-IsComparable = record {
  old_conditions = (refl, tt);
  new_conditions = (refl, tt);
  old_taints = (refl, tt);
  new_taints = (refl, tt);
  clear = up_taints-AreClear;
  old_labels = (refl, tt);
  new_labels = (refl, tt);
  keeps = ((λ e q. cc), tt);
}

should_reconcile_sound_example :
    (rule_applies_to by_labels spec.node_selector up_node.labels
      ≡ rule_applies_to by_labels spec.node_selector marked_node.labels)
    × (evaluate_conditions up_node.conditions spec.conditions
        ≡ evaluate_conditions marked_node.conditions spec.conditions)
    × (has_taint_by_spec up_node.taints spec.taint
        ≡ has_taint_by_spec marked_node.taints spec.taint)
unfolding should_reconcile lookup insert
should_reconcile_sound_example =
    should_reconcile_sound by_labels up_node marked_node spec by_labels_lawful
      up-marked-IsComparable refl
