-- ===== src/Examples/Copying.antt =====
-- The theorem on deep copies.
use node_readiness_gate_cont.Prelude.{refl, ap, true, false, [], ◌∷◌, none, some, arith}
use node_readiness_gate_cont.Api.{ConditionEvaluationResult, continuous}
use node_readiness_gate_cont.Finalizers.{finalizer_name}
use node_readiness_gate_cont.DeepCopy.{assign, copy_pointed, copy_each, deep_copy_rule}
use node_readiness_gate_cont.DeepCopy.Copiers.{
  IsCopier, both-IsCopier, each-IsCopier, pointed-IsCopier,
}
use node_readiness_gate_cont.DeepCopy.Types.{
  IsCopying, meta_of, expression_of, selector_of, meta_shape, expression_shape, selector_shape,
  slice-IsCopier,
}
use node_readiness_gate_cont.DeepCopy.Objects.{
  Address, Kind, Cell, Heap, write, MetaCopies, ObjectMeta, SelectorObject, ExpressionObject,
  time_kind, labels_kind, expressions_kind, EvaluationObject, requirements_kind, conditions_kind,
  texts_kind, evaluations_kind, results_kind, failures_kind, selector_kind, duration_kind,
  result_kind, requirement_kind, evaluation_kind, failure_kind, rule_list_kind, spec_kind,
  status_kind, taint_kind, SpecObject, StatusObject, dry_run_kind, rules_kind, rule_kind,
}
use node_readiness_gate_cont.DeepCopy.Laws.{
  rule_pointer, IsIndependent, deep_copy_rule-IsIndependent,
}
use node_readiness_gate_cont.Examples.Cluster.{workers, network}

abbrev a_result : ConditionEvaluationResult
a_result = record {
  kind = "NetworkReady";
  current_status = "True";
  required_status = "True";
  satisfied = true;
  missing = false;
}

abbrev an_evaluation : EvaluationObject
an_evaluation = record {
  node_name = "up";
  condition_results = some 0;
  taint_status = "Absent";
  last_evaluated = 3;
}

abbrev a_spec : SpecObject
a_spec = record {
  conditions = none;
  enforcement_mode = continuous;
  taint = network;
  node_selector = some 4;
  grace_period = none;
  dry_run = false;
}

abbrev a_status : StatusObject
a_status = record {
  observed_generation = 1;
  conditions = none;
  applied_nodes = none;
  node_evaluations = some 1;
  failed_nodes = none;
  dry_run_results = none;
}

-- A rule in memory with a finalizer and a selector, whose status has one evaluation with one
-- result, and otherwise nil.
abbrev blank : (k : Kind) → Address → Cell k
blank results_kind a = []
blank requirements_kind a = []
blank conditions_kind a = []
blank texts_kind a = finalizer_name ∷ []
blank evaluations_kind a = []
blank failures_kind a = []
blank rules_kind a = []
blank selector_kind a = record { match_labels = some 5; match_expressions = none }
blank duration_kind a = 0
blank dry_run_kind a = record {
  affected_nodes = 0;
  taints_to_add = 0;
  taints_to_remove = 0;
  risky_operations = 0;
  summary = "";
}
blank result_kind a = a_result
blank requirement_kind a = record { kind = ""; required_status = "" }
blank evaluation_kind a = an_evaluation
blank failure_kind a = record { node_name = ""; reason = ""; message = ""; last_updated = 0 }
blank rule_list_kind a = record { items = none }
blank spec_kind a = a_spec
blank status_kind a = a_status
blank taint_kind a = network
blank time_kind a = 0
blank labels_kind a = workers.match_labels
blank expressions_kind a = []
blank rule_kind a = record {
  meta = record {
    name = "network";
    generation = 1;
    resource_version = "7";
    finalizers = some 3;
    deletion_timestamp = none;
  };
  spec = a_spec;
  status = a_status;
}

abbrev heap : Heap
heap =
    write evaluations_kind 1 (an_evaluation ∷ [])
      (write results_kind 0 (a_result ∷ []) (record { next = 6; at = blank }))

-- Deep copies of the types of apimachinery.
copy_meta : ObjectMeta → Heap → ObjectMeta × Heap
unfolding copy_pointed assign
copy_meta x h =
    let (finalizers, h') = copy_pointed texts_kind assign x.finalizers h in
    let (deletion, h'') = copy_pointed time_kind assign x.deletion_timestamp h' in
    (record x { finalizers = finalizers; deletion_timestamp = deletion }, h'')

copy_expression : ExpressionObject → Heap → ExpressionObject × Heap
unfolding copy_pointed assign
copy_expression e h =
    let (values, h') = copy_pointed texts_kind assign e.values h in
    (record e { values = values }, h')

copy_selector : SelectorObject → Heap → SelectorObject × Heap
unfolding copy_pointed assign copy_each copy_expression
copy_selector s h =
    let (labels, h') = copy_pointed labels_kind assign s.match_labels h in
    let (expressions, h'') =
      copy_pointed expressions_kind (copy_each copy_expression) s.match_expressions h' in
    (record s { match_labels = labels; match_expressions = expressions }, h'')

abbrev copies : MetaCopies
copies = record {
  copy_meta = copy_meta;
  copy_selector = copy_selector;
  copy_time = λ x. x;
  copy_condition = λ x. x;
}

copy_meta-IsCopier : IsCopier meta_shape copy_meta
unfolding copy_meta
copy_meta-IsCopier x h i =
    let c =
      both-IsCopier _ _ _ _ (slice-IsCopier texts_kind) (slice-IsCopier time_kind)
        (x.finalizers, x.deletion_timestamp) h i in
    record { extends = c.extends; fresh = c.fresh; same = ap (meta_of x) c.same }

copy_expression-IsCopier : IsCopier expression_shape copy_expression
unfolding copy_expression
copy_expression-IsCopier e h i =
    let c = slice-IsCopier texts_kind e.values h i in
    record { extends = c.extends; fresh = c.fresh; same = ap (expression_of e) c.same }

copy_selector-IsCopier : IsCopier selector_shape copy_selector
unfolding copy_selector
copy_selector-IsCopier s h i =
    let c =
      both-IsCopier _ _ _ _ (slice-IsCopier labels_kind)
        (pointed-IsCopier expressions_kind _ _
          (each-IsCopier expression_shape copy_expression copy_expression-IsCopier))
        (s.match_labels, s.match_expressions) h i in
    record { extends = c.extends; fresh = c.fresh; same = ap selector_of c.same }

copies-IsCopying : IsCopying copies
copies-IsCopying = record {
  meta_copies = copy_meta-IsCopier;
  selector_copies = copy_selector-IsCopier;
  time_same = λ x. refl;
  condition_same = λ x. refl;
}

deep_copy_rule-IsIndependent_example :
    IsIndependent rule_pointer heap (some 2) (deep_copy_rule copies (some 2) heap)
unfolding write
deep_copy_rule-IsIndependent_example =
    deep_copy_rule-IsIndependent copies copies-IsCopying (some 2) heap (
      omega arith,
      (
        ((omega arith, tt), tt),
        (
          (tt, ((omega arith, ((omega arith, tt), tt)), tt)),
          (tt, (tt, ((omega arith, ((omega arith, tt), tt)), (tt, tt)))),
        ),
      ),
    )
