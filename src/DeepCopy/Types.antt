-- ===== src/DeepCopy/Types.antt =====
-- The deep copies of the resource types (api/v1alpha1/zz_generated.deepcopy.go): the copy of each
-- type against its original.
use node_readiness_gate_cont.Prelude.{ℕ, ◌≡◌, String, refl, ap, List, [], Option, none, some}
use node_readiness_gate_cont.Prelude.GoMap.{GoMap}
use node_readiness_gate_cont.Core.{Time, LabelSelector, LabelSelectorRequirement, StatusCondition}
use node_readiness_gate_cont.Api.{
  ConditionEvaluationResult, ConditionRequirement, DryRunResults, NodeEvaluation, NodeFailure,
  NodeReadinessGateRuleSpec, NodeReadinessGateRuleStatus, NodeReadinessGateRule,
}
use node_readiness_gate_cont.DeepCopy.Objects.{
  Kind, Cell, MetaCopies, ObjectMeta, SelectorObject, ExpressionObject, time_kind, labels_kind,
  expressions_kind, EvaluationObject, SpecObject, StatusObject, RuleObject, RuleListObject,
  rules_kind, requirements_kind, conditions_kind, texts_kind, evaluations_kind, results_kind,
  failures_kind, selector_kind, duration_kind, dry_run_kind,
}
use node_readiness_gate_cont.DeepCopy.{
  assign, copy_pointed, copy_node_evaluation, copy_node_failure, copy_condition, copy_spec,
  copy_status, copy_rule, copy_items, copy_rule_list,
}
use node_readiness_gate_cont.DeepCopy.Shapes.{Shape, plain, both, parts, each, pointed}
use node_readiness_gate_cont.DeepCopy.Copiers.{
  IsCopier, plain-IsCopier, both-IsCopier, each-IsCopier, pointed-IsCopier,
}

-- The elements of a slice; nil has none.
abbrev pub elements : {A : Type 0} → Option (List A) → List A
elements none = []
elements (some xs) = xs

-- The values that the objects stand for, from the values of their slices and pointers.
abbrev pub evaluation_of :
    EvaluationObject → Option (List ConditionEvaluationResult) → NodeEvaluation
evaluation_of e v = record {
  node_name = e.node_name;
  condition_results = elements v;
  taint_status = e.taint_status;
  last_evaluated = e.last_evaluated;
}

abbrev pub spec_of :
    SpecObject
    → Option (List ConditionRequirement) × (Option LabelSelector × Option Time)
    → NodeReadinessGateRuleSpec
spec_of s (conditions, (selector, period)) = record {
  conditions = elements conditions;
  enforcement_mode = s.enforcement_mode;
  taint = s.taint;
  node_selector = selector;
  grace_period = period;
  dry_run = s.dry_run;
}

abbrev pub status_of :
    StatusObject
    → Option (List StatusCondition)
      × (Option (List String)
          × (Option (List NodeEvaluation) × (Option (List NodeFailure) × Option DryRunResults)))
    → NodeReadinessGateRuleStatus
status_of s (conditions, (applied, (evaluations, (failures, dry_run)))) = record {
  observed_generation = s.observed_generation;
  conditions = elements conditions;
  applied_nodes = elements applied;
  node_evaluations = elements evaluations;
  failed_nodes = elements failures;
  dry_run_results = dry_run;
}

-- What the metadata of an object stands for.
pub record Metadata : Type 0 where
  pub name : String
  pub generation : ℕ
  pub resource_version : String
  pub finalizers : List String
  pub deletion_timestamp : Option Time

abbrev pub meta_of : ObjectMeta → Option (List String) × Option Time → Metadata
meta_of x (finalizers, deletion) = record {
  name = x.name;
  generation = x.generation;
  resource_version = x.resource_version;
  finalizers = elements finalizers;
  deletion_timestamp = deletion;
}

abbrev pub expression_of : ExpressionObject → Option (List String) → LabelSelectorRequirement
expression_of e v = record { key = e.key; operator = e.operator; values = elements v }

abbrev pub selector_of :
    Option (GoMap String) × Option (List LabelSelectorRequirement) → LabelSelector
selector_of (labels, expressions) = record {
  match_labels = elements labels;
  match_expressions = elements expressions;
}

abbrev pub rule_of :
    Metadata × (NodeReadinessGateRuleSpec × NodeReadinessGateRuleStatus) → NodeReadinessGateRule
rule_of (meta, (spec, status)) = record {
  name = meta.name;
  generation = meta.generation;
  resource_version = meta.resource_version;
  finalizers = meta.finalizers;
  deletion_timestamp = meta.deletion_timestamp;
  spec = spec;
  status = status;
}

abbrev pub evaluation_shape : Shape EvaluationObject NodeEvaluation
evaluation_shape =
    parts (λ e. e.condition_results) evaluation_of
      (pointed results_kind (plain (List ConditionEvaluationResult)))

abbrev pub meta_shape : Shape ObjectMeta Metadata
meta_shape =
    parts (λ x. (x.finalizers, x.deletion_timestamp)) meta_of
      (both (pointed texts_kind (plain (List String))) (pointed time_kind (plain Time)))

abbrev pub expression_shape : Shape ExpressionObject LabelSelectorRequirement
expression_shape = parts (λ e. e.values) expression_of (pointed texts_kind (plain (List String)))

abbrev pub selector_shape : Shape SelectorObject LabelSelector
selector_shape =
    parts (λ s. (s.match_labels, s.match_expressions)) (λ s. selector_of)
      (both (pointed labels_kind (plain (GoMap String)))
        (pointed expressions_kind (each expression_shape)))

abbrev pub spec_shape : Shape SpecObject NodeReadinessGateRuleSpec
spec_shape =
    parts (λ s. (s.conditions, (s.node_selector, s.grace_period))) spec_of
      (both (pointed requirements_kind (plain (List ConditionRequirement)))
        (both (pointed selector_kind selector_shape) (pointed duration_kind (plain Time))))

abbrev pub status_shape : Shape StatusObject NodeReadinessGateRuleStatus
status_shape =
    parts
      (λ s. (
        s.conditions,
        (s.applied_nodes, (s.node_evaluations, (s.failed_nodes, s.dry_run_results))),
      ))
      status_of
      (both (pointed conditions_kind (each (plain StatusCondition))) (
        both (pointed texts_kind (plain (List String))) (
          both (pointed evaluations_kind (each evaluation_shape)) (
            both (pointed failures_kind (each (plain NodeFailure)))
              (pointed dry_run_kind (plain DryRunResults))))))

-- The rule that the object stands for.
abbrev pub rule_shape : Shape RuleObject NodeReadinessGateRule
rule_shape =
    parts (λ r. (r.meta, (r.spec, r.status))) (λ r. rule_of)
      (both meta_shape (both spec_shape status_shape))

-- The rules of a list.
abbrev pub rule_list_shape : Shape RuleListObject (List NodeReadinessGateRule)
rule_list_shape = parts (λ l. l.items) (λ l v. elements v) (pointed rules_kind (each rule_shape))

-- The deep copies of apimachinery copy: what they give stands for what they were given, and those
-- of the types that reach the heap reach new addresses only and change nothing that was there.
pub record IsCopying (m : MetaCopies) : Type 0 where
  pub meta_copies : IsCopier meta_shape m.copy_meta
  pub selector_copies : IsCopier selector_shape m.copy_selector
  pub time_same : (x : Time) → m.copy_time x ≡ x
  pub condition_same : (x : StatusCondition) → m.copy_condition x ≡ x

assign-IsCopier : (A : Type 0) → IsCopier (plain A) assign
unfolding assign
assign-IsCopier A = plain-IsCopier (λ x. x) (λ x. refl)

pub slice-IsCopier : (k : Kind) → IsCopier (pointed k (plain (Cell k))) (copy_pointed k assign)
slice-IsCopier k = pointed-IsCopier k (plain (Cell k)) assign (assign-IsCopier (Cell k))

module _ (m : MetaCopies) (l : IsCopying m) where
  copy_node_evaluation-IsCopier : IsCopier evaluation_shape (copy_node_evaluation m)
  unfolding copy_node_evaluation
  copy_node_evaluation-IsCopier e h i =
      let c = slice-IsCopier results_kind e.condition_results h i in
      record {
        extends = c.extends;
        fresh = c.fresh;
        same = rw (l.time_same e.last_evaluated) (ap (evaluation_of e) c.same);
      }

  copy_node_failure-IsCopier : IsCopier (plain NodeFailure) (copy_node_failure m)
  unfolding copy_node_failure
  copy_node_failure-IsCopier =
      plain-IsCopier (λ f. record f { last_updated = m.copy_time f.last_updated })
        (λ f. rw (l.time_same f.last_updated))

  copy_condition-IsCopier : IsCopier (plain StatusCondition) (copy_condition m)
  unfolding copy_condition
  copy_condition-IsCopier = plain-IsCopier m.copy_condition l.condition_same

  copy_spec-IsCopier : IsCopier spec_shape (copy_spec m)
  unfolding copy_spec
  copy_spec-IsCopier s h i =
      let c =
        both-IsCopier _ _ _ _ (slice-IsCopier requirements_kind)
          (both-IsCopier _ _ _ _
            (pointed-IsCopier selector_kind selector_shape m.copy_selector l.selector_copies)
            (slice-IsCopier duration_kind))
          (s.conditions, (s.node_selector, s.grace_period)) h i in
      record { extends = c.extends; fresh = c.fresh; same = ap (spec_of s) c.same }

  copy_status-IsCopier : IsCopier status_shape (copy_status m)
  unfolding copy_status
  copy_status-IsCopier s h i =
      let c =
        both-IsCopier _ _ _ _
          (pointed-IsCopier conditions_kind _ _ (each-IsCopier _ _ copy_condition-IsCopier))
          (both-IsCopier _ _ _ _ (slice-IsCopier texts_kind) (
            both-IsCopier _ _ _ _
              (pointed-IsCopier evaluations_kind _ _
                (each-IsCopier evaluation_shape _ copy_node_evaluation-IsCopier))
              (both-IsCopier _ _ _ _
                (pointed-IsCopier failures_kind _ _ (each-IsCopier _ _ copy_node_failure-IsCopier))
                (slice-IsCopier dry_run_kind))))
          (
            s.conditions,
            (s.applied_nodes, (s.node_evaluations, (s.failed_nodes, s.dry_run_results))),
          )
          h i in
      record { extends = c.extends; fresh = c.fresh; same = ap (status_of s) c.same }

  pub copy_rule-IsCopier : IsCopier rule_shape (copy_rule m)
  unfolding copy_rule
  copy_rule-IsCopier r h i =
      let c =
        both-IsCopier _ _ _ _ l.meta_copies
          (both-IsCopier _ _ _ _ copy_spec-IsCopier copy_status-IsCopier)
          (r.meta, (r.spec, r.status)) h i in
      record { extends = c.extends; fresh = c.fresh; same = ap rule_of c.same }

  pub copy_rule_list-IsCopier : IsCopier rule_list_shape (copy_rule_list m)
  unfolding copy_rule_list copy_items
  copy_rule_list-IsCopier r h i =
      let c =
        pointed-IsCopier rules_kind (each rule_shape) _
          (each-IsCopier rule_shape (copy_rule m) copy_rule-IsCopier) r.items h i in
      record { extends = c.extends; fresh = c.fresh; same = ap (λ v. elements v) c.same }
