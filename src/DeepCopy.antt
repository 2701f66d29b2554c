-- ===== src/DeepCopy.antt =====
-- The deep copies of the resource types (api/v1alpha1/zz_generated.deepcopy.go), over a heap: a
-- slice, a map or a pointer in a Go object is an address, nil is none. An array is copied together with
-- its elements; that the copy's array is made before its elements are copied, as in the source,
-- or after, as here, makes no difference but to the order of the new addresses.
pub mod Objects
pub mod Shapes
pub mod Copiers
pub mod Types
pub mod Laws
use node_readiness_gate_cont.Prelude.{ℕ, List, [], ◌∷◌, Option, none, some, ◌≡◌}
use node_readiness_gate_cont.Core.{Time, StatusCondition}
use node_readiness_gate_cont.Api.{
  ConditionEvaluationResult, ConditionRequirement, DryRunResults, NodeFailure, TaintSpec,
}
use node_readiness_gate_cont.DeepCopy.Objects.{
  RuleListObject, result_kind, requirement_kind, evaluation_kind, failure_kind, rule_list_kind,
  spec_kind, status_kind, taint_kind, Address, Kind, Cell, Heap, alloc, MetaCopies, ObjectMeta,
  EvaluationObject, SpecObject, StatusObject, RuleObject, requirements_kind, conditions_kind,
  texts_kind, evaluations_kind, results_kind, failures_kind, selector_kind, duration_kind,
  dry_run_kind, rules_kind, rule_kind,
}

-- `*out = *in`, which is all for a type without slices and pointers.
unfoldable pub assign {ℓ} : {A : Type ℓ} → A → Heap → A × Heap
assign x h = (x, h)

-- `for i := range *in { (*in)[i].DeepCopyInto(&(*out)[i]) }`.
unfoldable pub copy_each : {A : Type 0} → (A → Heap → A × Heap) → List A → Heap → List A × Heap
copy_each f [] h = ([], h)
copy_each f (x ∷ xs) h = let (y, h') = f x h in let (ys, h'') = copy_each f xs h' in (y ∷ ys, h'')

-- `if in != nil { out = new(T); in.DeepCopyInto(out) }`: nil for nil, else a new cell of what the
-- contents are copied to. Each DeepCopy is this, and so is the copy of each field that is a slice
-- or a pointer.
unfoldable pub copy_pointed :
    (k : Kind) → (Cell k → Heap → Cell k × Heap) → Option Address → Heap → Option Address × Heap
unfolding alloc
copy_pointed k f none h = (none, h)
copy_pointed k f (some a) h =
    let (x, h') = f (h.at k a) h in let (b, h'') = alloc k x h' in (some b, h'')

unfoldable pub copy_result : ConditionEvaluationResult → Heap → ConditionEvaluationResult × Heap
unfolding assign
copy_result = assign

unfoldable pub copy_requirement : ConditionRequirement → Heap → ConditionRequirement × Heap
unfolding assign
copy_requirement = assign

unfoldable pub copy_dry_run_results : DryRunResults → Heap → DryRunResults × Heap
unfolding assign
copy_dry_run_results = assign

unfoldable pub copy_taint_spec : TaintSpec → Heap → TaintSpec × Heap
unfolding assign
copy_taint_spec = assign

module _ (m : MetaCopies) where
  unfoldable pub copy_node_evaluation : EvaluationObject → Heap → EvaluationObject × Heap
  unfolding assign copy_pointed
  copy_node_evaluation e h =
      let (results, h') = copy_pointed results_kind assign e.condition_results h in
      (record e { condition_results = results; last_evaluated = m.copy_time e.last_evaluated }, h')

  unfoldable pub copy_node_failure : NodeFailure → Heap → NodeFailure × Heap
  copy_node_failure f h = (record f { last_updated = m.copy_time f.last_updated }, h)

  copy_condition : StatusCondition → Heap → StatusCondition × Heap
  copy_condition x h = (m.copy_condition x, h)

  unfoldable pub copy_spec : SpecObject → Heap → SpecObject × Heap
  unfolding assign copy_pointed
  copy_spec s h =
      let (conditions, h1) = copy_pointed requirements_kind assign s.conditions h in
      let (selector, h2) = copy_pointed selector_kind m.copy_selector s.node_selector h1 in
      let (period, h3) = copy_pointed duration_kind assign s.grace_period h2 in
      (record s { conditions = conditions; node_selector = selector; grace_period = period }, h3)

  unfoldable pub copy_status : StatusObject → Heap → StatusObject × Heap
  unfolding assign copy_pointed copy_each copy_condition copy_node_evaluation copy_node_failure
  copy_status s h =
      let (conditions, h1) =
        copy_pointed conditions_kind (copy_each copy_condition) s.conditions h in
      let (applied, h2) = copy_pointed texts_kind assign s.applied_nodes h1 in
      let (evaluations, h3) =
        copy_pointed evaluations_kind (copy_each copy_node_evaluation) s.node_evaluations h2 in
      let (failures, h4) =
        copy_pointed failures_kind (copy_each copy_node_failure) s.failed_nodes h3 in
      let (dry_run, h5) = copy_pointed dry_run_kind assign s.dry_run_results h4 in
      (
        record s {
          conditions = conditions;
          applied_nodes = applied;
          node_evaluations = evaluations;
          failed_nodes = failures;
          dry_run_results = dry_run;
        },
        h5,
      )

  unfoldable pub copy_rule : RuleObject → Heap → RuleObject × Heap
  unfolding copy_spec copy_status
  copy_rule r h =
      let (meta, h1) = m.copy_meta r.meta h in
      let (spec, h2) = copy_spec r.spec h1 in
      let (status, h3) = copy_status r.status h2 in
      (record r { meta = meta; spec = spec; status = status }, h3)

  -- The slice of rules of a list is copied rule by rule.
  unfoldable pub copy_items : Option Address → Heap → Option Address × Heap
  unfolding copy_pointed copy_each copy_rule
  copy_items = copy_pointed rules_kind (copy_each copy_rule)

  unfoldable pub copy_rule_list : RuleListObject → Heap → RuleListObject × Heap
  unfolding copy_items
  copy_rule_list l h = let (items, h') = copy_items l.items h in (record l { items = items }, h')

  -- `rule.DeepCopy()` on a pointer to a rule, and `DeepCopyObject`, which is the same but for its
  -- type.
  unfoldable pub deep_copy_rule : Option Address → Heap → Option Address × Heap
  unfolding copy_pointed copy_rule
  deep_copy_rule = copy_pointed rule_kind copy_rule

  -- The same of a list of rules.
  unfoldable pub deep_copy_rule_list : Option Address → Heap → Option Address × Heap
  unfolding copy_pointed copy_rule_list
  deep_copy_rule_list = copy_pointed rule_list_kind copy_rule_list

  -- DeepCopy of the other types.
  unfoldable pub deep_copy_node_evaluation : Option Address → Heap → Option Address × Heap
  unfolding copy_pointed copy_node_evaluation
  deep_copy_node_evaluation = copy_pointed evaluation_kind copy_node_evaluation

  unfoldable pub deep_copy_node_failure : Option Address → Heap → Option Address × Heap
  unfolding copy_pointed copy_node_failure
  deep_copy_node_failure = copy_pointed failure_kind copy_node_failure

  unfoldable pub deep_copy_spec : Option Address → Heap → Option Address × Heap
  unfolding copy_pointed copy_spec
  deep_copy_spec = copy_pointed spec_kind copy_spec

  unfoldable pub deep_copy_status : Option Address → Heap → Option Address × Heap
  unfolding copy_pointed copy_status
  deep_copy_status = copy_pointed status_kind copy_status

unfoldable pub deep_copy_result : Option Address → Heap → Option Address × Heap
unfolding copy_pointed copy_result
deep_copy_result = copy_pointed result_kind copy_result

unfoldable pub deep_copy_requirement : Option Address → Heap → Option Address × Heap
unfolding copy_pointed copy_requirement
deep_copy_requirement = copy_pointed requirement_kind copy_requirement

unfoldable pub deep_copy_dry_run_results : Option Address → Heap → Option Address × Heap
unfolding copy_pointed copy_dry_run_results
deep_copy_dry_run_results = copy_pointed dry_run_kind copy_dry_run_results

unfoldable pub deep_copy_taint_spec : Option Address → Heap → Option Address × Heap
unfolding copy_pointed copy_taint_spec
deep_copy_taint_spec = copy_pointed taint_kind copy_taint_spec
