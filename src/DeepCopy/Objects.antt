-- ===== src/DeepCopy/Objects.antt =====
-- The heap of Go objects: the resource types of api/v1alpha1 as they lie in memory, with an
-- address for every slice, map and pointer, and the cells that these point to.
use node_readiness_gate_cont.Prelude.{
  ℕ, ◌+◌, ◌≡◌, ◌≢◌, refl, String, Bool, List, Option, if◌then◌else◌, eqb, arith,
}
use node_readiness_gate_cont.Prelude.GoMap.{GoMap}
use node_readiness_gate_cont.Core.{Time, StatusCondition}
use node_readiness_gate_cont.Api.{
  ConditionEvaluationResult, ConditionRequirement, DryRunResults, NodeFailure, TaintSpec,
}

abbrev pub Address : Type 0
Address = ℕ

-- Of the object's metadata, the fields that the program reads or writes.
pub record ObjectMeta : Type 0 where
  pub name : String
  pub generation : ℕ
  pub resource_version : String
  pub finalizers : Option Address
  pub deletion_timestamp : Option Address

pub record ExpressionObject : Type 0 where
  pub key : String
  pub operator : String
  pub values : Option Address

pub record SelectorObject : Type 0 where
  pub match_labels : Option Address
  pub match_expressions : Option Address

pub record EvaluationObject : Type 0 where
  pub node_name : String
  pub condition_results : Option Address
  pub taint_status : String
  pub last_evaluated : Time

pub record SpecObject : Type 0 where
  pub conditions : Option Address
  pub enforcement_mode : String
  pub taint : TaintSpec
  pub node_selector : Option Address
  pub grace_period : Option Address
  pub dry_run : Bool

pub record StatusObject : Type 0 where
  pub observed_generation : ℕ
  pub conditions : Option Address
  pub applied_nodes : Option Address
  pub node_evaluations : Option Address
  pub failed_nodes : Option Address
  pub dry_run_results : Option Address

pub record RuleObject : Type 0 where
  pub meta : ObjectMeta
  pub spec : SpecObject
  pub status : StatusObject

pub record RuleListObject : Type 0 where
  pub items : Option Address

-- What an address can point to: the array of a slice, a map, or one object.
pub data Kind : Type 0 where
  results_kind : Kind
  requirements_kind : Kind
  conditions_kind : Kind
  texts_kind : Kind
  evaluations_kind : Kind
  failures_kind : Kind
  rules_kind : Kind
  selector_kind : Kind
  duration_kind : Kind
  dry_run_kind : Kind
  rule_kind : Kind
  result_kind : Kind
  requirement_kind : Kind
  evaluation_kind : Kind
  failure_kind : Kind
  rule_list_kind : Kind
  spec_kind : Kind
  status_kind : Kind
  taint_kind : Kind
  time_kind : Kind
  labels_kind : Kind
  expressions_kind : Kind

abbrev pub Cell : Kind → Type 0
Cell results_kind = List ConditionEvaluationResult
Cell requirements_kind = List ConditionRequirement
Cell conditions_kind = List StatusCondition
Cell texts_kind = List String
Cell evaluations_kind = List EvaluationObject
Cell failures_kind = List NodeFailure
Cell rules_kind = List RuleObject
Cell selector_kind = SelectorObject
Cell duration_kind = Time
Cell dry_run_kind = DryRunResults
Cell rule_kind = RuleObject
Cell result_kind = ConditionEvaluationResult
Cell requirement_kind = ConditionRequirement
Cell evaluation_kind = EvaluationObject
Cell failure_kind = NodeFailure
Cell rule_list_kind = RuleListObject
Cell spec_kind = SpecObject
Cell status_kind = StatusObject
Cell taint_kind = TaintSpec
Cell time_kind = Time
Cell labels_kind = GoMap String
Cell expressions_kind = List ExpressionObject

-- The addresses below next are in use.
pub record Heap : Type 0 where
  pub next : ℕ
  pub at : (k : Kind) → Address → Cell k

-- The first of two cells if it is of the kind that is read.
abbrev overlay : (k j : Kind) → Cell k → Cell j → Cell j
overlay results_kind results_kind x y = x
overlay requirements_kind requirements_kind x y = x
overlay conditions_kind conditions_kind x y = x
overlay texts_kind texts_kind x y = x
overlay evaluations_kind evaluations_kind x y = x
overlay failures_kind failures_kind x y = x
overlay rules_kind rules_kind x y = x
overlay selector_kind selector_kind x y = x
overlay duration_kind duration_kind x y = x
overlay dry_run_kind dry_run_kind x y = x
overlay rule_kind rule_kind x y = x
overlay result_kind result_kind x y = x
overlay requirement_kind requirement_kind x y = x
overlay evaluation_kind evaluation_kind x y = x
overlay failure_kind failure_kind x y = x
overlay rule_list_kind rule_list_kind x y = x
overlay spec_kind spec_kind x y = x
overlay status_kind status_kind x y = x
overlay taint_kind taint_kind x y = x
overlay time_kind time_kind x y = x
overlay labels_kind labels_kind x y = x
overlay expressions_kind expressions_kind x y = x
overlay k j x y = y

overlay_same : (k : Kind) (x y : Cell k) → overlay k k x y ≡ x
overlay_same results_kind x y = refl
overlay_same requirements_kind x y = refl
overlay_same conditions_kind x y = refl
overlay_same texts_kind x y = refl
overlay_same evaluations_kind x y = refl
overlay_same failures_kind x y = refl
overlay_same rules_kind x y = refl
overlay_same selector_kind x y = refl
overlay_same duration_kind x y = refl
overlay_same dry_run_kind x y = refl
overlay_same rule_kind x y = refl
overlay_same result_kind x y = refl
overlay_same requirement_kind x y = refl
overlay_same evaluation_kind x y = refl
overlay_same failure_kind x y = refl
overlay_same rule_list_kind x y = refl
overlay_same spec_kind x y = refl
overlay_same status_kind x y = refl
overlay_same taint_kind x y = refl
overlay_same time_kind x y = refl
overlay_same labels_kind x y = refl
overlay_same expressions_kind x y = refl

-- A write into an array or an object: what every pointer to it sees from then on.
unfoldable pub write : (k : Kind) → Address → Cell k → Heap → Heap
write k a x h = record h { at = λ j b. if eqb b a then overlay k j x (h.at j b) else h.at j b }

-- `new` and `make`, with the contents that are put there.
unfoldable pub alloc : (k : Kind) → Cell k → Heap → Address × Heap
unfolding write
alloc k x h = (h.next, record (write k h.next x h) { next = h.next + 1 })

-- The deep copies of apimachinery: those of types that have slices, maps or pointers read the heap
-- and allocate in it.
pub record MetaCopies : Type 0 where
  pub copy_meta : ObjectMeta → Heap → ObjectMeta × Heap
  pub copy_selector : SelectorObject → Heap → SelectorObject × Heap
  pub copy_time : Time → Time
  pub copy_condition : StatusCondition → StatusCondition

pub write_other :
    (k : Kind) (a : Address) (x : Cell k) (h : Heap) (j : Kind) (b : Address)
    → b ≢ a
    → (write k a x h).at j b ≡ h.at j b
unfolding write
write_other k a x h j b apart = ground arith

pub at-alloc : (k : Kind) (x : Cell k) (h : Heap) → (alloc k x h).1.at k h.next ≡ x
unfolding alloc write
at-alloc k x h = ground (arith, overlay_same k x (h.at k h.next))
