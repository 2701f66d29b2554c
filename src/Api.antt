-- ===== src/Api.antt =====
-- The NodeReadinessGateRule resource (api/v1alpha1/nodereadinessgaterule_types.go).
use Prim.Native.Nat.{ℕ}
use Prim.Native.String.{String}
use mathlib.Core.Bool.{Bool}
use mathlib.Core.Option.{Option}
use mathlib.Core.List.{List}
use node_readiness_gate_cont.Core.{Time, LabelSelector, StatusCondition}

pub record ConditionRequirement : Type 0 where
  pub kind : String
  pub required_status : String

pub record TaintSpec : Type 0 where
  pub key : String
  pub effect : String
  pub value : String

-- `EnforcementMode` is a text; these are its two constants.
abbrev pub bootstrap_only : String
bootstrap_only = "bootstrap-only"

abbrev pub continuous : String
continuous = "continuous"

pub record NodeReadinessGateRuleSpec : Type 0 where
  pub conditions : List ConditionRequirement
  pub enforcement_mode : String
  pub taint : TaintSpec
  pub node_selector : Option LabelSelector
  pub grace_period : Option Time
  pub dry_run : Bool

pub record ConditionEvaluationResult : Type 0 where
  pub kind : String
  pub current_status : String
  pub required_status : String
  pub satisfied : Bool
  pub missing : Bool

pub record NodeEvaluation : Type 0 where
  pub node_name : String
  pub condition_results : List ConditionEvaluationResult
  pub taint_status : String
  pub last_evaluated : Time

pub record NodeFailure : Type 0 where
  pub node_name : String
  pub reason : String
  pub message : String
  pub last_updated : Time

pub record DryRunResults : Type 0 where
  pub affected_nodes : ℕ
  pub taints_to_add : ℕ
  pub taints_to_remove : ℕ
  pub risky_operations : ℕ
  pub summary : String

pub record NodeReadinessGateRuleStatus : Type 0 where
  pub observed_generation : ℕ
  pub conditions : List StatusCondition
  pub applied_nodes : List String
  pub node_evaluations : List NodeEvaluation
  pub failed_nodes : List NodeFailure
  pub dry_run_results : Option DryRunResults

-- Of the object's metadata, the fields that the program reads or writes.
pub record NodeReadinessGateRule : Type 0 where
  pub name : String
  pub generation : ℕ
  pub resource_version : String
  pub finalizers : List String
  pub deletion_timestamp : Option Time
  pub spec : NodeReadinessGateRuleSpec
  pub status : NodeReadinessGateRuleStatus
