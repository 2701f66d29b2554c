-- ===== src/Conditions/Laws.antt =====
-- The loop of evaluateRuleForNode over the required conditions.
use mathlib.Core.List.{append_assoc, append-nil}
use node_readiness_gate_cont.Prelude.{
  ◌≡◌, refl, sym, ◌∙◌, ◌↔◌, Bool, true, false, not, ◌&&◌, List, [], ◌∷◌, ◌++◌, map, arith, eq_iff,
  ◌==◌, all, if◌then◌else◌, String, Option, none, some, inl, inr, Bool-cases,
}
use node_readiness_gate_cont.Core.{NodeCondition}
use node_readiness_gate_cont.Api.{ConditionRequirement, ConditionEvaluationResult}
use node_readiness_gate_cont.Conditions.{
  get_condition_status, condition_result, evaluate_conditions_from, evaluate_conditions,
}

-- The node has the status that the requirement asks for.
abbrev pub is_met : List NodeCondition → ConditionRequirement → Bool
is_met conditions req = get_condition_status conditions req.kind == req.required_status

-- The first condition of the node that has the type.
abbrev pub condition_of : String → List NodeCondition → Option NodeCondition
condition_of kind [] = none
condition_of kind (c ∷ cs) = if c.kind == kind then some c else condition_of kind cs

-- The status that is reported for a type, "Unknown" if the node has no condition of the type.
abbrev pub Reports : Option NodeCondition → String → Type 0
Reports none status = status ≡ "Unknown"
Reports (some c) status = status ≡ c.status

-- What the result for a requirement says of a node with the conditions.
pub record IsResultOf (conditions : List NodeCondition) (req : ConditionRequirement)
    (result : ConditionEvaluationResult) : Type 0 where
  pub of_kind : result.kind ≡ req.kind
  pub of_required : result.required_status ≡ req.required_status
  pub of_current : Reports (condition_of req.kind conditions) result.current_status
  pub of_satisfied : (result.satisfied ≡ true) ↔ (result.current_status ≡ result.required_status)
  pub of_missing : (result.missing ≡ true) ↔ (result.current_status ≡ "Unknown")

-- One result for each requirement, in order.
pub data AreResultsOf (conditions : List NodeCondition)
    : List ConditionRequirement → List ConditionEvaluationResult → Type 0 where
  no_results : AreResultsOf conditions [] []
  next_result :
      {req : ConditionRequirement} {result : ConditionEvaluationResult}
      {reqs : List ConditionRequirement} {results : List ConditionEvaluationResult}
      → IsResultOf conditions req result
      → AreResultsOf conditions reqs results
      → AreResultsOf conditions (req ∷ reqs) (result ∷ results)

get_condition_status-Reports :
    (kind : String) (conditions : List NodeCondition)
    → Reports (condition_of kind conditions) (get_condition_status conditions kind)
unfolding get_condition_status
get_condition_status-Reports kind [] = refl
get_condition_status-Reports kind (c ∷ cs) = elim (Bool-cases (c.kind == kind)) [
  | inl same ↦ rw same refl
  | inr other ↦ rw other (get_condition_status-Reports kind cs)
]

condition_result-IsResultOf :
    (conditions : List NodeCondition) (req : ConditionRequirement)
    → IsResultOf conditions req (condition_result conditions req)
unfolding condition_result
condition_result-IsResultOf conditions req = record {
  of_kind = refl;
  of_required = refl;
  of_current = get_condition_status-Reports req.kind conditions;
  of_satisfied = eq_iff (get_condition_status conditions req.kind) req.required_status;
  of_missing = eq_iff (get_condition_status conditions req.kind) "Unknown";
}

pub map-condition_result-AreResultsOf :
    (conditions : List NodeCondition) (reqs : List ConditionRequirement)
    → AreResultsOf conditions reqs (map (condition_result conditions) reqs)
map-condition_result-AreResultsOf conditions [] = no_results
map-condition_result-AreResultsOf conditions (req ∷ reqs) =
    next_result (condition_result-IsResultOf conditions req)
      (map-condition_result-AreResultsOf conditions reqs)

module _ (conditions : List NodeCondition) where
  evaluate_conditions_from_satisfied :
      (satisfied : Bool) (results : List ConditionEvaluationResult)
      (reqs : List ConditionRequirement)
      → (evaluate_conditions_from conditions satisfied results reqs).0
        ≡ (satisfied && all (is_met conditions) reqs)
  unfolding evaluate_conditions_from condition_result
  evaluate_conditions_from_satisfied satisfied results [] = ground arith
  evaluate_conditions_from_satisfied satisfied results (req ∷ reqs) =
      evaluate_conditions_from_satisfied
        (if not (condition_result conditions req).satisfied then false else satisfied)
        (results ++ condition_result conditions req ∷ []) reqs
      ∙ ground arith

  evaluate_conditions_from_results :
      (satisfied : Bool) (results : List ConditionEvaluationResult)
      (reqs : List ConditionRequirement)
      → (evaluate_conditions_from conditions satisfied results reqs).1
        ≡ results ++ map (condition_result conditions) reqs
  unfolding evaluate_conditions_from
  evaluate_conditions_from_results satisfied results [] = sym (append-nil _)
  evaluate_conditions_from_results satisfied results (req ∷ reqs) =
      evaluate_conditions_from_results
        (if not (condition_result conditions req).satisfied then false else satisfied)
        (results ++ condition_result conditions req ∷ []) reqs
      ∙ append_assoc results _ _

  pub evaluate_conditions_satisfied :
      (reqs : List ConditionRequirement)
      → (evaluate_conditions conditions reqs).0 ≡ all (is_met conditions) reqs
  unfolding evaluate_conditions
  evaluate_conditions_satisfied reqs = evaluate_conditions_from_satisfied true [] reqs

  pub evaluate_conditions_results :
      (reqs : List ConditionRequirement)
      → (evaluate_conditions conditions reqs).1 ≡ map (condition_result conditions) reqs
  unfolding evaluate_conditions
  evaluate_conditions_results reqs = evaluate_conditions_from_results true [] reqs
