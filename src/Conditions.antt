-- ===== src/Conditions.antt =====
-- The conditions of a node, and the loop of evaluateRuleForNode over the conditions that a rule
-- requires (internal/controller/node_controller.go and nodereadinessgaterule_controller.go).
pub mod Laws
use node_readiness_gate_cont.Prelude.{
  String, Bool, true, false, not, ◌&&◌, List, [], ◌∷◌, ◌++◌, ◌==◌, if◌then◌else◌,
}
use node_readiness_gate_cont.Core.{Node, NodeCondition, condition_unknown}
use node_readiness_gate_cont.Api.{ConditionRequirement, ConditionEvaluationResult}

unfoldable pub get_condition_status : List NodeCondition → String → String
get_condition_status [] kind = condition_unknown
get_condition_status (c ∷ cs) kind =
    if c.kind == kind then c.status else get_condition_status cs kind

-- The round of the loop for one requirement.
unfoldable pub condition_result :
    List NodeCondition → ConditionRequirement → ConditionEvaluationResult
condition_result conditions req =
    let current = get_condition_status conditions req.kind in
    record {
      kind = req.kind;
      current_status = current;
      required_status = req.required_status;
      satisfied = current == req.required_status;
      missing = current == condition_unknown;
    }

-- The loop, with `allConditionsSatisfied` and `conditionResults` as its variables.
unfoldable pub evaluate_conditions_from :
    List NodeCondition
    → Bool
    → List ConditionEvaluationResult
    → List ConditionRequirement
    → Bool × List ConditionEvaluationResult
evaluate_conditions_from conditions satisfied results [] = (satisfied, results)
evaluate_conditions_from conditions satisfied results (req ∷ reqs) =
    let result = condition_result conditions req in
    evaluate_conditions_from conditions (if not result.satisfied then false else satisfied)
      (results ++ result ∷ []) reqs

unfoldable pub evaluate_conditions :
    List NodeCondition → List ConditionRequirement → Bool × List ConditionEvaluationResult
unfolding evaluate_conditions_from condition_result
evaluate_conditions conditions reqs = evaluate_conditions_from conditions true [] reqs
