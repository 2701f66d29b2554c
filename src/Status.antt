-- ===== src/Status.antt =====
-- The status of a rule: updateNodeEvaluationStatus (internal/controller/
-- nodereadinessgaterule_controller.go), recordNodeFailure (internal/controller/node_controller.go)
-- and the loop of cleanupDeletedNodes that drops the evaluations of nodes that are gone.
pub mod Laws
pub mod Bounds
use node_readiness_gate_cont.Prelude.{
  String, Bool, true, false, not, List, [], ◌∷◌, ◌++◌, ◌==◌, if◌then◌else◌, filter, Option, none,
  some,
}
use node_readiness_gate_cont.Prelude.GoMap.{GoMap, lookup, insert}
use node_readiness_gate_cont.Core.{Time, Node}
use node_readiness_gate_cont.Api.{ConditionEvaluationResult, NodeEvaluation, NodeFailure}

-- The first evaluation of the node is overwritten in place; a new one is appended if there is none.
unfoldable pub update_node_evaluations :
    List NodeEvaluation
    → String
    → List ConditionEvaluationResult
    → String
    → Time
    → List NodeEvaluation
update_node_evaluations [] name results taint now =
    record {
      node_name = name;
      condition_results = results;
      taint_status = taint;
      last_evaluated = now;
    }
    ∷ []
update_node_evaluations (e ∷ es) name results taint now =
    if e.node_name == name
    then record e { condition_results = results; taint_status = taint; last_evaluated = now } ∷ es
    else e ∷ update_node_evaluations es name results taint now

unfoldable pub record_node_failures :
    List NodeFailure → String → String → String → Time → List NodeFailure
record_node_failures failures name reason message now =
    filter (λ f. not (f.node_name == name)) failures
    ++ record { node_name = name; reason = reason; message = message; last_updated = now } ∷ []

-- The loop that fills `existingNodes`.
existing_nodes_from : GoMap Bool → List Node → GoMap Bool
existing_nodes_from existing [] = existing
existing_nodes_from existing (node ∷ nodes) =
    existing_nodes_from (insert node.name true existing) nodes

unfoldable pub existing_nodes : List Node → GoMap Bool
unfolding existing_nodes_from
existing_nodes nodes = existing_nodes_from [] nodes

-- `existingNodes[name]`, which is false for a key that is not there.
abbrev pub flag : Option Bool → Bool
flag none = false
flag (some b) = b

unfoldable pub keep_existing : GoMap Bool → List NodeEvaluation → List NodeEvaluation
keep_existing existing evaluations = filter (λ e. flag (lookup e.node_name existing)) evaluations
