-- ===== src/Finalizers.antt =====
-- containsFinalizer, addFinalizer and removeFinalizer (internal/controller/
-- nodereadinessgaterule_controller.go).
pub mod Laws
use node_readiness_gate_cont.Prelude.{
  String, Bool, not, List, [], ◌∷◌, ◌++◌, ◌==◌, if◌then◌else◌, filter, any,
}
use node_readiness_gate_cont.Api.{NodeReadinessGateRule}

abbrev pub finalizer_name : String
finalizer_name = "nodereadiness.io/cleanup-taints"

unfoldable pub contains_finalizer : NodeReadinessGateRule → String → Bool
contains_finalizer rule finalizer = any (λ f. f == finalizer) rule.finalizers

unfoldable pub add_finalizer : NodeReadinessGateRule → String → NodeReadinessGateRule
unfolding contains_finalizer
add_finalizer rule finalizer =
    if not (contains_finalizer rule finalizer)
    then record rule { finalizers = rule.finalizers ++ finalizer ∷ [] }
    else rule

unfoldable pub remove_finalizer : NodeReadinessGateRule → String → NodeReadinessGateRule
remove_finalizer rule finalizer = record rule {
  finalizers = filter (λ f. not (f == finalizer)) rule.finalizers;
}
