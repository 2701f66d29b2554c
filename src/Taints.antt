-- ===== src/Taints.antt =====
-- The taints of a node: hasTaintBySpec, and the slices that addTaintBySpec and removeTaintBySpec
-- build (internal/controller/node_controller.go).
pub mod Laws
use node_readiness_gate_cont.Prelude.{Bool, not, ◌&&◌, List, [], ◌∷◌, ◌++◌, ◌==◌, filter, any}
use node_readiness_gate_cont.Core.{Taint}
use node_readiness_gate_cont.Api.{TaintSpec}

-- `taint.Key == taintSpec.Key && taint.Effect == taintSpec.Effect`.
abbrev pub is_taint_of : TaintSpec → Taint → Bool
is_taint_of spec taint = taint.key == spec.key && taint.effect == spec.effect

unfoldable pub has_taint_by_spec : List Taint → TaintSpec → Bool
has_taint_by_spec taints spec = any (is_taint_of spec) taints

-- The new slice of `addTaintBySpec`.
unfoldable pub with_taint : List Taint → TaintSpec → List Taint
with_taint taints spec =
    taints ++ record { key = spec.key; value = spec.value; effect = spec.effect } ∷ []

-- The new slice of `removeTaintBySpec`.
unfoldable pub without_taint : List Taint → TaintSpec → List Taint
without_taint taints spec = filter (λ taint. not (is_taint_of spec taint)) taints
