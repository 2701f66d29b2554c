-- ===== src/Events.antt =====
-- Which updates of a node are reconciled: conditionsEqual, taintsEqual, labelsEqual and the update
-- predicate of SetupWithManager (internal/controller/node_controller.go), and the update predicate
-- of the rules (internal/controller/nodereadinessgaterule_controller.go).
pub mod Taints
pub mod Laws
use node_readiness_gate_cont.Prelude.{
  ℕ, String, Bool, true, false, not, ◌&&◌, ◌||◌, List, [], ◌∷◌, ◌==◌, if◌then◌else◌, Option, none,
  some, length, any, all, eqb, ◌<>◌,
}
use node_readiness_gate_cont.Prelude.GoMap.{GoMap, lookup, insert}
use node_readiness_gate_cont.Core.{Node, Taint, NodeCondition}
use node_readiness_gate_cont.Api.{NodeReadinessGateRule}

-- The loop that fills `aMap` with the statuses.
condition_map : GoMap String → List NodeCondition → GoMap String
condition_map m [] = m
condition_map m (c ∷ cs) = condition_map (insert c.kind c.status m) cs

-- `exists && status == cond.Status`.
abbrev pub found_is : Option String → String → Bool
found_is none s = false
found_is (some t) s = t == s

unfoldable pub conditions_equal : List NodeCondition → List NodeCondition → Bool
unfolding condition_map
conditions_equal a b =
    if not (eqb (length a) (length b))
    then false
    else all (λ c. found_is (lookup c.kind (condition_map [] a)) c.status) b

-- `taint.Key + string(taint.Effect)`.
unfoldable pub taint_key : Taint → String
taint_key taint = taint.key <> taint.effect

-- The loop that fills `aMap` with the taints.
taint_map : GoMap Taint → List Taint → GoMap Taint
unfolding taint_key
taint_map m [] = m
taint_map m (t ∷ ts) = taint_map (insert (taint_key t) t m) ts

-- `exists && oldTaint.Value == taint.Value`.
abbrev pub found_value_is : Option Taint → String → Bool
found_value_is none s = false
found_value_is (some t) s = t.value == s

unfoldable pub taints_equal : List Taint → List Taint → Bool
unfolding taint_map taint_key
taints_equal a b =
    if not (eqb (length a) (length b))
    then false
    else all (λ t. found_value_is (lookup (taint_key t) (taint_map [] a)) t.value) b

-- `b[k] == v`, where a key that is not there reads as the empty text.
abbrev pub label_agrees : GoMap String → String × String → Bool
label_agrees b (k, v) = elim (lookup k b) [ none ↦ "" == v | some w ↦ w == v ]

unfoldable pub labels_equal : GoMap String → GoMap String → Bool
labels_equal a b = if not (eqb (length a) (length b)) then false else all (label_agrees b) a

-- The update predicate of the node controller.
unfoldable pub should_reconcile : Node → Node → Bool
unfolding conditions_equal taints_equal labels_equal
should_reconcile old new =
    let conditions_changed = not (conditions_equal old.conditions new.conditions) in
    let taints_changed = not (taints_equal old.taints new.taints) in
    let labels_changed = not (labels_equal old.labels new.labels) in
    conditions_changed || taints_changed || labels_changed

-- The update predicate of the rule controller.
unfoldable pub generation_changed : NodeReadinessGateRule → NodeReadinessGateRule → Bool
generation_changed old new = not (eqb old.generation new.generation)
