-- ===== src/Cleanup.antt =====
-- cleanupTaintsForRule and cleanupNodesAfterSelectorChange (internal/controller/
-- nodereadinessgaterule_controller.go): the taints of a rule are taken off nodes that it leaves.
pub mod Loop
pub mod Laws
pub mod Rules
use node_readiness_gate_cont.Prelude.{
  String, Bool, true, false, not, ◌&&◌, List, [], ◌∷◌, ◌++◌, Option, none, some, Result, ok, err,
  if◌then◌else◌, ltb, length, ◌<>◌, join,
}
use node_readiness_gate_cont.Prelude.GoMap.{GoMap}
use node_readiness_gate_cont.Core.{Node, Selectors, LabelSelector}
use node_readiness_gate_cont.Api.{NodeReadinessGateRule, TaintSpec}
use node_readiness_gate_cont.Client.{Client, Fault, api, wrapped, text}
use node_readiness_gate_cont.Taints.{has_taint_by_spec}
use node_readiness_gate_cont.Selection.{rule_applies_to}
use node_readiness_gate_cont.Evaluation.{remove_taint_by_spec}

module _ (c : Client) where
  -- `errors = append(errors, fmt.Sprintf("node %s: %v", node.Name, err))`.
  note_error : List String → Node → Option c.Err → List String
  note_error errors node none = errors
  note_error errors node (some e) = errors ++ ("node " <> node.name <> ": " <> c.message e) ∷ []

  -- The body of both loops, for a node that is to be cleaned. The errors name the node as the
  -- client left it.
  unfoldable pub clean_node : TaintSpec → Node → List String → c.World → List String × c.World
  unfolding note_error
  clean_node spec node errors w = elim (has_taint_by_spec node.taints spec) [
    | true ↦
        let (e, node', w') = remove_taint_by_spec c node spec w in (note_error errors node' e, w')
    | false ↦ (errors, w)
  ]

  -- The loop, with the test that picks the nodes to clean.
  unfoldable pub clean_nodes :
      (Node → Bool) → TaintSpec → List Node → List String → c.World → List String × c.World
  unfolding clean_node
  clean_nodes pick spec [] errors w = (errors, w)
  clean_nodes pick spec (node ∷ nodes) errors w =
      let (errors', w') = if pick node then clean_node spec node errors w else (errors, w) in
      clean_nodes pick spec nodes errors' w'

  -- `if len(errors) > 0`.
  pub clean_result : List String × c.World → Option (Fault c.Err) × c.World
  clean_result (errors, w) =
      if ltb 0 (length errors)
      then (some (text ("failed to cleanup taints on some nodes: " <> join "; " errors)), w)
      else (none, w)

  module _ (sel : Selectors) where
    cleanup_listed :
        NodeReadinessGateRule → Result c.Err (List Node) × c.World → Option (Fault c.Err) × c.World
    unfolding clean_nodes clean_result
    cleanup_listed rule (err e, w) = (some (wrapped "failed to list nodes" (api e)), w)
    cleanup_listed rule (ok nodes, w) = clean_result (
        clean_nodes (λ node. rule_applies_to sel rule.spec.node_selector node.labels)
          rule.spec.taint nodes [] w)

    unfoldable pub cleanup_taints_for_rule :
        NodeReadinessGateRule → c.World → Option (Fault c.Err) × c.World
    unfolding cleanup_listed
    cleanup_taints_for_rule rule w = cleanup_listed rule (c.list_nodes w)

    -- `oldSelector`: nil selects every node, and a selector that does not parse is an error.
    parse_old : Option LabelSelector → Result String (Option sel.Selector)
    parse_old none = ok none
    parse_old (some s) = elim (sel.as_selector s) [ ok t ↦ ok (some t) | err e ↦ err e ]

    abbrev pub matched_old : Option sel.Selector → Node → Bool
    matched_old none node = true
    matched_old (some t) node = sel.matches t node.labels

    clean_after_change :
        Result String (Option sel.Selector)
        → NodeReadinessGateRule
        → List Node
        → c.World
        → Option (Fault c.Err) × c.World
    unfolding clean_nodes clean_result
    clean_after_change (err e) rule nodes w =
        (some (wrapped "failed to parse old node selector" (text e)), w)
    clean_after_change (ok old) rule nodes w = clean_result (
        clean_nodes
          (λ node.
            matched_old old node && not (rule_applies_to sel rule.spec.node_selector node.labels))
          rule.spec.taint nodes [] w)

    after_change_listed :
        NodeReadinessGateRule
        → NodeReadinessGateRule
        → Result c.Err (List Node) × c.World
        → Option (Fault c.Err) × c.World
    unfolding parse_old clean_after_change
    after_change_listed old new (err e, w) = (some (wrapped "failed to list nodes" (api e)), w)
    after_change_listed old new (ok nodes, w) =
        clean_after_change (parse_old old.spec.node_selector) new nodes w

    unfoldable pub cleanup_nodes_after_selector_change :
        NodeReadinessGateRule → NodeReadinessGateRule → c.World → Option (Fault c.Err) × c.World
    unfolding after_change_listed
    cleanup_nodes_after_selector_change old new w = after_change_listed old new (c.list_nodes w)
