-- ===== src/Bootstrap.antt =====
-- Tracking of completed bootstraps: isBootstrapCompleted and markBootstrapCompleted
-- (internal/controller/node_controller.go).
pub mod Laws
use node_readiness_gate_cont.Prelude.{
  String, Bool, true, false, List, [], Option, none, some, Result, ok, err, ◌<>◌, if◌then◌else◌,
}
use node_readiness_gate_cont.Prelude.GoMap.{GoMap, lookup, insert}
use node_readiness_gate_cont.Core.{Node}
use node_readiness_gate_cont.Client.{Client, error_of}
use node_readiness_gate_cont.Selection.{exists}

abbrev pub annotation_key : String → String
annotation_key rule_name = "readiness.k8s.io/bootstrap-completed-" <> rule_name

-- `_, exists := node.Annotations[key]`; a nil map holds nothing.
unfoldable pub has_annotation : Option (GoMap String) → String → Bool
has_annotation none key = false
has_annotation (some m) key = exists (lookup key m)

-- The map that is written to: a new one in place of nil.
abbrev pub made : Option (GoMap String) → GoMap String
made none = []
made (some m) = m

-- `node.Annotations[key] = "true"`, in a new map if there is none.
unfoldable pub annotated : Node → String → Node
annotated node key = record node { annotations = some (insert key "true" (made node.annotations)) }

module _ (c : Client) where
  completed_in : String → Result c.Err Node × c.World → Bool × c.World
  completed_in rule_name (err e, w) = (false, w)
  completed_in rule_name (ok node, w) =
      (has_annotation node.annotations (annotation_key rule_name), w)

  unfoldable pub is_bootstrap_completed : String → String → c.World → Bool × c.World
  unfolding completed_in has_annotation
  is_bootstrap_completed node_name rule_name w = completed_in rule_name (c.get_node node_name w)

  mark_in : String → Result c.Err Node × c.World → Option c.Err × c.World
  mark_in rule_name (err e, w) = (some e, w)
  mark_in rule_name (ok node, w) =
      if has_annotation node.annotations (annotation_key rule_name)
      then (none, w)
      else let (answer, w') = c.update_node (annotated node (annotation_key rule_name)) w in
        (error_of answer, w')

  -- The function that `markBootstrapCompleted` hands to the retry loop.
  unfoldable pub mark_attempt : String → String → c.World → Option c.Err × c.World
  unfolding mark_in has_annotation annotated
  mark_attempt node_name rule_name w = mark_in rule_name (c.get_node node_name w)

  -- The error is only logged.
  unfoldable pub mark_bootstrap_completed : String → String → c.World → c.World
  unfolding mark_attempt
  mark_bootstrap_completed node_name rule_name w =
      (c.retry_on_conflict (mark_attempt node_name rule_name) w).1
