-- ===== src/Main/Watches.antt =====
-- Which events the watches that the program registers (SetupWithManager of both reconcilers, called
-- by cmd/main.go) hand to the reconcilers.
use node_readiness_gate_cont.Prelude.{◌≡◌, refl, ap, ◌∙◌, Bool, true, false, [], ◌∷◌, any, arith}
use node_readiness_gate_cont.Core.{Node}
use node_readiness_gate_cont.Api.{NodeReadinessGateRule}
use node_readiness_gate_cont.Events.{generation_changed}
use node_readiness_gate_cont.Setup.{
  Event, created, updated, deleted, Watching, IsWatching, Runtime, Call, watch_rules,
  build_controller, watch_nodes, rule_predicates,
}
use node_readiness_gate_cont.Main.{Flags}
use node_readiness_gate_cont.Main.Laws.{required_calls, calls_made, is_start, main-starts}

module _ (v : Watching) where
  -- Whether a watch that the call registers hands the event of a node to the node reconciler.
  abbrev pub node_passes : Event Node → Call → Bool
  node_passes e (build_controller name predicates) = v.passes predicates e
  node_passes e (watch_nodes predicates) = v.passes predicates e
  node_passes e call = false

  -- The same of a rule and the rule reconciler.
  abbrev pub rule_passes : Event NodeReadinessGateRule → Call → Bool
  rule_passes e (watch_rules predicates) = v.passes predicates e
  rule_passes e call = false

module _ (v : Watching) (l : IsWatching v) where
  node_event :
      (flags : Flags) (e : Event Node) → any (node_passes v e) (required_calls flags) ≡ true
  node_event flags e = ground (arith, l.passes_all e)

  rule_event :
      (enabled : Bool) (flags : Flags) (e : Event NodeReadinessGateRule)
      → any (rule_passes v e) (required_calls (record flags { enable_webhook = enabled }))
        ≡ v.passes (rule_predicates ∷ []) e
  rule_event true flags e = ground arith
  rule_event false flags e = ground arith

  module _ (r : Runtime) (flags : Flags) (w : r.World)
      (started : any is_start (calls_made r flags w) ≡ true) where
    made : calls_made r flags w ≡ required_calls flags
    made = (main-starts r flags w).0 started

    -- Once the program has started the manager, every event of a node is handed to the node
    -- reconciler, also an update that the predicates of its second watch hold back as no change:
    -- the controller is built for the nodes already, without predicates.
    pub every_node_event_passes :
        (e : Event Node) → any (node_passes v e) (calls_made r flags w) ≡ true
    every_node_event_passes e = ap (any (node_passes v e)) made ∙ node_event flags e

    -- Once the program has started the manager, every creation and every deletion of a rule is
    -- handed to the rule reconciler, and an update exactly if the generation has changed.
    pub rule_event_passes :
        (old new : NodeReadinessGateRule)
        → (any (rule_passes v (created new)) (calls_made r flags w) ≡ true)
          × (any (rule_passes v (deleted old)) (calls_made r flags w) ≡ true)
          × (any (rule_passes v (updated old new)) (calls_made r flags w)
              ≡ generation_changed old new)
    rule_event_passes old new = (
      ap (any (rule_passes v (created new))) made
          ∙ rule_event flags.enable_webhook flags (created new)
          ∙ l.passes_create rule_predicates new refl,
      ap (any (rule_passes v (deleted old))) made
          ∙ rule_event flags.enable_webhook flags (deleted old)
          ∙ l.passes_delete rule_predicates old refl,
      ap (any (rule_passes v (updated old new))) made
          ∙ rule_event flags.enable_webhook flags (updated old new)
          ∙ l.passes_update rule_predicates generation_changed old new refl,
    )
