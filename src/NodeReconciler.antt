-- ===== src/NodeReconciler.antt =====
-- The reconciliation of a node: Reconcile and processNodeAgainstAllRules (internal/controller/
-- node_controller.go). The rules of the loop are pointers into the cache, so what an evaluation
-- writes to a rule is written back to its entry.
pub mod Laws
pub mod Isolation
pub mod Overwriting
pub mod Generations
pub mod Stepping
pub mod Convergence
use node_readiness_gate_cont.Prelude.{
  String, Bool, true, false, ◌&&◌, ◌||◌, List, [], ◌∷◌, Option, none, some, Result, ok, err, ◌==◌,
  if◌then◌else◌,
}
use node_readiness_gate_cont.Prelude.GoMap.{GoMap, insert}
use node_readiness_gate_cont.Core.{Node, Selectors}
use node_readiness_gate_cont.Api.{NodeReadinessGateRule, bootstrap_only}
use node_readiness_gate_cont.Client.{Client, Fault, api}
use node_readiness_gate_cont.Bootstrap.{is_bootstrap_completed}
use node_readiness_gate_cont.Evaluation.{evaluate_and_record}
use node_readiness_gate_cont.RuleStatus.{update_rule_status}
use node_readiness_gate_cont.Controller.{State, Outcome, get_applicable_rules_for_node}

module _ (c : Client) where
  -- The evaluation of a rule that is not skipped, and the attempt to store its status, whose error
  -- is only logged.
  unfoldable pub evaluate_cached : String → NodeReadinessGateRule → Node → State c → Node × State c
  evaluate_cached key rule node st =
      let out = evaluate_and_record c rule node st.world in
      let (_, w) = update_rule_status c out.rule out.world in
      (out.node, record st { world = w; cache = insert key out.rule st.cache })

  -- The body of the loop. The check for a completed bootstrap reads the node from the server.
  unfoldable pub process_rule : String → NodeReadinessGateRule → Node → State c → Node × State c
  unfolding evaluate_cached
  process_rule key rule node st =
      let (completed, w) = is_bootstrap_completed c node.name rule.name st.world in
      let read = record st { world = w } in
      if completed && rule.spec.enforcement_mode == bootstrap_only
      then (node, read)
      else if rule.spec.dry_run || st.global_dry_run
      then (node, read)
      else evaluate_cached key rule node read

  unfoldable pub process_rules :
      List (String × NodeReadinessGateRule) → Node → State c → Node × State c
  unfolding process_rule
  process_rules [] node st = (node, st)
  process_rules ((key, rule) ∷ rules) node st =
      let (node', st') = process_rule key rule node st in process_rules rules node' st'

  module _ (sel : Selectors)
      (visit : GoMap NodeReadinessGateRule → GoMap NodeReadinessGateRule) where
    -- It always returns nil.
    unfoldable pub process_node_against_all_rules : Node → State c → Option (Fault c.Err) × State c
    unfolding process_rules get_applicable_rules_for_node
    process_node_against_all_rules node st =
        (none, (process_rules (get_applicable_rules_for_node sel visit st.cache node) node st).1)

    after_process : Option (Fault c.Err) × State c → Outcome c × State c
    after_process (none, st) = (record { requeue_after = 0; failure = none }, st)
    after_process (some f, st) = (record { requeue_after = 60; failure = some f }, st)

    fetched : State c → Result c.Err Node × c.World → Outcome c × State c
    unfolding process_node_against_all_rules after_process
    fetched st (err e, w) = (
      record { requeue_after = 0; failure = if c.is_not_found e then none else some (api e) },
      record st { world = w },
    )
    fetched st (ok node, w) =
        after_process (process_node_against_all_rules node (record st { world = w }))

    unfoldable pub reconcile : String → State c → Outcome c × State c
    unfolding fetched
    reconcile name st = fetched st (c.get_node name st.world)
