-- ===== src/RuleReconciler.antt =====
-- The reconciliation of a rule: RuleReconciler.Reconcile (internal/controller/
-- nodereadinessgaterule_controller.go).
pub mod Steps
pub mod Storing
pub mod Enforcing
pub mod Convergence
pub mod Deletion
pub mod DryRun
pub mod Quiet
pub mod Caching
pub mod Owning
pub mod Generations
pub mod Stable
use node_readiness_gate_cont.Prelude.{
  String, Bool, true, false, not, Option, none, some, Result, ok, err, if◌then◌else◌,
}
use node_readiness_gate_cont.Core.{Selectors, Time}
use node_readiness_gate_cont.Api.{NodeReadinessGateRule}
use node_readiness_gate_cont.Client.{Client, Fault, api}
use node_readiness_gate_cont.Finalizers.{
  finalizer_name, contains_finalizer, add_finalizer, remove_finalizer,
}
use node_readiness_gate_cont.Selection.{node_selector_changed}
use node_readiness_gate_cont.Cleanup.{cleanup_taints_for_rule, cleanup_nodes_after_selector_change}
use node_readiness_gate_cont.AllNodes.{process_all_nodes_for_rule}
use node_readiness_gate_cont.DryRun.{process_dry_run}
use node_readiness_gate_cont.RuleStatus.{update_rule_status, cleanup_deleted_nodes}
use node_readiness_gate_cont.Controller.{
  State, Outcome, update_rule_cache, get_cached_rule, remove_rule_from_cache,
}
use Steps.{
  Flow, stop, go, Step, ◌>>=◌, ◌>>◌, done, fail, modify, attempted, attempt, called, call, lifted,
}

-- `time.Minute`.
abbrev pub minute : Time
minute = 60

-- The end of a reconciliation that has run to a `return`.
abbrev pub outcome_of : {c : Client} → Flow c (Outcome c) → Outcome c
outcome_of (stop o) = o
outcome_of (go o) = o

module _ (c : Client) (sel : Selectors) where
  -- The rule is fetched; one that is gone is dropped from the cache.
  fetched :
      String
      → State c
      → Result c.Err NodeReadinessGateRule × c.World
      → Flow c NodeReadinessGateRule × State c
  fetched name st (ok rule, w) = (go rule, record st { world = w })
  fetched name st (err e, w) =
      let read = record st { world = w } in
      if c.is_not_found e then done (remove_rule_from_cache c name read) else fail 0 (api e) read

  fetch : String → Step c NodeReadinessGateRule
  unfolding fetched
  fetch name st = fetched name st (c.get_rule name st.world)

  -- The finalizer is removed, and then the cache entry.
  release : NodeReadinessGateRule → Step c (Outcome c)
  release rule = do
    released ← call (c.update_rule (remove_finalizer rule finalizer_name))
    modify (remove_rule_from_cache c released.name)
    done

  clean_and_release : NodeReadinessGateRule → Step c (Outcome c)
  unfolding release
  clean_and_release rule = do attempt minute (cleanup_taints_for_rule c sel rule); release rule

  -- The branch for a rule with a deletion timestamp.
  unfoldable pub reconcile_deletion : NodeReadinessGateRule → Step c (Outcome c)
  unfolding clean_and_release
  reconcile_deletion rule =
      if contains_finalizer rule finalizer_name then clean_and_release rule else done

  adopt : String → NodeReadinessGateRule → Step c NodeReadinessGateRule
  adopt name rule = do
    _ ← call (c.update_rule (add_finalizer rule finalizer_name))
    call (c.get_rule name)

  -- The rule with its finalizer, read back if it had to be added.
  pub ensure_finalizer : String → NodeReadinessGateRule → Step c NodeReadinessGateRule
  unfolding adopt
  ensure_finalizer name rule =
      if not (contains_finalizer rule finalizer_name)
      then adopt name rule
      else (λ st. (go rule, st))

  -- The nodes that only the cached selector matched are cleaned.
  clean_old_nodes : NodeReadinessGateRule → Option NodeReadinessGateRule → Step c (Unit {0})
  clean_old_nodes rule none st = (go tt, st)
  clean_old_nodes rule (some cached) st =
      if node_selector_changed rule.spec.node_selector cached.spec.node_selector
      then attempt minute (cleanup_nodes_after_selector_change c sel cached rule) st
      else (go tt, st)

  pub leave_selector : NodeReadinessGateRule → Step c (Unit {0})
  unfolding clean_old_nodes
  leave_selector rule st = clean_old_nodes rule (get_cached_rule c st rule.name) st

  processed :
      State c
      → Option (Fault c.Err) × NodeReadinessGateRule × c.World
      → Flow c NodeReadinessGateRule × State c
  processed st (none, rule, w) = (go rule, record st { world = w })
  processed st (some f, rule, w) = fail minute f (record st { world = w })

  -- `rule.Status.DryRunResults = nil`.
  without_dry_run : NodeReadinessGateRule → NodeReadinessGateRule
  without_dry_run rule =
      let status = rule.status in record rule { status = record status { dry_run_results = none } }

  -- The dry run, or the evaluation of all nodes.
  pub process : NodeReadinessGateRule → Step c NodeReadinessGateRule
  unfolding processed without_dry_run
  process rule st = processed st (
      if rule.spec.dry_run
      then process_dry_run sel c rule st.world
      else process_all_nodes_for_rule c sel (without_dry_run rule) st.world)

  -- The status is stored, and the evaluations of deleted nodes are dropped from it.
  pub store_status : NodeReadinessGateRule → Step c (Unit {0})
  store_status rule = do
    attempt minute (λ w. lifted c (update_rule_status c rule w))
    attempt minute (λ w. lifted c (cleanup_deleted_nodes c rule w))

  -- The branch for a rule that is not being deleted.
  unfoldable pub reconcile_live : String → NodeReadinessGateRule → Step c (Outcome c)
  unfolding ensure_finalizer leave_selector process store_status
  reconcile_live name rule = do
    owned ← ensure_finalizer name rule
    leave_selector owned
    modify (update_rule_cache c owned)
    result ← process owned
    store_status result
    done

  by_deletion : String → NodeReadinessGateRule → Option Time → Step c (Outcome c)
  unfolding reconcile_deletion reconcile_live
  by_deletion name rule (some _) = reconcile_deletion rule
  by_deletion name rule none = reconcile_live name rule

  unfoldable pub reconcile : String → State c → Outcome c × State c
  unfolding fetch by_deletion
  reconcile name st =
      let (flow, st') = (fetch name >>= λ rule. by_deletion name rule rule.deletion_timestamp) st in
      (outcome_of flow, st')
