-- ===== src/DryRun.antt =====
-- processDryRun (internal/controller/nodereadinessgaterule_controller.go): the counters of what a
-- rule would do, and their summary.
pub mod Laws
use node_readiness_gate_cont.Prelude.{
  ℕ, ◌+◌, String, Bool, true, false, not, ◌&&◌, List, [], ◌∷◌, ◌++◌, Option, none, some, Result, ok,
  err, ◌==◌, ltb, eqb, length, if◌then◌else◌, ◌<>◌, join, decimal,
}
use node_readiness_gate_cont.Core.{Node, NodeCondition, Selectors, condition_unknown}
use node_readiness_gate_cont.Api.{
  NodeReadinessGateRule, NodeReadinessGateRuleSpec, ConditionRequirement, DryRunResults,
}
use node_readiness_gate_cont.Client.{Client, Fault, api}
use node_readiness_gate_cont.Conditions.{get_condition_status}
use node_readiness_gate_cont.Taints.{has_taint_by_spec}
use node_readiness_gate_cont.Selection.{rule_applies_to}

-- The loop over the required conditions, with `allConditionsSatisfied` and `missingConditions`.
unfoldable pub simulate : List NodeCondition → Bool → ℕ → List ConditionRequirement → Bool × ℕ
simulate conditions satisfied missing [] = (satisfied, missing)
simulate conditions satisfied missing (req ∷ reqs) =
    let current = get_condition_status conditions req.kind in
    simulate conditions (if not (current == req.required_status) then false else satisfied)
      (if current == condition_unknown then missing + 1 else missing) reqs

pub record Counters : Type 0 where
  pub affected : ℕ
  pub to_add : ℕ
  pub to_remove : ℕ
  pub risky : ℕ

-- The round for a node that the rule selects.
unfoldable pub count_node : NodeReadinessGateRuleSpec → Counters → Node → Counters
unfolding simulate
count_node spec n node =
    let (should_remove, missing) = simulate node.conditions true 0 spec.conditions in
    let has = has_taint_by_spec node.taints spec.taint in
    record {
      affected = n.affected + 1;
      to_add =
          if should_remove && has
          then n.to_add
          else if not should_remove && not has
          then n.to_add + 1
          else n.to_add;
      to_remove = if should_remove && has then n.to_remove + 1 else n.to_remove;
      risky = if ltb 0 missing then n.risky + 1 else n.risky;
    }

-- `append` under an `if`.
abbrev pub part : Bool → String → List String
part b s = if b then s ∷ [] else []

unfoldable pub summary_of : Counters → String
summary_of n =
    let parts =
      part (ltb 0 n.to_add) ("would add " <> decimal n.to_add <> " taints")
      ++ (part (ltb 0 n.to_remove) ("would remove " <> decimal n.to_remove <> " taints")
          ++ part (ltb 0 n.risky) (decimal n.risky <> " nodes have missing conditions")) in
    if ltb 0 (length parts) then join ", " parts else "No changes needed"

module _ (sel : Selectors) where
  unfoldable pub count_nodes : NodeReadinessGateRuleSpec → Counters → List Node → Counters
  count_nodes spec n [] = n
  count_nodes spec n (node ∷ nodes) =
      count_nodes spec
        (if not (rule_applies_to sel spec.node_selector node.labels)
          then n
          else count_node spec n node)
        nodes

  unfoldable pub dry_run_results : NodeReadinessGateRuleSpec → List Node → DryRunResults
  unfolding count_nodes count_node summary_of
  dry_run_results spec nodes =
      let n =
        count_nodes spec (record { affected = 0; to_add = 0; to_remove = 0; risky = 0 }) nodes in
      record {
        affected_nodes = n.affected;
        taints_to_add = n.to_add;
        taints_to_remove = n.to_remove;
        risky_operations = n.risky;
        summary = summary_of n;
      }

  module _ (c : Client) where
    dry_run_listed :
        NodeReadinessGateRule
        → Result c.Err (List Node) × c.World
        → Option (Fault c.Err) × NodeReadinessGateRule × c.World
    unfolding dry_run_results
    dry_run_listed rule (err e, w) = (some (api e), rule, w)
    dry_run_listed rule (ok nodes, w) =
        let status = rule.status in
        let results = some (dry_run_results rule.spec nodes) in
        (none, record rule { status = record status { dry_run_results = results } }, w)

    unfoldable pub process_dry_run :
        NodeReadinessGateRule → c.World → Option (Fault c.Err) × NodeReadinessGateRule × c.World
    unfolding dry_run_listed
    process_dry_run rule w = dry_run_listed rule (c.list_nodes w)
