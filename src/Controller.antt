-- ===== src/Controller.antt =====
-- The state that the reconcilers share, ReadinessGateController: its rule cache with
-- updateRuleCache, getCachedRule and removeRuleFromCache, SetGlobalDryRun,
-- getApplicableRulesForNode and NewReadinessGateController (internal/controller/
-- nodereadinessgaterule_controller.go). Calls that hold the cache's lock are single steps here, and
-- a deep copy is the value itself.
pub mod Laws
use node_readiness_gate_cont.Prelude.{String, Bool, true, false, List, [], ◌∷◌, Option, filter}
use node_readiness_gate_cont.Prelude.GoMap.{GoMap, lookup, insert, delete}
use node_readiness_gate_cont.Core.{Node, Selectors, Time}
use node_readiness_gate_cont.Api.{NodeReadinessGateRule}
use node_readiness_gate_cont.Client.{Client, Fault}
use node_readiness_gate_cont.Selection.{rule_applies_to}

-- The state of the controller and of the world behind its client.
pub record State (c : Client) : Type 0 where
  pub world : c.World
  pub cache : GoMap NodeReadinessGateRule
  pub global_dry_run : Bool

-- `ctrl.Result` and the error of a reconciliation.
pub record Outcome (c : Client) : Type 0 where
  pub requeue_after : Time
  pub failure : Option (Fault c.Err)

module _ (c : Client) where
  unfoldable pub new_controller : c.World → State c
  new_controller w = record { world = w; cache = []; global_dry_run = false }

  unfoldable pub update_rule_cache : NodeReadinessGateRule → State c → State c
  update_rule_cache rule st = record st { cache = insert rule.name rule st.cache }

  unfoldable pub get_cached_rule : State c → String → Option NodeReadinessGateRule
  get_cached_rule st name = lookup name st.cache

  unfoldable pub remove_rule_from_cache : String → State c → State c
  remove_rule_from_cache name st = record st { cache = delete name st.cache }

  unfoldable pub set_global_dry_run : Bool → State c → State c
  set_global_dry_run dry_run st = record st { global_dry_run = dry_run }

-- `range` visits the entries of a map in an order of its own, which `visit` stands for. An entry
-- is kept with its key, since the source keeps a pointer into the cache.
unfoldable pub get_applicable_rules_for_node :
    Selectors
    → (GoMap NodeReadinessGateRule → GoMap NodeReadinessGateRule)
    → GoMap NodeReadinessGateRule
    → Node
    → List (String × NodeReadinessGateRule)
get_applicable_rules_for_node sel visit cache node =
    filter (λ e. rule_applies_to sel e.1.spec.node_selector node.labels) (visit cache)
