-- ===== src/History.antt =====
-- The histories of the controller: its reconcilers run one after the other, in any order, the flag
-- of the global dry run is set, and others change the world in between. A run of a reconciler is
-- one step here, so runs of the two controllers that overlap are not covered.
use node_readiness_gate_cont.Prelude.{◌≡◌, String, Bool, [], ◌∷◌, All, arith, eq_iff, eq_refl}
use node_readiness_gate_cont.Prelude.GoMap.{GoMap, lookup}
use node_readiness_gate_cont.Core.{Selectors}
use node_readiness_gate_cont.Api.{NodeReadinessGateRule}
use node_readiness_gate_cont.Client.{Client}
use node_readiness_gate_cont.Controller.{State, new_controller, set_global_dry_run}
use node_readiness_gate_cont.Controller.Laws.{IsNamed}
use node_readiness_gate_cont.RuleReconciler
use node_readiness_gate_cont.RuleReconciler.Caching.{reconcile_rule-IsNamed}
use node_readiness_gate_cont.NodeReconciler
use node_readiness_gate_cont.NodeReconciler.Laws.{reconcile-IsNamed}

rest-IsNamed :
    (k : String) (v : NodeReadinessGateRule) (m : GoMap NodeReadinessGateRule)
    → IsNamed ((k, v) ∷ m)
    → IsNamed m
unfolding lookup
rest-IsNamed k v m i = record {
  distinct = i.distinct.1;
  own = λ j r found. i.own j r (ground (arith, eq_iff k j, i.distinct.0));
}

-- An entry of the list is what a look-up of its key finds.
entries_named : (m : GoMap NodeReadinessGateRule) → IsNamed m → All (λ e. e.1.name ≡ e.0) m
unfolding lookup
entries_named [] i = tt
entries_named ((k, v) ∷ m) i =
    (i.own k v (ground (arith, eq_refl k)), entries_named m (rest-IsNamed k v m i))

module _ (c : Client) (sel : Selectors)
    (visit : GoMap NodeReadinessGateRule → GoMap NodeReadinessGateRule) where
  -- `range` visits no entry that is not in the map: what holds of all entries holds of the visited.
  abbrev pub VisitsEntries : Type 1
  VisitsEntries =
      (P : String × NodeReadinessGateRule → Type 0) (m : GoMap NodeReadinessGateRule)
      → All P m
      → All P (visit m)

  pub data IsReachable : State c → Type 0 where
    started : (w : c.World) → IsReachable (new_controller c w)
    rule_reconciled :
        {st : State c} (name : String)
        → IsReachable st
        → IsReachable (RuleReconciler.reconcile c sel name st).1
    node_reconciled :
        {st : State c} (name : String)
        → IsReachable st
        → IsReachable (NodeReconciler.reconcile c sel visit name st).1
    dry_run_set :
        {st : State c} (dry_run : Bool)
        → IsReachable st
        → IsReachable (set_global_dry_run c dry_run st)
    world_changed :
        {st : State c} (w : c.World) → IsReachable st → IsReachable (record st { world = w })

  -- However the reconcilers, changes of the flag and writes of others follow on each other, each
  -- rule is cached at most once and under its own name.
  pub IsReachable-IsNamed : VisitsEntries → {st : State c} → IsReachable st → IsNamed st.cache
  unfolding new_controller set_global_dry_run lookup
  IsReachable-IsNamed v (started w) = record { distinct = tt; own = λ k r h. absurd (cc) }
  IsReachable-IsNamed v (rule_reconciled {st = st} name h) =
      reconcile_rule-IsNamed c sel name st (IsReachable-IsNamed v h)
  IsReachable-IsNamed v (node_reconciled {st = st} name h) =
      let i = IsReachable-IsNamed v h in
      reconcile-IsNamed c sel visit name st
        (v (λ e. e.1.name ≡ e.0) st.cache (entries_named st.cache i)) i
  IsReachable-IsNamed v (dry_run_set dry_run h) = IsReachable-IsNamed v h
  IsReachable-IsNamed v (world_changed w h) = IsReachable-IsNamed v h
