-- ===== src/Main/Requeue.antt =====
-- The running program: runs of both reconcilers against the watch of the rules that cmd/main.go
-- registers by RuleReconciler.SetupWithManager.
use node_readiness_gate_cont.Prelude.{◌≡◌, refl, ◌∙◌, String, true, false, some, any, arith}
use node_readiness_gate_cont.Prelude.GoMap.{GoMap}
use node_readiness_gate_cont.Core.{Selectors}
use node_readiness_gate_cont.Api.{NodeReadinessGateRule}
use node_readiness_gate_cont.Client.{Client}
use node_readiness_gate_cont.Client.Store.{Store}
use node_readiness_gate_cont.Events.{generation_changed}
use node_readiness_gate_cont.RuleStatus.Generations.{
  KeepsGenerations, KeepsGenerations-trans, same-KeepsGenerations,
}
use node_readiness_gate_cont.Controller.{State}
use node_readiness_gate_cont.NodeReconciler
use node_readiness_gate_cont.NodeReconciler.Generations.{node_run-KeepsGenerations}
use node_readiness_gate_cont.RuleReconciler
use node_readiness_gate_cont.RuleReconciler.Generations.{rule_run-KeepsGenerations}
use node_readiness_gate_cont.Setup.{Runtime, Watching, IsWatching, updated}
use node_readiness_gate_cont.Main.{Flags}
use node_readiness_gate_cont.Main.Laws.{calls_made, is_start}
use node_readiness_gate_cont.Main.Watches.{rule_passes, rule_event_passes}

module _ (c : Client) (sel : Selectors)
    (visit : GoMap NodeReadinessGateRule → GoMap NodeReadinessGateRule) where
  -- Any number of runs of the two reconcilers, in any order.
  pub data Runs : State c → State c → Type 0 where
    finished : {st : State c} → Runs st st
    rule_run :
        {st st' : State c} (name : String)
        → Runs (RuleReconciler.reconcile c sel name st).1 st'
        → Runs st st'
    node_run :
        {st st' : State c} (name : String)
        → Runs (NodeReconciler.reconcile c sel visit name st).1 st'
        → Runs st st'

  module _ (s : Store c) where
    Runs-KeepsGenerations :
        (st st' : State c) → Runs st st' → KeepsGenerations c s st.world st'.world
    Runs-KeepsGenerations st st' finished = same-KeepsGenerations c s st.world st.world refl
    Runs-KeepsGenerations st st' (rule_run name r) =
        let mid = (RuleReconciler.reconcile c sel name st).1 in
        KeepsGenerations-trans c s st.world mid.world st'.world
          (rule_run-KeepsGenerations c s sel name st) (Runs-KeepsGenerations mid st' r)
    Runs-KeepsGenerations st st' (node_run name r) =
        let mid = (NodeReconciler.reconcile c sel visit name st).1 in
        KeepsGenerations-trans c s st.world mid.world st'.world
          (node_run-KeepsGenerations c s sel visit name st) (Runs-KeepsGenerations mid st' r)

    -- Once the program has started the manager, for any runs of the two reconcilers, whatever calls
    -- fail in them, while nobody else writes: a rule that is stored after the runs was stored
    -- before them, and the update event from its version before the runs to its version after them
    -- passes no watch that the program has registered for the rule reconciler. Rules that the runs
    -- delete by releasing their finalizer and new attempts of failed runs are not spoken of.
    pub Runs-rule_passes :
        (v : Watching) (l : IsWatching v) (r : Runtime) (flags : Flags) (w : r.World)
        (st st' : State c)
        → any is_start (calls_made r flags w) ≡ true
        → Runs st st'
        → (k : String) (new : NodeReadinessGateRule) → s.rule_at st'.world k ≡ some new
        → (old : NodeReadinessGateRule) × (s.rule_at st.world k ≡ some old)
          × (any (rule_passes v (updated old new)) (calls_made r flags w) ≡ false)
    Runs-rule_passes v l r flags w st st' started runs k new stored =
        let (old, there, same) = Runs-KeepsGenerations st st' runs k new stored in
        let (_, _, passes) = rule_event_passes v l r flags w started old new in
        (old, there, passes ∙ kept old new same)
      where
        kept :
            (old new : NodeReadinessGateRule)
            → new.generation ≡ old.generation
            → generation_changed old new ≡ false
        kept old new h = unfold generation_changed in ground arith
