-- ===== src/RuleReconciler/Quiet.antt =====
-- The steps of the reconciliation of a rule that write no node.
use node_readiness_gate_cont.Prelude.{
  ◌≡◌, refl, ap, ◌∙◌, ◌⊎◌, inl, inr, String, Bool, true, false, Option, none, some, if◌then◌else◌,
}
use node_readiness_gate_cont.Core.{Node, Selectors}
use node_readiness_gate_cont.Api.{NodeReadinessGateRule, NodeReadinessGateRuleSpec}
use node_readiness_gate_cont.Client.{Client, Fault}
use node_readiness_gate_cont.Client.Store.{Store}
use node_readiness_gate_cont.Selection.{node_selector_changed}
use node_readiness_gate_cont.AllNodes.{process_all_nodes_for_rule}
use node_readiness_gate_cont.AllNodes.Quiet.{IsCalm, process_all_nodes_calm}
use node_readiness_gate_cont.DryRun.{process_dry_run}
use node_readiness_gate_cont.DryRun.Laws.{process_dry_run_only}
use node_readiness_gate_cont.RuleStatus.{update_rule_status, cleanup_deleted_nodes}
use node_readiness_gate_cont.RuleStatus.Laws.{update_rule_status_outcome}
use node_readiness_gate_cont.RuleStatus.Pruning.{cleanup_deleted_nodes-Prunes}
use node_readiness_gate_cont.Controller.{State, Outcome, update_rule_cache, get_cached_rule}
use node_readiness_gate_cont.RuleReconciler.Steps.{
  Flow, stop, go, Step, continue, ◌>>◌, done, modify, attempted, attempt, lifted,
}
use node_readiness_gate_cont.RuleReconciler.{
  minute, clean_old_nodes, leave_selector, processed, process, without_dry_run, store_status,
}
use node_readiness_gate_cont.RuleReconciler.Storing.{conclude, finish}
use node_readiness_gate_cont.RuleReconciler.Enforcing.{enforce}

module _ (c : Client) (sel : Selectors) (s : Store c) where
  lifted_world : (p : Option c.Err × c.World) → (lifted c p).1 ≡ p.1
  lifted_world (none, w) = refl
  lifted_world (some e, w) = refl

  -- An attempt whose call keeps the nodes, followed by what keeps them, keeps them.
  attempted_nodes :
      {B : Type 0} (st : State c) (p : Option (Fault c.Err) × c.World) (k : Unit {0} → Step c B)
      → ((v : c.World) → s.node_at (k tt (record st { world = v })).1.world ≡ s.node_at v)
      → s.node_at (continue (attempted st minute p) k).1.world ≡ s.node_at p.1
  attempted_nodes st (none, w) k h = h w
  attempted_nodes st (some f, w) k h = refl

  attempted_world :
      (st : State c) (p : Option (Fault c.Err) × c.World) → (attempted st minute p).1.world ≡ p.1
  attempted_world st (none, w) = refl
  attempted_world st (some f, w) = refl

  done_world :
      (p : Flow c (Unit {0}) × State c)
      → (continue p (λ _. done {A = Outcome c})).1.world ≡ p.1.world
  done_world (stop o, st) = refl
  done_world (go a, st) = refl

  cleanup_nodes :
      (rule : NodeReadinessGateRule) (st : State c) (v : c.World)
      → s.node_at
          (attempted
            (record st { world = v })
            minute
            (lifted c (cleanup_deleted_nodes c rule v))).1.world
        ≡ s.node_at v
  cleanup_nodes rule st v =
      ap s.node_at (
        attempted_world (record st { world = v }) (lifted c (cleanup_deleted_nodes c rule v))
        ∙ lifted_world (cleanup_deleted_nodes c rule v))
      ∙ (cleanup_deleted_nodes-Prunes c s rule v).0

  store_status_nodes :
      (rule : NodeReadinessGateRule) (st : State c)
      → s.node_at (conclude c sel s rule st).1.world ≡ s.node_at st.world
  unfolding store_status
  store_status_nodes rule st =
      let update = update_rule_status c rule st.world in
      ap s.node_at (done_world _)
      ∙ attempted_nodes st (lifted c update)
          (λ _. attempt minute (λ w. lifted c (cleanup_deleted_nodes c rule w)))
          (cleanup_nodes rule st)
      ∙ ap s.node_at (lifted_world update)
      ∙ (update_rule_status_outcome c s rule st.world).0

  processed_nodes :
      (st : State c) (p : Option (Fault c.Err) × NodeReadinessGateRule × c.World)
      → s.node_at (continue (processed c sel st p) (conclude c sel s)).1.world ≡ s.node_at p.2
  unfolding processed
  processed_nodes st (none, rule, w) = store_status_nodes rule (record st { world = w })
  processed_nodes st (some f, rule, w) = refl

  -- The rule is a dry run, or every stored node is as the rule wants it.
  abbrev pub LeavesNodes : NodeReadinessGateRuleSpec → (String → Option Node) → Type 0
  LeavesNodes spec view =
      (spec.dry_run ≡ true) ⊎ ((k : String) (n : Node) → view k ≡ some n → IsCalm sel spec n)

  pass_nodes :
      (owned : NodeReadinessGateRule) (w : c.World) (b : Bool)
      → owned.spec.dry_run ≡ b
      → LeavesNodes owned.spec (s.node_at w)
      → s.node_at
          (if b
            then process_dry_run sel c owned w
            else process_all_nodes_for_rule c sel (without_dry_run c sel owned) w).2
        ≡ s.node_at w
  unfolding without_dry_run
  pass_nodes owned w true q h =
      ap s.node_at (process_dry_run_only sel owned c w).0 ∙ s.list_nodes_nodes w
  pass_nodes owned w false q (inl dry) = absurd (cc)
  pass_nodes owned w false q (inr calm) =
      process_all_nodes_calm c sel s (without_dry_run c sel owned) w calm

  process_nodes_kept :
      (owned : NodeReadinessGateRule) (st : State c)
      → LeavesNodes owned.spec (s.node_at st.world)
      → s.node_at (finish c sel s owned st).1.world ≡ s.node_at st.world
  unfolding process
  process_nodes_kept owned st h =
      processed_nodes st (
        if owned.spec.dry_run
        then process_dry_run sel c owned st.world
        else process_all_nodes_for_rule c sel (without_dry_run c sel owned) st.world)
      ∙ pass_nodes owned st.world owned.spec.dry_run refl h

  pub enforce_nodes :
      (owned : NodeReadinessGateRule) (st : State c)
      → LeavesNodes owned.spec (s.node_at st.world)
      → ((old : NodeReadinessGateRule)
          → get_cached_rule c st owned.name ≡ some old
          → node_selector_changed owned.spec.node_selector old.spec.node_selector ≡ false)
      → s.node_at (enforce c sel s owned st).1.world ≡ s.node_at st.world
  unfolding leave_selector
  enforce_nodes owned st calm same = by_cache (get_cached_rule c st owned.name) same
    where
      by_cache :
          (cached : Option NodeReadinessGateRule)
          → ((old : NodeReadinessGateRule)
              → cached ≡ some old
              → node_selector_changed owned.spec.node_selector old.spec.node_selector ≡ false)
          → s.node_at
              (continue
                (clean_old_nodes c sel owned cached st)
                (λ _. modify (update_rule_cache c owned) >> finish c sel s owned)).1.world
            ≡ s.node_at st.world
      by_cache none h =
          unfold update_rule_cache in process_nodes_kept owned (update_rule_cache c owned st) calm
      by_cache (some old) h =
          unfold update_rule_cache in
          rw (h old refl) (process_nodes_kept owned (update_rule_cache c owned st) calm)
