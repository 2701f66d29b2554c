-- ===== src/RuleReconciler/Enforcing.antt =====
-- The steps of a reconciliation once the rule has its finalizer.
use node_readiness_gate_cont.Prelude.{
  ◌≡◌, refl, ap, subst, ◌∙◌, inl, inr, true, false, List, Option, none, some, Result, ok, err,
  Bool-cases,
}
use node_readiness_gate_cont.Core.{Node, Selectors}
use node_readiness_gate_cont.Api.{NodeReadinessGateRule}
use node_readiness_gate_cont.Client.{Client, Fault}
use node_readiness_gate_cont.Client.Store.{Store}
use node_readiness_gate_cont.Selection.{node_selector_changed}
use node_readiness_gate_cont.Cleanup.{cleanup_nodes_after_selector_change}
use node_readiness_gate_cont.Cleanup.Laws.{cleanup_nodes_after_selector_change-IsCleaned}
use node_readiness_gate_cont.AllNodes.{process_all_nodes_for_rule}
use node_readiness_gate_cont.AllNodes.Laws.{IsPass, process_all_nodes_for_rule-IsPass}
use node_readiness_gate_cont.AllNodes.Convergence.{
  HasConverged, process_all_nodes_for_rule-HasConverged,
}
use node_readiness_gate_cont.Controller.{State, Outcome, update_rule_cache, get_cached_rule}
use node_readiness_gate_cont.RuleReconciler.Steps.{go, Step, continue, ◌>>◌, modify, attempted}
use node_readiness_gate_cont.RuleReconciler.{
  minute, clean_old_nodes, leave_selector, processed, without_dry_run, process,
}
use node_readiness_gate_cont.RuleReconciler.Storing.{
  HasNoError, IsOwn, conclude, finish, IsEnforced, store_status-IsEnforced,
}

module _ (c : Client) (sel : Selectors) (s : Store c) where
  pass_name :
      (rule : NodeReadinessGateRule) (answer : Result c.Err (List Node) × c.World)
      (p : Option (Fault c.Err) × NodeReadinessGateRule × c.World)
      → IsPass c sel rule answer p
      → p.0 ≡ none
      → p.1.name ≡ rule.name
  pass_name rule (ok nodes, v) (f, r, w) h e = h.1.name
  pass_name rule (err x, v) (f, r, w) h e = absurd (h.0 e)

  processed-IsEnforced :
      (owned : NodeReadinessGateRule) (st : State c)
      (p : Option (Fault c.Err) × NodeReadinessGateRule × c.World)
      → process_all_nodes_for_rule c sel (without_dry_run c sel owned) st.world ≡ p
      → IsOwn c sel s owned st.world
      → let end = continue (processed c sel st p) (conclude c sel s) in
        HasNoError end → IsEnforced c sel s owned end.1.world
  unfolding processed without_dry_run
  processed-IsEnforced owned st (some f, result, w) q own h = absurd (cc)
  processed-IsEnforced owned st (none, result, w) q own h =
      let converged =
        subst
          (λ p. p.0 ≡ none → HasConverged c sel s (without_dry_run c sel owned) st.world p.1 p.2) q
          (process_all_nodes_for_rule-HasConverged c sel s (without_dry_run c sel owned) st.world)
          refl in
      let name : result.name ≡ owned.name =
        pass_name (without_dry_run c sel owned) _ (none, result, w)
          (subst (IsPass c sel (without_dry_run c sel owned) (c.list_nodes st.world)) q
            (process_all_nodes_for_rule-IsPass c sel (without_dry_run c sel owned) st.world))
          refl in
      store_status-IsEnforced c sel s owned result st.world name (record st { world = w })
        (ap (λ f. f owned.name) converged.1 ∙ own) converged h

  process_real :
      (owned : NodeReadinessGateRule) (st : State c)
      → owned.spec.dry_run ≡ false
      → process c sel owned st
        ≡ processed c sel st
            (process_all_nodes_for_rule c sel (without_dry_run c sel owned) st.world)
  unfolding process
  process_real owned st real = rw (real, process)

  clean_changed :
      (owned old : NodeReadinessGateRule) (st : State c)
      → node_selector_changed owned.spec.node_selector old.spec.node_selector ≡ true
      → clean_old_nodes c sel owned (some old) st
        ≡ attempted st minute (cleanup_nodes_after_selector_change c sel old owned st.world)
  unfolding clean_old_nodes
  clean_changed owned old st h = rw (h, clean_old_nodes)

  clean_same :
      (owned old : NodeReadinessGateRule) (st : State c)
      → node_selector_changed owned.spec.node_selector old.spec.node_selector ≡ false
      → clean_old_nodes c sel owned (some old) st ≡ (go tt, st)
  unfolding clean_old_nodes
  clean_same owned old st h = rw (h, clean_old_nodes)

  -- A rule that is not a dry run, from the cache's update on.
  finish-IsEnforced :
      (owned : NodeReadinessGateRule) (st : State c)
      → owned.spec.dry_run ≡ false
      → IsOwn c sel s owned st.world
      → HasNoError (finish c sel s owned st)
      → IsEnforced c sel s owned (finish c sel s owned st).1.world
  finish-IsEnforced owned st real own h =
      let e = process_real owned st real in
      rw e (processed-IsEnforced owned st _ refl own (rw e at h))

  -- The steps once the rule has its finalizer.
  abbrev pub enforce : NodeReadinessGateRule → Step c (Outcome c)
  enforce owned =
      leave_selector c sel owned >> (modify (update_rule_cache c owned) >> finish c sel s owned)

  changed-IsEnforced :
      (owned : NodeReadinessGateRule) (st : State c) (u : c.World)
      (p : Option (Fault c.Err) × c.World)
      → owned.spec.dry_run ≡ false
      → IsOwn c sel s owned u
      → (p.0 ≡ none → s.rule_at p.1 ≡ s.rule_at u)
      → let end =
          continue
            (attempted st minute p)
            (λ _. modify (update_rule_cache c owned) >> finish c sel s owned) in
        HasNoError end → IsEnforced c sel s owned end.1.world
  unfolding update_rule_cache
  changed-IsEnforced owned st u (some f, w) real own kept h = absurd (cc)
  changed-IsEnforced owned st u (none, w) real own kept h =
      finish-IsEnforced owned (update_rule_cache c owned (record st { world = w })) real
        (ap (λ f. f owned.name) (kept refl) ∙ own) h

  pub enforce-IsEnforced :
      (owned : NodeReadinessGateRule) (st : State c)
      → owned.spec.dry_run ≡ false
      → IsOwn c sel s owned st.world
      → HasNoError (enforce owned st)
      → IsEnforced c sel s owned (enforce owned st).1.world
  unfolding leave_selector
  enforce-IsEnforced owned st real own = by_cache (get_cached_rule c st owned.name)
    where
      by_cache :
          (cached : Option NodeReadinessGateRule)
          → let end =
              continue
                (clean_old_nodes c sel owned cached st)
                (λ _. modify (update_rule_cache c owned) >> finish c sel s owned) in
            HasNoError end → IsEnforced c sel s owned end.1.world
      by_cache none h =
          unfold update_rule_cache in
          finish-IsEnforced owned (update_rule_cache c owned st) real own h
      by_cache (some old) h =
          elim (Bool-cases
            (node_selector_changed owned.spec.node_selector old.spec.node_selector)) [
              | inl changed ↦
                  let e = clean_changed owned old st changed in
                  rw e (
                    changed-IsEnforced owned st st.world _ real own
                      (λ z.
                        (cleanup_nodes_after_selector_change-IsCleaned c sel s old owned st.world
                          z).1)
                      (rw e at h))
              | inr same ↦
                  let e = clean_same owned old st same in
                  rw e (
                    unfold update_rule_cache in
                    finish-IsEnforced owned (update_rule_cache c owned st) real own (rw e at h))
            ]
