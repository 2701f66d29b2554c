-- ===== src/RuleReconciler/Caching.antt =====
-- The cache under the reconciliation of a rule.
use node_readiness_gate_cont.Prelude.{
  refl, inl, inr, String, Bool, true, false, not, Option, none, some, Result, ok, err, Bool-cases,
  if◌then◌else◌,
}
use node_readiness_gate_cont.Core.{Selectors, Time}
use node_readiness_gate_cont.Api.{NodeReadinessGateRule}
use node_readiness_gate_cont.Client.{Client, Fault}
use node_readiness_gate_cont.Finalizers.{
  finalizer_name, contains_finalizer, add_finalizer, remove_finalizer,
}
use node_readiness_gate_cont.AllNodes.{process_all_nodes_for_rule}
use node_readiness_gate_cont.DryRun.{process_dry_run}
use node_readiness_gate_cont.RuleStatus.{update_rule_status, cleanup_deleted_nodes}
use node_readiness_gate_cont.Selection.{node_selector_changed}
use node_readiness_gate_cont.Cleanup.{cleanup_taints_for_rule, cleanup_nodes_after_selector_change}
use node_readiness_gate_cont.Controller.{
  State, Outcome, update_rule_cache, get_cached_rule, remove_rule_from_cache,
}
use node_readiness_gate_cont.Controller.Laws.{IsNamed, insert-IsNamed, delete-IsNamed}
use node_readiness_gate_cont.RuleReconciler.Steps.{
  Flow, stop, go, Step, continue, ◌>>=◌, ◌>>◌, done, modify, attempted, attempt, called, call,
  lifted,
}
use node_readiness_gate_cont.RuleReconciler.{
  minute, release, clean_and_release, reconcile_deletion, clean_old_nodes, leave_selector,
  processed, process, without_dry_run, store_status, adopt, ensure_finalizer, reconcile_live,
  by_deletion, fetched, reconcile,
}

module _ (c : Client) where
  -- The step ends with a sound cache if it starts with one.
  abbrev Keeps : {A : Type 0} → Step c A → Type 0
  Keeps m = (st : State c) → IsNamed st.cache → IsNamed (m st).1.cache

  next-IsNamed :
      {A B : Type 0} (p : Flow c A × State c) (k : A → Step c B)
      → IsNamed p.1.cache
      → ((a : A) → Keeps (k a))
      → IsNamed (continue p k).1.cache
  next-IsNamed (stop o, st) k i h = i
  next-IsNamed (go a, st) k i h = h a st i

  attempted-IsNamed :
      (st : State c) (t : Time) (p : Option (Fault c.Err) × c.World)
      → IsNamed st.cache
      → IsNamed (attempted st t p).1.cache
  attempted-IsNamed st t (none, w) i = i
  attempted-IsNamed st t (some e, w) i = i

  called-IsNamed :
      {A : Type 0} (st : State c) (p : Result c.Err A × c.World)
      → IsNamed st.cache
      → IsNamed (called st p).1.cache
  called-IsNamed st (ok a, w) i = i
  called-IsNamed st (err e, w) i = i

  module _ (sel : Selectors) where
    release-Keeps : (rule : NodeReadinessGateRule) → Keeps (release c sel rule)
    unfolding release remove_rule_from_cache
    release-Keeps rule st i =
        let a = c.update_rule (remove_finalizer rule finalizer_name) st.world in
        next-IsNamed {B = Outcome c} (called st a)
          (λ released. modify (remove_rule_from_cache c released.name) >> done)
          (called-IsNamed st a i)
          (λ (released : NodeReadinessGateRule) st' i'. delete-IsNamed released.name st'.cache i')

    clean-Keeps : (rule : NodeReadinessGateRule) → Keeps (clean_and_release c sel rule)
    unfolding clean_and_release
    clean-Keeps rule st i =
        let p = cleanup_taints_for_rule c sel rule st.world in
        next-IsNamed (attempted st minute p) (λ _. release c sel rule)
          (attempted-IsNamed st minute p i) (λ _. release-Keeps rule)

    deletion-Keeps : (rule : NodeReadinessGateRule) → Keeps (reconcile_deletion c sel rule)
    unfolding reconcile_deletion
    deletion-Keeps rule st i = chosen (contains_finalizer rule finalizer_name)
      where
        chosen :
            (b : Bool)
            → IsNamed
                ((if b then clean_and_release c sel rule else done {A = Outcome c}) st).1.cache
        chosen true = clean-Keeps rule st i
        chosen false = i

    adopt-Keeps : (name : String) (rule : NodeReadinessGateRule) → Keeps (adopt c sel name rule)
    unfolding adopt
    adopt-Keeps name rule st i =
        let a = c.update_rule (add_finalizer rule finalizer_name) st.world in
        next-IsNamed (called st a) (λ _. call (c.get_rule name)) (called-IsNamed st a i)
          (λ _ st' i'. called-IsNamed st' (c.get_rule name st'.world) i')

    ensure-Keeps :
        (name : String) (rule : NodeReadinessGateRule) → Keeps (ensure_finalizer c sel name rule)
    unfolding ensure_finalizer
    ensure-Keeps name rule st i = chosen (contains_finalizer rule finalizer_name)
      where
        chosen :
            (b : Bool)
            → IsNamed ((if not b then adopt c sel name rule else (λ st. (go rule, st))) st).1.cache
        chosen true = i
        chosen false = adopt-Keeps name rule st i

    leave-Keeps : (rule : NodeReadinessGateRule) → Keeps (leave_selector c sel rule)
    unfolding leave_selector clean_old_nodes
    leave-Keeps rule st i = by_cache (get_cached_rule c st rule.name)
      where
        by_cache :
            (o : Option NodeReadinessGateRule) → IsNamed (clean_old_nodes c sel rule o st).1.cache
        by_cache none = i
        by_cache (some old) =
            chosen (node_selector_changed rule.spec.node_selector old.spec.node_selector)
          where
            chosen :
                (b : Bool)
                → IsNamed
                    (if b
                      then attempt minute (cleanup_nodes_after_selector_change c sel old rule) st
                      else (go tt, st)).1.cache
            chosen true =
                attempted-IsNamed st minute
                  (cleanup_nodes_after_selector_change c sel old rule st.world) i
            chosen false = i

    processed-IsNamed :
        (st : State c) (p : Option (Fault c.Err) × NodeReadinessGateRule × c.World)
        → IsNamed st.cache
        → IsNamed (processed c sel st p).1.cache
    unfolding processed
    processed-IsNamed st (none, r, w) i = i
    processed-IsNamed st (some f, r, w) i = i

    store-Keeps : (rule : NodeReadinessGateRule) → Keeps (store_status c sel rule)
    unfolding store_status
    store-Keeps rule st i =
        let p = lifted c (update_rule_status c rule st.world) in
        next-IsNamed (attempted st minute p)
          (λ _. attempt minute (λ w. lifted c (cleanup_deleted_nodes c rule w)))
          (attempted-IsNamed st minute p i)
          (λ _ st' i'.
            attempted-IsNamed st' minute (lifted c (cleanup_deleted_nodes c rule st'.world)) i')

    process-Keeps : (rule : NodeReadinessGateRule) → Keeps (process c sel rule)
    unfolding process
    process-Keeps rule st i =
        processed-IsNamed st
          (if rule.spec.dry_run
            then process_dry_run sel c rule st.world
            else process_all_nodes_for_rule c sel (without_dry_run c sel rule) st.world)
          i

    last-Keeps :
        (rule : NodeReadinessGateRule)
        → Keeps (process c sel rule >>= λ result. store_status c sel result >> done {A = Outcome c})
    last-Keeps rule st i =
        next-IsNamed (process c sel rule st)
          (λ result. store_status c sel result >> done {A = Outcome c}) (process-Keeps rule st i)
          (λ result st' i'.
            next-IsNamed (store_status c sel result st') (λ _. done {A = Outcome c})
              (store-Keeps result st' i') (λ _ st2 i2. i2))

    -- The steps once the rule has its finalizer.
    abbrev owned_steps : NodeReadinessGateRule → Step c (Outcome c)
    owned_steps owned =
        leave_selector c sel owned
        >> (modify (update_rule_cache c owned)
            >> (process c sel owned >>= λ result. store_status c sel result >> done))

    owned-Keeps : (owned : NodeReadinessGateRule) → Keeps (owned_steps owned)
    unfolding update_rule_cache
    owned-Keeps owned st i =
        next-IsNamed (leave_selector c sel owned st)
          (λ _.
            modify (update_rule_cache c owned)
            >> (process c sel owned >>= λ result. store_status c sel result >> done))
          (leave-Keeps owned st i)
          (λ _ st' i'.
            last-Keeps owned (update_rule_cache c owned st')
              (insert-IsNamed owned.name owned st'.cache refl i'))

    live-Keeps :
        (name : String) (rule : NodeReadinessGateRule) → Keeps (reconcile_live c sel name rule)
    unfolding reconcile_live
    live-Keeps name rule st i =
        next-IsNamed (ensure_finalizer c sel name rule st) owned_steps (ensure-Keeps name rule st i)
          owned-Keeps

    alive-Keeps :
        (name : String) (rule : NodeReadinessGateRule) (deleted : Option Time)
        → Keeps (by_deletion c sel name rule deleted)
    unfolding by_deletion
    alive-Keeps name rule (some t) = deletion-Keeps rule
    alive-Keeps name rule none = live-Keeps name rule

    fetched-IsNamed :
        (name : String) (st : State c) (a : Result c.Err NodeReadinessGateRule × c.World)
        → IsNamed st.cache
        → IsNamed (fetched c sel name st a).1.cache
    unfolding fetched remove_rule_from_cache
    fetched-IsNamed name st (ok rule, w) i = i
    fetched-IsNamed name st (err e, w) i = elim (Bool-cases (c.is_not_found e)) [
      | inl gone ↦ rw gone (delete-IsNamed name st.cache i)
      | inr broken ↦ rw broken i
    ]

    pub reconcile_rule-IsNamed :
        (name : String) (st : State c)
        → IsNamed st.cache
        → IsNamed (reconcile c sel name st).1.cache
    unfolding reconcile
    reconcile_rule-IsNamed name st i =
        next-IsNamed (fetched c sel name st (c.get_rule name st.world))
          (λ rule. by_deletion c sel name rule rule.deletion_timestamp)
          (fetched-IsNamed name st (c.get_rule name st.world) i)
          (λ rule. alive-Keeps name rule rule.deletion_timestamp)
