-- ===== src/RuleReconciler/Storing.antt =====
-- The last two steps of a reconciliation, which store the status.
use node_readiness_gate_cont.Prelude.{
  ◌≡◌, refl, sym, ap, subst, ◌∙◌, String, true, false, not, Option, none, some, all,
}
use node_readiness_gate_cont.Core.{Node, Selectors}
use node_readiness_gate_cont.Api.{NodeReadinessGateRule, NodeReadinessGateRuleSpec}
use node_readiness_gate_cont.Client.{Client}
use node_readiness_gate_cont.Client.Store.{Store}
use node_readiness_gate_cont.Conditions.Laws.{is_met}
use node_readiness_gate_cont.Taints.{has_taint_by_spec}
use node_readiness_gate_cont.Selection.{rule_applies_to}
use node_readiness_gate_cont.Evaluation.Effect.{IsSettled}
use node_readiness_gate_cont.Evaluation.Failure.{has_failure}
use node_readiness_gate_cont.AllNodes.{applies}
use node_readiness_gate_cont.AllNodes.Convergence.{HasConverged}
use node_readiness_gate_cont.RuleStatus.{update_rule_status, cleanup_deleted_nodes}
use node_readiness_gate_cont.RuleStatus.Laws.{IsStored, update_rule_status_outcome}
use node_readiness_gate_cont.RuleStatus.Pruning.{Prunes, cleanup_deleted_nodes-Prunes}
use node_readiness_gate_cont.Controller.{State, Outcome}
use node_readiness_gate_cont.RuleReconciler.Steps.{
  Flow, Step, continue, ◌>>=◌, ◌>>◌, done, attempted, attempt, lifted,
}
use node_readiness_gate_cont.RuleReconciler.{minute, outcome_of, process, store_status}

-- The reconciliation has ended without an error.
abbrev pub HasNoError : {c : Client} → Flow c (Outcome c) × State c → Type 0
HasNoError p = (outcome_of p.0).failure ≡ none

module _ (c : Client) (sel : Selectors) (s : Store c) where
  -- The rule is stored as it is in memory.
  abbrev pub IsOwn : NodeReadinessGateRule → c.World → Type 0
  IsOwn rule w = s.rule_at w rule.name ≡ some rule

  -- What holds of the store for a stored rule: its selected nodes are settled or have failed.
  abbrev pub IsInForce : NodeReadinessGateRule → c.World → Type 0
  IsInForce rule w =
      (k : String) (n : Node)
      → s.node_at w k ≡ some n
      → applies c sel rule n ≡ true
      → has_failure k rule ≡ false
      → IsSettled rule n

  -- The failures of one rule and the spec of another decide whether the nodes are in line.
  IsInForce-congr :
      (owned result after : NodeReadinessGateRule) (w w' : c.World)
      → ((k : String) (n : Node)
          → s.node_at w k ≡ some n
          → applies c sel owned n ≡ true
          → has_failure k result ≡ false
          → IsSettled owned n)
      → s.node_at w' ≡ s.node_at w
      → after.spec ≡ owned.spec
      → after.status.failed_nodes ≡ result.status.failed_nodes
      → IsInForce after w'
  IsInForce-congr owned result after w w' h nodes spec failed k n stored a f =
      subst
        (λ (q : NodeReadinessGateRuleSpec).
          has_taint_by_spec n.taints q.taint ≡ not (all (is_met n.conditions) q.conditions))
        (sym spec)
        (h k n (ap (λ g. g k) (sym nodes) ∙ stored)
          (ap (λ (q : NodeReadinessGateRuleSpec). rule_applies_to sel q.node_selector n.labels)
              (sym spec)
            ∙ a)
          (rw (← failed) f))

  -- The last two steps, and the steps from the evaluation of the nodes on.
  abbrev pub conclude : NodeReadinessGateRule → Step c (Outcome c)
  conclude result = store_status c sel result >> done

  abbrev pub finish : NodeReadinessGateRule → Step c (Outcome c)
  finish owned = process c sel owned >>= conclude

  -- The owned rule is stored and in force.
  abbrev pub IsEnforced : NodeReadinessGateRule → c.World → Type 0
  IsEnforced owned w =
      (after : NodeReadinessGateRule) × (s.rule_at w owned.name ≡ some after)
      × (after.spec ≡ owned.spec)
      × IsInForce after w

  module _ (owned result : NodeReadinessGateRule) (w0 : c.World)
      (name : result.name ≡ owned.name) where
    -- The stored rule is found under the name of the rule in memory.
    enforced :
        (u v w : c.World)
        → IsOwn owned u
        → HasConverged c sel s owned w0 result u
        → s.node_at v ≡ s.node_at u
        → IsStored c s result u v
        → s.node_at w ≡ s.node_at v
        → Prunes c s result.name (s.node_at v) result.status.node_evaluations v w
        → IsEnforced owned w
    enforced u v w own converged nodes (before, mid, found, stored, m, spec, _) nodes' prunes =
        let (after, last, only) = prunes mid stored in
        let one : some before ≡ some owned = sym found ∙ ap (s.rule_at u) name ∙ own in
        let same : before ≡ owned = cc one in
        let after_spec = only.spec ∙ spec ∙ ap (λ (r : NodeReadinessGateRule). r.spec) same in
        (
          after,
          ap (s.rule_at w) (sym name) ∙ last,
          after_spec,
          IsInForce-congr owned result after u w converged.0 (nodes' ∙ nodes) after_spec
              (only.failed ∙ m.failed),
        )

    pruned_status :
        (st : State c) (u : c.World) (p : Option c.Err × c.World)
        → cleanup_deleted_nodes c result st.world ≡ p
        → IsOwn owned u
        → HasConverged c sel s owned w0 result u
        → s.node_at st.world ≡ s.node_at u
        → IsStored c s result u st.world
        → let end = continue (attempted st minute (lifted c p)) (λ _. done {A = Outcome c}) in
          HasNoError end → IsEnforced owned end.1.world
    pruned_status st u (some e, w) q own converged nodes stored h = absurd (cc)
    pruned_status st u (none, w) q own converged nodes stored h =
        let (kept, prunes) = cleanup_deleted_nodes-Prunes c s result st.world in
        enforced u st.world w own converged nodes stored (ap (λ p. s.node_at p.1) (sym q) ∙ kept) (
          subst
            (λ p.
              p.0 ≡ none
              → Prunes c s result.name (s.node_at st.world) result.status.node_evaluations st.world
                  p.1)
            q prunes refl)

    updated_status :
        (st : State c) (p : Option c.Err × c.World)
        → update_rule_status c result st.world ≡ p
        → IsOwn owned st.world
        → HasConverged c sel s owned w0 result st.world
        → let end =
            continue
              (continue
                (attempted st minute (lifted c p))
                (λ _. attempt minute (λ w. lifted c (cleanup_deleted_nodes c result w))))
              (λ _. done {A = Outcome c}) in
          HasNoError end → IsEnforced owned end.1.world
    updated_status st (some e, w) q own converged h = absurd (cc)
    updated_status st (none, w) q own converged h =
        let (kept, written) = update_rule_status_outcome c s result st.world in
        pruned_status (record st { world = w }) st.world _ refl own converged
          (ap (λ p. s.node_at p.1) (sym q) ∙ kept)
          (subst (λ p. p.0 ≡ none → IsStored c s result st.world p.1) q written refl) h

    pub store_status-IsEnforced :
        (st : State c)
        → IsOwn owned st.world
        → HasConverged c sel s owned w0 result st.world
        → HasNoError (conclude result st)
        → IsEnforced owned (conclude result st).1.world
    unfolding store_status
    store_status-IsEnforced st own converged h =
        updated_status st (update_rule_status c result st.world) refl own converged h
