-- ===== src/RuleStatus/Laws.antt =====
-- What updateRuleStatus stores.
use node_readiness_gate_cont.Prelude.{
  ◌≡◌, refl, sym, ap, ◌∙◌, true, Option, none, some, Result, ok, err, arith, eq_iff,
}
use node_readiness_gate_cont.Api.{NodeReadinessGateRule, NodeReadinessGateRuleStatus}
use node_readiness_gate_cont.Client.{Client, error_of}
use node_readiness_gate_cont.Client.Store.{Store, Retried, last, again}
use node_readiness_gate_cont.RuleStatus.{merged, merge_in, merge_attempt, update_rule_status}

-- The five fields that a status update writes are those of the rule in memory.
pub record IsMerged (rule stored : NodeReadinessGateRule) : Type 0 where
  pub evaluations : stored.status.node_evaluations ≡ rule.status.node_evaluations
  pub applied : stored.status.applied_nodes ≡ rule.status.applied_nodes
  pub failed : stored.status.failed_nodes ≡ rule.status.failed_nodes
  pub observed : stored.status.observed_generation ≡ rule.status.observed_generation
  pub dry_run : stored.status.dry_run_results ≡ rule.status.dry_run_results

module _ (c : Client) (s : Store c) (rule : NodeReadinessGateRule) where
  -- The stored rule has the status that was written, the spec and the conditions that it had.
  abbrev pub IsStored : c.World → c.World → Type 0
  IsStored w w' =
      (before after : NodeReadinessGateRule) × (s.rule_at w rule.name ≡ some before)
      × (s.rule_at w' rule.name ≡ some after)
      × IsMerged rule after
      × (after.spec ≡ before.spec)
      × (after.status.conditions ≡ before.status.conditions)

  -- What an attempt does: no node changes; without an error the status is stored; after a conflict
  -- no rule has changed.
  record Attempts (w : c.World) (out : Option c.Err × c.World) : Type 0 where
    nodes : s.node_at out.1 ≡ s.node_at w
    written : out.0 ≡ none → IsStored w out.1
    conflict : (e : c.Err) → out.0 ≡ some e → c.is_conflict e ≡ true → s.rule_at out.1 ≡ s.rule_at w

  merge_answer :
      (w v : c.World) (latest : NodeReadinessGateRule)
      (answer : Result c.Err NodeReadinessGateRule × c.World)
      → s.node_at v ≡ s.node_at w
      → s.rule_at v ≡ s.rule_at w
      → s.rule_at w rule.name ≡ some latest
      → latest.name ≡ rule.name
      → c.update_rule_status (merged latest rule) v ≡ answer
      → Attempts w (error_of answer.0, answer.1)
  unfolding merged
  merge_answer w v latest (err e, w') nodes rules found named q = record {
    nodes = ap (λ p. s.node_at p.1) (sym q) ∙ s.update_rule_status_nodes v _ ∙ nodes;
    written = λ z. absurd (cc);
    conflict = λ f h k. s.update_rule_status_conflict v w' _ e q (cc) ∙ rules;
  }
  merge_answer w v latest (ok r, w') nodes rules found named q =
      let (old, had, status, spec, stored) = s.update_rule_status_ok v w' _ r q in
      let one : some old ≡ some latest =
        sym had ∙ ap (s.rule_at v) named ∙ ap (λ f. f rule.name) rules ∙ found in
      let same : old ≡ latest = cc one in
      record {
        nodes = ap (λ p. s.node_at p.1) (sym q) ∙ s.update_rule_status_nodes v _ ∙ nodes;
        written = λ z. (
          latest,
          r,
          found,
          ap (λ f. f rule.name) stored ∙ ground (arith, eq_iff latest.name rule.name),
          record {
            evaluations = ap (λ (x : NodeReadinessGateRuleStatus). x.node_evaluations) status;
            applied = ap (λ (x : NodeReadinessGateRuleStatus). x.applied_nodes) status;
            failed = ap (λ (x : NodeReadinessGateRuleStatus). x.failed_nodes) status;
            observed = ap (λ (x : NodeReadinessGateRuleStatus). x.observed_generation) status;
            dry_run = ap (λ (x : NodeReadinessGateRuleStatus). x.dry_run_results) status;
          },
          spec ∙ ap (λ (x : NodeReadinessGateRule). x.spec) same,
          ap (λ (x : NodeReadinessGateRuleStatus). x.conditions) status,
        );
        conflict = λ e h k. absurd (cc);
      }

  merge_in-Attempts :
      (w : c.World) (read : Result c.Err NodeReadinessGateRule × c.World)
      → c.get_rule rule.name w ≡ read
      → Attempts w (merge_in c rule read)
  unfolding merge_in
  merge_in-Attempts w (err e, v) q = record {
    nodes = ap (λ p. s.node_at p.1) (sym q) ∙ s.get_rule_nodes w rule.name;
    written = λ z. absurd (cc);
    conflict = λ f h k. ap (λ p. s.rule_at p.1) (sym q) ∙ s.get_rule_rules w rule.name;
  }
  merge_in-Attempts w (ok latest, v) q =
      let (found, named) = s.get_rule_ok w v rule.name latest q in
      merge_answer w v latest _ (ap (λ p. s.node_at p.1) (sym q) ∙ s.get_rule_nodes w rule.name)
        (ap (λ p. s.rule_at p.1) (sym q) ∙ s.get_rule_rules w rule.name) found named refl

  Retried-merge :
      {w : c.World} {out : Option c.Err × c.World}
      → Retried c.is_conflict (merge_attempt c rule) w out
      → (s.node_at out.1 ≡ s.node_at w) × (out.0 ≡ none → IsStored w out.1)
  unfolding merge_attempt
  Retried-merge {w} (last e) = let a = merge_in-Attempts w _ refl in rw (← e) (a.nodes, a.written)
  Retried-merge {w} {out} (again {w' = w'} {e = x} e conflict r) =
      let (nodes, written) = Retried-merge r in
      let a : Attempts w (some x, w') = rw e at (merge_in-Attempts w _ refl) in
      let kept = a.conflict x refl conflict in
      (
        nodes ∙ a.nodes,
        λ z.
            let (before, after, found, rest, m, spec, conditions) = written z in
            (before, after, sym (ap (λ f. f rule.name) kept) ∙ found, rest, m, spec, conditions),
      )

  pub update_rule_status_outcome :
      (w : c.World)
      → let (failure, w') = update_rule_status c rule w in
        (s.node_at w' ≡ s.node_at w) × (failure ≡ none → IsStored w w')
  unfolding update_rule_status
  update_rule_status_outcome w = Retried-merge (s.retry_on_conflict_lem (merge_attempt c rule) w)

  -- A status update that ends without an error has stored, over whatever the status was, the
  -- evaluations, applied nodes, failed nodes, observed generation and dry run results of the rule
  -- in memory, and has left the stored spec and conditions; no node has changed.
  pub update_rule_status-IsStored :
      (w : c.World)
      → (update_rule_status c rule w).0 ≡ none
      → IsStored w (update_rule_status c rule w).1
        × (s.node_at (update_rule_status c rule w).1 ≡ s.node_at w)
  update_rule_status-IsStored w h =
      let (nodes, written) = update_rule_status_outcome w in (written h, nodes)
