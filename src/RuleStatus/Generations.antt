-- ===== src/RuleStatus/Generations.antt =====
-- The generations of the stored rules under the writes of the status (updateRuleStatus and
-- cleanupDeletedNodes).
use node_readiness_gate_cont.Prelude.{
  ◌≡◌, refl, sym, ap, subst, ◌∙◌, inl, inr, String, Bool, List, Option, some, Result, ok, err,
  Bool-cases, eqb, length,
}
use node_readiness_gate_cont.Prelude.GoMap.{GoMap}
use node_readiness_gate_cont.Core.{Node}
use node_readiness_gate_cont.Api.{NodeReadinessGateRule}
use node_readiness_gate_cont.Client.{Client}
use node_readiness_gate_cont.Client.Store.{Store, Retried, last, again}
use node_readiness_gate_cont.Status.{keep_existing, existing_nodes}
use node_readiness_gate_cont.RuleStatus.{
  merged, merge_in, merge_attempt, update_rule_status, prune_in, prune_attempt, deleted_listed,
  cleanup_deleted_nodes,
}

module _ (c : Client) (s : Store c) where
  -- Every rule that is stored in the end was stored in the beginning with the same generation.
  abbrev pub KeepsGenerations : c.World → c.World → Type 0
  KeepsGenerations w w' =
      (k : String) (new : NodeReadinessGateRule)
      → s.rule_at w' k ≡ some new
      → (old : NodeReadinessGateRule) × (s.rule_at w k ≡ some old)
        × (new.generation ≡ old.generation)

  pub KeepsGenerations-trans :
      (u v w : c.World) → KeepsGenerations u v → KeepsGenerations v w → KeepsGenerations u w
  KeepsGenerations-trans u v w p q k new h =
      let (mid, there, later) = q k new h in
      let (old, here, first) = p k mid there in (old, here, later ∙ first)

  pub same-KeepsGenerations : (w w' : c.World) → s.rule_at w' ≡ s.rule_at w → KeepsGenerations w w'
  same-KeepsGenerations w w' e k new h = (new, sym (ap (λ f. f k) e) ∙ h, refl)

  Retried-KeepsGenerations :
      (f : c.World → Option c.Err × c.World) (w : c.World) (out : Option c.Err × c.World)
      → ((v : c.World) → KeepsGenerations v (f v).1)
      → Retried c.is_conflict f w out
      → KeepsGenerations w out.1
  Retried-KeepsGenerations f w out h (last e) =
      subst (λ (p : Option c.Err × c.World). KeepsGenerations w p.1) e (h w)
  Retried-KeepsGenerations f w out h (again {w' = w'} e conflict r) =
      KeepsGenerations-trans w w' out.1
        (subst (λ (p : Option c.Err × c.World). KeepsGenerations w p.1) e (h w))
        (Retried-KeepsGenerations f w' out h r)

  -- A read, and the write of a status that follows it.
  read_rules :
      (w v : c.World) (name : String) (a : Result c.Err NodeReadinessGateRule)
      → c.get_rule name w ≡ (a, v)
      → KeepsGenerations w v
  read_rules w v name a q =
      same-KeepsGenerations w v (ap (λ p. s.rule_at p.1) (sym q) ∙ s.get_rule_rules w name)

  merge_attempt-KeepsGenerations :
      (rule : NodeReadinessGateRule) (w : c.World) → KeepsGenerations w (merge_attempt c rule w).1
  unfolding merge_attempt
  merge_attempt-KeepsGenerations rule w = answered (c.get_rule rule.name w) refl
    where
      answered :
          (a : Result c.Err NodeReadinessGateRule × c.World)
          → c.get_rule rule.name w ≡ a
          → KeepsGenerations w (merge_in c rule a).1
      answered (err e, v) q = unfold merge_in in read_rules w v rule.name (err e) q
      answered (ok latest, v) q =
          unfold merge_in in
          KeepsGenerations-trans w v (c.update_rule_status (merged latest rule) v).1
            (read_rules w v rule.name (ok latest) q)
            (s.update_rule_status_generation v (merged latest rule))

  -- However the update of the status ends, it changes no generation of a stored rule.
  pub update_rule_status-KeepsGenerations :
      (rule : NodeReadinessGateRule) (w : c.World)
      → KeepsGenerations w (update_rule_status c rule w).1
  unfolding update_rule_status
  update_rule_status-KeepsGenerations rule w =
      Retried-KeepsGenerations (merge_attempt c rule) w _ (merge_attempt-KeepsGenerations rule)
        (s.retry_on_conflict_lem (merge_attempt c rule) w)

  prune_attempt-KeepsGenerations :
      (existing : GoMap Bool) (name : String) (w : c.World)
      → KeepsGenerations w (prune_attempt c existing name w).1
  unfolding prune_attempt
  prune_attempt-KeepsGenerations existing name w = answered (c.get_rule name w) refl
    where
      answered :
          (a : Result c.Err NodeReadinessGateRule × c.World)
          → c.get_rule name w ≡ a
          → KeepsGenerations w (prune_in c existing a).1
      answered (err e, v) q = unfold prune_in in read_rules w v name (err e) q
      answered (ok fresh, v) q =
          let read = read_rules w v name (ok fresh) q in
          let kept = keep_existing existing fresh.status.node_evaluations in
          elim (Bool-cases (eqb (length kept) (length fresh.status.node_evaluations))) [
            | inl same ↦ unfold prune_in in rw same read
            | inr fewer ↦
                unfold prune_in in
                rw fewer (KeepsGenerations-trans w v _ read (s.update_rule_status_generation v _))
          ]

  pub cleanup_deleted_nodes-KeepsGenerations :
      (rule : NodeReadinessGateRule) (w : c.World)
      → KeepsGenerations w (cleanup_deleted_nodes c rule w).1
  unfolding cleanup_deleted_nodes
  cleanup_deleted_nodes-KeepsGenerations rule w = listed (c.list_nodes w) refl
    where
      listed :
          (a : Result c.Err (List Node) × c.World)
          → c.list_nodes w ≡ a
          → KeepsGenerations w (deleted_listed c rule a).1
      listed (err e, v) q =
          unfold deleted_listed in
          same-KeepsGenerations w v (ap (λ p. s.rule_at p.1) (sym q) ∙ s.list_nodes_rules w)
      listed (ok nodes, v) q =
          let read =
            same-KeepsGenerations w v (ap (λ p. s.rule_at p.1) (sym q) ∙ s.list_nodes_rules w) in
          let existing = existing_nodes nodes in
          let kept = keep_existing existing rule.status.node_evaluations in
          elim (Bool-cases (eqb (length kept) (length rule.status.node_evaluations))) [
            | inl same ↦ unfold deleted_listed in rw same read
            | inr fewer ↦
                unfold deleted_listed in
                rw fewer (
                  KeepsGenerations-trans w v _ read (
                    Retried-KeepsGenerations (prune_attempt c existing rule.name) v _
                      (prune_attempt-KeepsGenerations existing rule.name)
                      (s.retry_on_conflict_lem (prune_attempt c existing rule.name) v)))
          ]
