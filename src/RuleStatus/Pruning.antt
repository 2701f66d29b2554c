-- ===== src/RuleStatus/Pruning.antt =====
-- What cleanupDeletedNodes stores.
use node_readiness_gate_cont.Prelude.{
  ◌≡◌, refl, sym, ap, subst, ◌∙◌, ◌⊎◌, inl, inr, String, Bool, true, List, Option, none, some,
  Result, ok, err, arith, Bool-cases, eqb, length, eq_iff,
}
use node_readiness_gate_cont.Prelude.GoMap.{GoMap}
use node_readiness_gate_cont.Core.{Node}
use node_readiness_gate_cont.Api.{
  NodeReadinessGateRule, NodeReadinessGateRuleStatus, NodeEvaluation,
}
use node_readiness_gate_cont.Client.{Client, error_of}
use node_readiness_gate_cont.Client.Store.{Store, Retried, last, again}
use node_readiness_gate_cont.Status.{keep_existing, existing_nodes}
use node_readiness_gate_cont.Status.Laws.{evaluation_of, keep_existing_flag, keep_existing_same}
use node_readiness_gate_cont.RuleStatus.Existing.{
  AreStored, IsExisting, keep_existing-AreStored, existing_nodes-IsExisting,
}
use node_readiness_gate_cont.RuleStatus.{
  prune_in, prune_attempt, deleted_listed, cleanup_deleted_nodes,
}

-- The two versions of a rule have the same spec and the same status but for the evaluations. A
-- node that is there has the evaluation that it had; a node that is not there has none in the
-- second version, unless the evaluations in memory had none of such a node either: then the
-- versions are the same.
pub record OnlyPrunes (view : String → Option Node) (mine : List NodeEvaluation)
    (before after : NodeReadinessGateRule) : Type 0 where
  pub spec : after.spec ≡ before.spec
  pub failed : after.status.failed_nodes ≡ before.status.failed_nodes
  pub applied : after.status.applied_nodes ≡ before.status.applied_nodes
  pub observed : after.status.observed_generation ≡ before.status.observed_generation
  pub conditions : after.status.conditions ≡ before.status.conditions
  pub dry_run : after.status.dry_run_results ≡ before.status.dry_run_results
  pub kept :
      (k : String) (n : Node)
      → view k ≡ some n
      → evaluation_of k after.status.node_evaluations
        ≡ evaluation_of k before.status.node_evaluations
  pub dropped :
      (AreStored view mine × (after ≡ before)) ⊎ AreStored view after.status.node_evaluations

module _ (c : Client) (s : Store c) (name : String) where
  -- The stored rule of the name is there as before, but for dropped evaluations.
  abbrev pub Prunes : (String → Option Node) → List NodeEvaluation → c.World → c.World → Type 0
  Prunes view mine w w' =
      (before : NodeReadinessGateRule)
      → s.rule_at w name ≡ some before
      → (after : NodeReadinessGateRule) × (s.rule_at w' name ≡ some after)
        × OnlyPrunes view mine before after

  unpruned :
      (view : String → Option Node) (mine : List NodeEvaluation) (w w' : c.World)
      → s.rule_at w' ≡ s.rule_at w
      → ((before : NodeReadinessGateRule)
          → s.rule_at w name ≡ some before
          → AreStored view mine ⊎ AreStored view before.status.node_evaluations)
      → Prunes view mine w w'
  unpruned view mine w w' rules stored before found = (
    before,
    ap (λ f. f name) rules ∙ found,
    record {
      spec = refl;
      failed = refl;
      applied = refl;
      observed = refl;
      conditions = refl;
      dry_run = refl;
      kept = λ k n h. refl;
      dropped = elim (stored before found) [ inl a ↦ inl (a, refl) | inr b ↦ inr b ];
    },
  )

  record Attempts (view : String → Option Node) (mine : List NodeEvaluation) (w : c.World)
      (out : Option c.Err × c.World) : Type 0 where
    nodes : s.node_at out.1 ≡ s.node_at w
    written : out.0 ≡ none → Prunes view mine w out.1
    conflict : (e : c.Err) → out.0 ≡ some e → c.is_conflict e ≡ true → s.rule_at out.1 ≡ s.rule_at w

  module _ (view : String → Option Node) (mine : List NodeEvaluation) (existing : GoMap Bool)
      (x : IsExisting view existing) where
    -- The rule that the attempt sends.
    pruned : NodeReadinessGateRule → NodeReadinessGateRule
    pruned fresh =
        let status = fresh.status in
        record fresh {
          status = record status {
            node_evaluations = keep_existing existing status.node_evaluations;
          };
        }

    one_rule : (q r : NodeReadinessGateRule) → some q ≡ some r → q ≡ r
    one_rule q r h = cc h

    prune_answer :
        (w v : c.World) (fresh : NodeReadinessGateRule)
        (answer : Result c.Err NodeReadinessGateRule × c.World)
        → s.node_at v ≡ s.node_at w
        → s.rule_at v ≡ s.rule_at w
        → s.rule_at w name ≡ some fresh
        → fresh.name ≡ name
        → c.update_rule_status (pruned fresh) v ≡ answer
        → Attempts view mine w (error_of answer.0, answer.1)
    unfolding pruned
    prune_answer w v fresh (err e, w') nodes rules found named q = record {
      nodes = ap (λ p. s.node_at p.1) (sym q) ∙ s.update_rule_status_nodes v _ ∙ nodes;
      written = λ z. absurd (cc);
      conflict = λ f h k. s.update_rule_status_conflict v w' _ e q (cc) ∙ rules;
    }
    prune_answer w v fresh (ok r, w') nodes rules found named q =
        let (old, had, status, spec, stored) = s.update_rule_status_ok v w' _ r q in
        let one : some old ≡ some fresh =
          sym had ∙ ap (s.rule_at v) named ∙ ap (λ f. f name) rules ∙ found in
        let same : old ≡ fresh = cc one in
        let is_fresh : (before : NodeReadinessGateRule)
            → s.rule_at w name ≡ some before
            → fresh ≡ before =
          λ before this. one_rule fresh before (sym found ∙ this) in
        record {
          nodes = ap (λ p. s.node_at p.1) (sym q) ∙ s.update_rule_status_nodes v _ ∙ nodes;
          written = λ z before this. (
            r,
            ap (λ f. f name) stored ∙ ground (arith, eq_iff fresh.name name),
            record {
              spec = spec ∙ ap (λ (x : NodeReadinessGateRule). x.spec) same ∙ cc;
              failed = ap (λ (x : NodeReadinessGateRuleStatus). x.failed_nodes) status ∙ cc;
              applied = ap (λ (x : NodeReadinessGateRuleStatus). x.applied_nodes) status ∙ cc;
              observed =
                  ap (λ (x : NodeReadinessGateRuleStatus). x.observed_generation) status ∙ cc;
              conditions = ap (λ (x : NodeReadinessGateRuleStatus). x.conditions) status ∙ cc;
              dry_run = ap (λ (x : NodeReadinessGateRuleStatus). x.dry_run_results) status ∙ cc;
              kept = λ k n h.
                  let on = x.live k n h in
                  ap (λ (x : NodeReadinessGateRuleStatus). evaluation_of k x.node_evaluations)
                    status
                  ∙ keep_existing_flag k existing fresh.status.node_evaluations
                  ∙ rw on (
                      ap (λ (r : NodeReadinessGateRule). evaluation_of k r.status.node_evaluations)
                        (is_fresh before this));
              dropped = inr (λ k gone.
                  ap (λ (x : NodeReadinessGateRuleStatus). evaluation_of k x.node_evaluations)
                    status
                  ∙ keep_existing-AreStored view existing fresh.status.node_evaluations x k gone);
            },
          );
          conflict = λ e h k. absurd (cc);
        }

    prune_in-Attempts :
        (w : c.World) (read : Result c.Err NodeReadinessGateRule × c.World)
        → c.get_rule name w ≡ read
        → Attempts view mine w (prune_in c existing read)
    unfolding prune_in pruned
    prune_in-Attempts w (err e, v) q = record {
      nodes = ap (λ p. s.node_at p.1) (sym q) ∙ s.get_rule_nodes w name;
      written = λ z. absurd (cc);
      conflict = λ f h k. ap (λ p. s.rule_at p.1) (sym q) ∙ s.get_rule_rules w name;
    }
    prune_in-Attempts w (ok fresh, v) q =
        let (found, named) = s.get_rule_ok w v name fresh q in
        let nodes = ap (λ p. s.node_at p.1) (sym q) ∙ s.get_rule_nodes w name in
        let rules = ap (λ p. s.rule_at p.1) (sym q) ∙ s.get_rule_rules w name in
        elim (Bool-cases (
          eqb (length (keep_existing existing fresh.status.node_evaluations))
            (length fresh.status.node_evaluations))) [
              | inl same ↦ rw same (record {
                nodes = nodes;
                written = λ z. unpruned view mine w v rules (λ before this. inr (
                    subst (λ (r : NodeReadinessGateRule). AreStored view r.status.node_evaluations)
                      (one_rule fresh before (sym found ∙ this))
                      (subst (λ es. AreStored view es)
                        (keep_existing_same existing fresh.status.node_evaluations (ground arith))
                        (keep_existing-AreStored view existing fresh.status.node_evaluations x))));
                conflict = λ e h k. rules;
              })
              | inr fewer ↦ rw fewer (prune_answer w v fresh _ nodes rules found named refl)
            ]

    Retried-prune :
        {w : c.World} {out : Option c.Err × c.World}
        → Retried c.is_conflict (prune_attempt c existing name) w out
        → (s.node_at out.1 ≡ s.node_at w) × (out.0 ≡ none → Prunes view mine w out.1)
    unfolding prune_attempt
    Retried-prune {w} (last e) = let a = prune_in-Attempts w _ refl in rw (← e) (a.nodes, a.written)
    Retried-prune {w} {out} (again {w' = w'} {e = f} e conflict r) =
        let (nodes, written) = Retried-prune r in
        let a : Attempts view mine w (some f, w') = rw e at (prune_in-Attempts w _ refl) in
        let kept = a.conflict f refl conflict in
        (nodes ∙ a.nodes, λ z before found. written z before (ap (λ f. f name) kept ∙ found))

module _ (c : Client) (s : Store c) (rule : NodeReadinessGateRule) where
  pub cleanup_deleted_nodes-Prunes :
      (w : c.World)
      → let (failure, w') = cleanup_deleted_nodes c rule w in
        (s.node_at w' ≡ s.node_at w)
        × (failure ≡ none → Prunes c s rule.name (s.node_at w) rule.status.node_evaluations w w')
  unfolding cleanup_deleted_nodes
  cleanup_deleted_nodes-Prunes w = listed (c.list_nodes w) refl
    where
      listed :
          (answer : Result c.Err (List Node) × c.World)
          → c.list_nodes w ≡ answer
          → let (failure, w') = deleted_listed c rule answer in
            (s.node_at w' ≡ s.node_at w)
            × (failure ≡ none
                → Prunes c s rule.name (s.node_at w) rule.status.node_evaluations w w')
      listed (err e, v) q =
          (ap (λ p. s.node_at p.1) (sym q) ∙ s.list_nodes_nodes w, λ z. absurd (cc))
      listed (ok nodes, v) q =
          let read = ap (λ p. s.node_at p.1) (sym q) ∙ s.list_nodes_nodes w in
          let rules = ap (λ p. s.rule_at p.1) (sym q) ∙ s.list_nodes_rules w in
          let existing = existing_nodes nodes in
          let mine = rule.status.node_evaluations in
          let x = existing_nodes-IsExisting (s.node_at w) nodes (s.list_nodes_ok w v nodes q).1 in
          elim (Bool-cases (
            eqb (length (keep_existing existing rule.status.node_evaluations))
              (length rule.status.node_evaluations))) [
                | inl same ↦
                    let tidy : AreStored (s.node_at w) mine =
                      subst (λ es. AreStored (s.node_at w) es)
                        (keep_existing_same existing mine (ground arith))
                        (keep_existing-AreStored (s.node_at w) existing mine x) in
                    rw same (
                      read,
                      λ z. unpruned c s rule.name (s.node_at w) mine w v rules (λ b f. inl tidy),
                    )
                | inr fewer ↦
                    let (kept, written) =
                      Retried-prune c s rule.name (s.node_at w) mine existing x
                        (s.retry_on_conflict_lem (prune_attempt c existing rule.name) v) in
                    rw fewer (
                      kept ∙ read,
                      λ z before found. written z before (ap (λ f. f rule.name) rules ∙ found),
                    )
              ]

  -- The cleanup of deleted nodes, if it ends without an error while nobody else writes, changes no
  -- node, and of the stored rule no part of the spec or the status but the evaluations. What a
  -- reader finds for a stored node is what it found before. For a node that is not stored it finds
  -- nothing, unless the evaluations of the rule in memory had none of such a node: then the stored
  -- rule is as it was.
  pub cleanup_deleted_nodes-OnlyPrunes :
      (w : c.World) (before : NodeReadinessGateRule)
      → s.rule_at w rule.name ≡ some before
      → (cleanup_deleted_nodes c rule w).0 ≡ none
      → ((after : NodeReadinessGateRule) × (s.rule_at (cleanup_deleted_nodes c rule w).1 rule.name
            ≡ some after)
          × OnlyPrunes (s.node_at w) rule.status.node_evaluations before after)
        × (s.node_at (cleanup_deleted_nodes c rule w).1 ≡ s.node_at w)
  cleanup_deleted_nodes-OnlyPrunes w before found h =
      let (nodes, prunes) = cleanup_deleted_nodes-Prunes w in (prunes h before found, nodes)
