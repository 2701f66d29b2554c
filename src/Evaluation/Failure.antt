-- ===== src/Evaluation/Failure.antt =====
-- The failures in the status of a rule (recordNodeFailure) under evaluations.
use node_readiness_gate_cont.Prelude.{
  ◌≡◌, refl, ap, ◌∙◌, ◌≢◌, inl, inr, String, Bool, true, false, ◌&&◌, ◌||◌, List, [], ◌∷◌, Option,
  none, some, Result, ok, err, arith, ◌==◌, eq_iff, Option-cases, any,
}
use node_readiness_gate_cont.Core.{Node, Taint, Time}
use node_readiness_gate_cont.Api.{NodeReadinessGateRule, ConditionEvaluationResult, NodeFailure}
use node_readiness_gate_cont.Client.{Client, Fault, text_of}
use node_readiness_gate_cont.Status.{record_node_failures}
use node_readiness_gate_cont.Status.Laws.{is_failure_of}
use node_readiness_gate_cont.Evaluation.{
  Evaluated, patched, patch_taints, add_taint_by_spec, remove_taint_by_spec, record_evaluation,
  after_remove, after_add, evaluate_rule_for_node, record_node_failure, evaluate_and_record,
}
use node_readiness_gate_cont.Evaluation.Laws.{
  Action, remove, add, keep, Accounts, taint_action, run_action, evaluate_rule_for_node-run_action,
  evaluate_rule_for_node-Accounts, evaluation_results,
}

-- The second version of the rule differs from the first at most in its status.
abbrev pub OnlyStatus : NodeReadinessGateRule → NodeReadinessGateRule → Type 0
OnlyStatus rule rule' = rule' ≡ record rule { status = rule'.status }

-- The rule has a failure of the node.
abbrev pub has_failure : String → NodeReadinessGateRule → Bool
has_failure name rule = any (is_failure_of name) rule.status.failed_nodes

module _ (k name reason message : String) (now : Time) where
  pub any-record_node_failures :
      (fs : List NodeFailure)
      → any (is_failure_of k) (record_node_failures fs name reason message now)
        ≡ (name == k) || any (is_failure_of k) fs
  unfolding record_node_failures
  any-record_node_failures [] = ground arith
  any-record_node_failures (f ∷ fs) = ground (
    arith,
    eq_iff f.node_name name,
    eq_iff f.node_name k,
    eq_iff name k,
    any-record_node_failures fs,
  )

module _ (c : Client) where
  pub evaluate_keeps :
      (rule : NodeReadinessGateRule) (node : Node) (w : c.World)
      → let out = evaluate_rule_for_node c rule node w in
        (out.rule.spec ≡ rule.spec)
        × (out.rule.generation ≡ rule.generation)
        × (out.rule.name ≡ rule.name)
        × (out.rule.status.failed_nodes ≡ rule.status.failed_nodes)
  evaluate_keeps rule node w =
      of_accounts (evaluate_rule_for_node c rule node w)
        (evaluate_rule_for_node-Accounts c rule node w)
    where
      of_accounts :
          (out : Evaluated c)
          → Accounts c rule (evaluation_results c rule node) out
          → (out.rule.spec ≡ rule.spec)
            × (out.rule.generation ≡ rule.generation)
            × (out.rule.name ≡ rule.name)
            × (out.rule.status.failed_nodes ≡ rule.status.failed_nodes)
      of_accounts out (inl (_, e)) = rw e (refl, refl, refl, refl)
      of_accounts out (inr (_, _, (es, e))) = rw e (refl, refl, refl, refl)

  patch_taints_name :
      (node : Node) (taints : List Taint) (w : c.World)
      → (patch_taints c node taints w).0 ≢ none
      → (patch_taints c node taints w).1.name ≡ node.name
  unfolding patch_taints
  patch_taints_name node taints w h = answered (c.patch_node node _ w) h
    where
      answered :
          (a : Result c.Err Node × c.World)
          → (patched c (record node { taints = taints }) a).0 ≢ none
          → (patched c (record node { taints = taints }) a).1.name ≡ node.name
      answered (ok n, v) h = absurd (h refl)
      answered (err e, v) h = refl

  after_remove_name :
      (rule : NodeReadinessGateRule) (results : List ConditionEvaluationResult) (name : String)
      (p : Option c.Err × Node × c.World)
      → (p.0 ≢ none → p.1.name ≡ name)
      → (after_remove c rule results p).failure ≢ none
      → (after_remove c rule results p).node.name ≡ name
  unfolding after_remove
  after_remove_name rule results name (some e, n, w) q h = q (λ z. cc)
  after_remove_name rule results name (none, n, w) q h = absurd (h refl)

  after_add_name :
      (rule : NodeReadinessGateRule) (results : List ConditionEvaluationResult) (name : String)
      (p : Option c.Err × Node × c.World)
      → (p.0 ≢ none → p.1.name ≡ name)
      → (after_add c rule results p).failure ≢ none
      → (after_add c rule results p).node.name ≡ name
  unfolding after_add
  after_add_name rule results name (some e, n, w) q h = q (λ z. cc)
  after_add_name rule results name (none, n, w) q h = absurd (h refl)

  run_action_name :
      (a : Action) (rule : NodeReadinessGateRule) (node : Node) (w : c.World)
      → (run_action c a rule node w).failure ≢ none
      → (run_action c a rule node w).node.name ≡ node.name
  unfolding add_taint_by_spec remove_taint_by_spec record_evaluation
  run_action_name remove rule node w h =
      after_remove_name rule _ node.name _ (patch_taints_name node _ w) h
  run_action_name add rule node w h =
      after_add_name rule _ node.name _ (patch_taints_name node _ w) h
  run_action_name keep rule node w h = absurd (h refl)

  pub evaluate_name_of_failure :
      (rule : NodeReadinessGateRule) (node : Node) (w : c.World)
      → (evaluate_rule_for_node c rule node w).failure ≢ none
      → (evaluate_rule_for_node c rule node w).node.name ≡ node.name
  evaluate_name_of_failure rule node w h =
      let e = evaluate_rule_for_node-run_action c rule node w in
      rw e (run_action_name (taint_action rule node) rule node w (rw e at h))

  -- A recorded evaluation keeps all of the rule but its status.
  pub evaluate_and_record_keeps :
      (rule : NodeReadinessGateRule) (node : Node) (w : c.World)
      → let out = evaluate_and_record c rule node w in
        (out.rule.spec ≡ rule.spec)
        × (out.rule.generation ≡ rule.generation)
        × (out.rule.name ≡ rule.name)
  unfolding evaluate_and_record
  evaluate_and_record_keeps rule node w =
      let (spec, generation, name, _) = evaluate_keeps rule node w in
      (ground arith, ground arith, ground arith)

  evaluate_rest :
      (rule : NodeReadinessGateRule) (node : Node) (w : c.World)
      → OnlyStatus rule (evaluate_rule_for_node c rule node w).rule
  evaluate_rest rule node w =
      of_accounts (evaluate_rule_for_node c rule node w)
        (evaluate_rule_for_node-Accounts c rule node w)
    where
      of_accounts :
          (out : Evaluated c)
          → Accounts c rule (evaluation_results c rule node) out
          → OnlyStatus rule out.rule
      of_accounts out (inl (_, e)) = rw e refl
      of_accounts out (inr (_, _, (es, e))) = rw e refl

  pub evaluate_and_record_ok :
      (rule : NodeReadinessGateRule) (node : Node) (w : c.World)
      → (evaluate_rule_for_node c rule node w).failure ≡ none
      → evaluate_and_record c rule node w ≡ evaluate_rule_for_node c rule node w
  unfolding evaluate_and_record
  evaluate_and_record_ok rule node w h = rw (h, evaluate_and_record)

  pub evaluate_and_record_err :
      (rule : NodeReadinessGateRule) (node : Node) (w : c.World) (f : Fault c.Err)
      → (evaluate_rule_for_node c rule node w).failure ≡ some f
      → let out = evaluate_rule_for_node c rule node w in
        evaluate_and_record c rule node w ≡ (
          let (rule', w') =
            record_node_failure c out.rule out.node.name "EvaluationError"
              (text_of c f)
              out.world in
          record { failure = some f; rule = rule'; node = out.node; world = w' })
  unfolding evaluate_and_record
  evaluate_and_record_err rule node w f h = rw (h, evaluate_and_record)

  pub evaluate_and_record_rest :
      (rule : NodeReadinessGateRule) (node : Node) (w : c.World)
      → OnlyStatus rule (evaluate_and_record c rule node w).rule
  unfolding record_node_failure
  evaluate_and_record_rest rule node w =
      let out = evaluate_rule_for_node c rule node w in
      let rest = evaluate_rest rule node w in
      elim (Option-cases out.failure) [
        | inl z ↦ rw (evaluate_and_record_ok rule node w z) rest
        | inr (f, z) ↦ rw (evaluate_and_record_err rule node w f z) (
            ap
              (λ (r : NodeReadinessGateRule).
                let status = out.rule.status in
                record r {
                  status = record status {
                    failed_nodes =
                        record_node_failures status.failed_nodes out.node.name "EvaluationError"
                          (text_of c f) (c.now out.world).0;
                  };
                })
              rest)
      ]

  record_node_failure-has_failure :
      (k : String) (rule : NodeReadinessGateRule) (name reason message : String) (w : c.World)
      → has_failure k (record_node_failure c rule name reason message w).0
        ≡ (name == k) || has_failure k rule
  unfolding record_node_failure
  record_node_failure-has_failure k rule name reason message w =
      any-record_node_failures k name reason message (c.now w).0 rule.status.failed_nodes

  -- No evaluation ever drops a failure from the status, of the evaluated node or of another, not
  -- even one that succeeds; and an evaluation that fails leaves a failure of its node.
  pub evaluate_and_record-has_failure :
      (k : String) (rule : NodeReadinessGateRule) (node : Node) (w : c.World)
      → let out = evaluate_and_record c rule node w in
        (has_failure k rule ≡ true → has_failure k out.rule ≡ true)
        × ((evaluate_rule_for_node c rule node w).failure ≢ none
            → has_failure node.name out.rule ≡ true)
  unfolding evaluate_and_record
  evaluate_and_record-has_failure k rule node w =
      let (_, _, _, failed) = evaluate_keeps rule node w in
      let same = ap (any (is_failure_of k)) failed in
      elim (Option-cases (evaluate_rule_for_node c rule node w).failure) [
        | inl none_lem ↦
            rw (evaluate_and_record_ok rule node w none_lem)
              (λ h. same ∙ h, λ h. absurd (h none_lem))
        | inr (f, e) ↦
            let out = evaluate_rule_for_node c rule node w in
            let name = evaluate_name_of_failure rule node w (λ z. cc) in
            let this =
              record_node_failure-has_failure node.name out.rule out.node.name "EvaluationError"
                (text_of c f) out.world in
            let other =
              record_node_failure-has_failure k out.rule out.node.name "EvaluationError"
                (text_of c f) out.world in
            rw (evaluate_and_record_err rule node w f e)
              (λ h. ground arith, λ h. this ∙ ground (arith, eq_iff out.node.name node.name))
      ]

  abbrev is_fault : Option (Fault c.Err) → Bool
  is_fault none = false
  is_fault (some f) = true

  -- After an evaluation the status has a failure of a node exactly if it had one before, or if the
  -- node is the one evaluated and the evaluation failed: no evaluation drops a failure, not even
  -- one of the same node that succeeds.
  pub evaluate_and_record-has_failure_iff :
      (k : String) (rule : NodeReadinessGateRule) (node : Node) (w : c.World)
      → has_failure k (evaluate_and_record c rule node w).rule
        ≡ has_failure k rule
          || (is_fault (evaluate_rule_for_node c rule node w).failure && node.name == k)
  unfolding evaluate_and_record
  evaluate_and_record-has_failure_iff k rule node w =
      let (_, _, _, failed) = evaluate_keeps rule node w in
      let same = ap (any (is_failure_of k)) failed in
      elim (Option-cases (evaluate_rule_for_node c rule node w).failure) [
        | inl fine ↦ rw (evaluate_and_record_ok rule node w fine, fine) (same ∙ ground arith)
        | inr (f, e) ↦
            let out = evaluate_rule_for_node c rule node w in
            let name = evaluate_name_of_failure rule node w (λ z. cc) in
            let this =
              record_node_failure-has_failure k out.rule out.node.name "EvaluationError"
                (text_of c f) out.world in
            rw (evaluate_and_record_err rule node w f e, e) (this ∙ rw (name, same) (ground arith))
      ]
