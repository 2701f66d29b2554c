-- ===== src/Evaluation/Laws.antt =====
-- What an evaluation records in the status of the rule, on every branch and whatever calls fail.
use node_readiness_gate_cont.Prelude.{
  ◌≡◌, refl, ap, ◌∙◌, if◌then◌else◌, ◌≢◌, ◌⊎◌, inl, inr, Bool, true, false, List, Option, none,
  some, arith, all, map,
}
use node_readiness_gate_cont.Core.{Time, Node}
use node_readiness_gate_cont.Api.{NodeReadinessGateRule, ConditionEvaluationResult, NodeEvaluation}
use node_readiness_gate_cont.Client.{Client}
use node_readiness_gate_cont.Taints.{has_taint_by_spec}
use node_readiness_gate_cont.Conditions.{condition_result}
use node_readiness_gate_cont.Conditions.Laws.{
  is_met, evaluate_conditions_satisfied, evaluate_conditions_results, AreResultsOf,
  map-condition_result-AreResultsOf,
}
use node_readiness_gate_cont.Status.Laws.{evaluation_of, update_node_evaluations_self}
use node_readiness_gate_cont.Evaluation.{
  taint_status, add_taint_by_spec, remove_taint_by_spec, Evaluated, record_evaluation, after_remove,
  after_add, evaluate_rule_for_node,
}

-- What a rule asks of a node: its taint is to be removed, to be added, or neither.
pub data Action : Type 0 where
  remove add keep : Action

-- Every required condition of the rule is met by the node.
abbrev pub is_ready : NodeReadinessGateRule → Node → Bool
is_ready rule node = all (is_met node.conditions) rule.spec.conditions

abbrev pub has_taint_of : NodeReadinessGateRule → Node → Bool
has_taint_of rule node = has_taint_by_spec node.taints rule.spec.taint

abbrev pub action_for : Bool → Bool → Action
action_for true true = remove
action_for true false = keep
action_for false true = keep
action_for false false = add

abbrev pub taint_action : NodeReadinessGateRule → Node → Action
taint_action rule node = action_for (is_ready rule node) (has_taint_of rule node)

module _ (c : Client) where
  abbrev pub evaluation_results : NodeReadinessGateRule → Node → List ConditionEvaluationResult
  evaluation_results rule node = map (condition_result node.conditions) rule.spec.conditions

  -- The run that an action stands for.
  abbrev pub run_action : Action → NodeReadinessGateRule → Node → c.World → Evaluated c
  run_action remove rule node w =
      after_remove c rule (evaluation_results rule node)
        (remove_taint_by_spec c node rule.spec.taint w)
  run_action add rule node w =
      after_add c rule (evaluation_results rule node) (add_taint_by_spec c node rule.spec.taint w)
  run_action keep rule node w = record_evaluation c rule (evaluation_results rule node) node w

  pub evaluate_rule_for_node-run_action :
      (rule : NodeReadinessGateRule) (node : Node) (w : c.World)
      → evaluate_rule_for_node c rule node w ≡ run_action (taint_action rule node) rule node w
  unfolding evaluate_rule_for_node
  evaluate_rule_for_node-run_action rule node w = ground (
    arith,
    evaluate_conditions_satisfied node.conditions rule.spec.conditions,
    evaluate_conditions_results node.conditions rule.spec.conditions,
  )

  -- The evaluation that a reader of the status finds says what the node looks like.
  abbrev pub IsRecorded : List ConditionEvaluationResult → Evaluated c → Type 0
  IsRecorded results out =
      (now : Time) × (evaluation_of out.node.name out.rule.status.node_evaluations
        ≡ some (record {
          node_name = out.node.name;
          condition_results = results;
          taint_status = taint_status (has_taint_by_spec out.node.taints out.rule.spec.taint);
          last_evaluated = now;
        }))

  -- What is left of the rule: the evaluations are the only part that may change.
  abbrev pub OnlyEvaluates : NodeReadinessGateRule → NodeReadinessGateRule → Type 0
  OnlyEvaluates rule rule' =
      (es : List NodeEvaluation) × (let status = rule.status in
        rule' ≡ record rule { status = record status { node_evaluations = es } })

  -- A run either fails and leaves the rule as it was, or succeeds and records the results.
  abbrev pub Accounts :
      NodeReadinessGateRule → List ConditionEvaluationResult → Evaluated c → Type 0
  Accounts rule results out =
      ((out.failure ≢ none) × (out.rule ≡ rule))
      ⊎ ((out.failure ≡ none) × IsRecorded results out × OnlyEvaluates rule out.rule)

  module _ (rule : NodeReadinessGateRule) (results : List ConditionEvaluationResult) where
    record_evaluation-Accounts :
        (node : Node) (w : c.World)
        → Accounts rule results (record_evaluation c rule results node w)
    unfolding record_evaluation
    record_evaluation-Accounts node w = inr (
      refl,
      (
        (c.now w).0,
        update_node_evaluations_self node.name results _ _ rule.status.node_evaluations,
      ),
      (_, refl),
    )

    after_remove-Accounts :
        (p : Option c.Err × Node × c.World) → Accounts rule results (after_remove c rule results p)
    unfolding after_remove
    after_remove-Accounts (some e, node, w) = inl ((λ h. cc), refl)
    after_remove-Accounts (none, node, w) = record_evaluation-Accounts node _

    after_add-Accounts :
        (p : Option c.Err × Node × c.World) → Accounts rule results (after_add c rule results p)
    unfolding after_add
    after_add-Accounts (some e, node, w) = inl ((λ h. cc), refl)
    after_add-Accounts (none, node, w) = record_evaluation-Accounts node _

  run_action-Accounts :
      (a : Action) (rule : NodeReadinessGateRule) (node : Node) (w : c.World)
      → Accounts rule (evaluation_results rule node) (run_action a rule node w)
  run_action-Accounts remove rule node w = after_remove-Accounts rule _ _
  run_action-Accounts add rule node w = after_add-Accounts rule _ _
  run_action-Accounts keep rule node w = record_evaluation-Accounts rule _ node w

  pub evaluate_rule_for_node-Accounts :
      (rule : NodeReadinessGateRule) (node : Node) (w : c.World)
      → Accounts rule (evaluation_results rule node) (evaluate_rule_for_node c rule node w)
  evaluate_rule_for_node-Accounts rule node w =
      rw (evaluate_rule_for_node-run_action rule node w)
        (run_action-Accounts (taint_action rule node) rule node w)

-- What an evaluation in the status says: the results of the conditions that the node had, and
-- whether the node after the run carries the taint.
pub record IsEvaluationOf (rule : NodeReadinessGateRule) (before after : Node) (e : NodeEvaluation)
    : Type 0 where
  pub of_node : e.node_name ≡ after.name
  pub results : AreResultsOf before.conditions rule.spec.conditions e.condition_results
  pub taint : e.taint_status ≡ (if has_taint_of rule after then "Present" else "Absent")

module _ (c : Client) where
  -- A run fails and leaves the rule as it was, or it succeeds and records an evaluation.
  abbrev pub Records : NodeReadinessGateRule → Node → Evaluated c → Type 0
  Records rule node out =
      ((out.failure ≢ none) × (out.rule ≡ rule))
      ⊎ ((out.failure ≡ none)
          × ((e : NodeEvaluation) × (evaluation_of out.node.name out.rule.status.node_evaluations
                ≡ some e)
              × IsEvaluationOf rule node out.node e)
          × OnlyEvaluates c rule out.rule)

  taint_status_text : (b : Bool) → taint_status b ≡ (if b then "Present" else "Absent")
  taint_status_text true = refl
  taint_status_text false = refl

  Accounts-Records :
      (rule : NodeReadinessGateRule) (node : Node) (out : Evaluated c)
      → Accounts c rule (evaluation_results c rule node) out
      → Records rule node out
  Accounts-Records rule node out (inl failed) = inl failed
  Accounts-Records rule node out (inr (done, (now, found), (es, rest))) = inr (
    done,
    (
      _,
      found,
      record {
        of_node = refl;
        results = map-condition_result-AreResultsOf node.conditions rule.spec.conditions;
        taint =
            taint_status_text (has_taint_by_spec out.node.taints out.rule.spec.taint)
            ∙ ap
                (λ (r : NodeReadinessGateRule).
                  if has_taint_by_spec out.node.taints r.spec.taint then "Present" else "Absent")
                rest;
      },
    ),
    (es, rest),
  )

  -- An evaluation fails and leaves the rule exactly as it was, or it succeeds, changes nothing of
  -- the rule but its evaluations, and the evaluation that a reader finds for the node holds, in
  -- order, one result for each required condition, and says "Present" if the node now carries the
  -- taint and "Absent" if not. A result has the type and the required status of the requirement,
  -- the status of the first condition of the type that the node had, "Unknown" if it had none,
  -- counts as satisfied exactly if the two statuses are equal, and as missing exactly if the
  -- status is "Unknown".
  pub evaluate_rule_for_node-Records :
      (rule : NodeReadinessGateRule) (node : Node) (w : c.World)
      → Records rule node (evaluate_rule_for_node c rule node w)
  evaluate_rule_for_node-Records rule node w =
      Accounts-Records rule node (evaluate_rule_for_node c rule node w)
        (evaluate_rule_for_node-Accounts c rule node w)
