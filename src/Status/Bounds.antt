-- ===== src/Status/Bounds.antt =====
-- What the updates of a status (updateNodeEvaluationStatus, recordNodeFailure, the loop of
-- cleanupDeletedNodes) do to the size of its lists, and that these name a node once.
use node_readiness_gate_cont.Prelude.{
  ℕ, ◌+◌, ◌≤◌, ◌≡◌, ◌≢◌, String, not, List, [], ◌∷◌, arith, eq_iff, ◌==◌, filter, count, length,
  length-append, length-filter-le, Bool-cases, inl, inr,
}
use node_readiness_gate_cont.Core.{Time}
use node_readiness_gate_cont.Api.{
  ConditionEvaluationResult, NodeEvaluation, NodeFailure, NodeReadinessGateRuleStatus,
}
use node_readiness_gate_cont.Status.{update_node_evaluations, record_node_failures}
use node_readiness_gate_cont.Status.Laws.{
  HasDistinctNodes, is_failure_of, record_node_failures_lem,
  update_node_evaluations-HasDistinctNodes,
}

-- At most one evaluation and at most one failure of each node.
abbrev pub IsSound : NodeReadinessGateRuleStatus → Type 0
IsSound status =
    HasDistinctNodes status.node_evaluations
    × ((k : String) → count (is_failure_of k) status.failed_nodes ≤ 1)

-- The second status is sound if the first one is, and has at most so many more evaluations and
-- failures.
pub record GrowsBy (n : ℕ) (status status' : NodeReadinessGateRuleStatus) : Type 0 where
  pub sound : IsSound status → IsSound status'
  pub evaluations : length status'.node_evaluations ≤ length status.node_evaluations + n
  pub failures : length status'.failed_nodes ≤ length status.failed_nodes + n

pub GrowsBy-refl : (status : NodeReadinessGateRuleStatus) → GrowsBy 0 status status
GrowsBy-refl status = record { sound = λ h. h; evaluations = omega arith; failures = omega arith }

pub GrowsBy-trans :
    {m n : ℕ} {a b d : NodeReadinessGateRuleStatus}
    → GrowsBy m a b
    → GrowsBy n b d
    → GrowsBy (m + n) a d
GrowsBy-trans p q = record {
  sound = λ h. q.sound (p.sound h);
  evaluations = omega (arith, p.evaluations, q.evaluations);
  failures = omega (arith, p.failures, q.failures);
}

module _ (name : String) (results : List ConditionEvaluationResult) (taint : String)
    (now : Time) where
  pub length-update_node_evaluations :
      (es : List NodeEvaluation)
      → length (update_node_evaluations es name results taint now) ≤ length es + 1
  unfolding update_node_evaluations
  length-update_node_evaluations [] = omega arith
  length-update_node_evaluations (e ∷ es) = ground (arith, length-update_node_evaluations es)

  pub update_node_evaluations-GrowsBy :
      (status : NodeReadinessGateRuleStatus)
      → GrowsBy 1 status (record status {
        node_evaluations = update_node_evaluations status.node_evaluations name results taint now;
      })
  update_node_evaluations-GrowsBy status = record {
    sound = λ h. (
      update_node_evaluations-HasDistinctNodes name results taint now status.node_evaluations h.0,
      h.1,
    );
    evaluations = length-update_node_evaluations status.node_evaluations;
    failures = omega arith;
  }

module _ (name reason message : String) (now : Time) where
  count_others :
      (k : String) (fs : List NodeFailure)
      → k ≢ name
      → count (is_failure_of k) (record_node_failures fs name reason message now)
        ≡ count (is_failure_of k) fs
  unfolding record_node_failures
  count_others k [] h = ground (arith, eq_iff name k)
  count_others k (f ∷ fs) h =
      ground (arith, eq_iff f.node_name name, eq_iff f.node_name k, count_others k fs)

  count_failures :
      (k : String) (fs : List NodeFailure)
      → count (is_failure_of k) fs ≤ 1
      → count (is_failure_of k) (record_node_failures fs name reason message now) ≤ 1
  count_failures k fs h = elim (Bool-cases (k == name)) [
    | inl own ↦
        let same = (eq_iff k name).0 own in
        let (one, _) = record_node_failures_lem name reason message now fs in
        rw same (omega (arith, one))
    | inr other ↦
        let apart : k ≢ name = ground (arith, eq_iff k name) in
        omega (arith, count_others k fs apart)
  ]

  pub record_node_failures-GrowsBy :
      (status : NodeReadinessGateRuleStatus)
      → GrowsBy 1 status (record status {
        failed_nodes = record_node_failures status.failed_nodes name reason message now;
      })
  unfolding record_node_failures
  record_node_failures-GrowsBy status = record {
    sound = λ h. (h.0, λ k. count_failures k status.failed_nodes (h.1 k));
    evaluations = omega arith;
    failures = omega (
      arith,
      length-append (filter (λ f. not (f.node_name == name)) status.failed_nodes) (
          record { node_name = name; reason = reason; message = message; last_updated = now } ∷ []),
      length-filter-le (λ (f : NodeFailure). not (f.node_name == name)) status.failed_nodes,
    );
  }
