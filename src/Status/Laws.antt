-- ===== src/Status/Laws.antt =====
-- The evaluations and the failures of a rule's status, as a reader finds them.
use node_readiness_gate_cont.Prelude.{
  ◌≡◌, refl, ◌∙◌, ◌≢◌, String, Bool, true, not, ◌||◌, List, [], ◌∷◌, arith, eq_iff, eq_refl, ◌==◌,
  if◌then◌else◌, filter, any, count, length, ◌≤◌, Option, none, some,
}
use node_readiness_gate_cont.Prelude.GoMap.{GoMap, lookup, insert, lookup-insert}
use node_readiness_gate_cont.Core.{Time, Node}
use node_readiness_gate_cont.Api.{ConditionEvaluationResult, NodeEvaluation, NodeFailure}
use node_readiness_gate_cont.Status.{
  update_node_evaluations, record_node_failures, existing_nodes_from, existing_nodes, flag,
  keep_existing,
}

-- The evaluation of a node that a reader of the status finds first.
abbrev pub evaluation_of : String → List NodeEvaluation → Option NodeEvaluation
evaluation_of name [] = none
evaluation_of name (e ∷ es) = if e.node_name == name then some e else evaluation_of name es

-- No two evaluations are of the same node.
abbrev pub HasDistinctNodes : List NodeEvaluation → Type 0
HasDistinctNodes [] = Unit
HasDistinctNodes (e ∷ es) = (evaluation_of e.node_name es ≡ none) × HasDistinctNodes es

module _ (name : String) (results : List ConditionEvaluationResult) (taint : String)
    (now : Time) where
  pub update_node_evaluations_self :
      (es : List NodeEvaluation)
      → evaluation_of name (update_node_evaluations es name results taint now)
        ≡ some (record {
          node_name = name;
          condition_results = results;
          taint_status = taint;
          last_evaluated = now;
        })
  unfolding update_node_evaluations
  update_node_evaluations_self [] = ground (arith, eq_refl name)
  update_node_evaluations_self (e ∷ es) =
      ground (arith, eq_iff e.node_name name, update_node_evaluations_self es)

  pub update_node_evaluations_ne :
      (other : String) (es : List NodeEvaluation)
      → other ≢ name
      → evaluation_of other (update_node_evaluations es name results taint now)
        ≡ evaluation_of other es
  unfolding update_node_evaluations
  update_node_evaluations_ne other [] h = ground (arith, eq_iff name other)
  update_node_evaluations_ne other (e ∷ es) h = ground (
    arith,
    eq_iff e.node_name name,
    eq_iff e.node_name other,
    update_node_evaluations_ne other es,
  )

  pub update_node_evaluations-HasDistinctNodes :
      (es : List NodeEvaluation)
      → HasDistinctNodes es
      → HasDistinctNodes (update_node_evaluations es name results taint now)
  unfolding update_node_evaluations
  update_node_evaluations-HasDistinctNodes [] h = (refl, tt)
  update_node_evaluations-HasDistinctNodes (e ∷ es) h = ground (
    arith,
    eq_iff e.node_name name,
    update_node_evaluations_ne e.node_name es,
    update_node_evaluations-HasDistinctNodes es,
  )

-- The failure is of the node.
abbrev pub is_failure_of : String → NodeFailure → Bool
is_failure_of name f = f.node_name == name

module _ (name reason message : String) (now : Time) where
  count_kept :
      (fs : List NodeFailure)
      → count (is_failure_of name) (filter (λ f. not (f.node_name == name)) fs) ≡ 0
  count_kept [] = refl
  count_kept (f ∷ fs) = ground (arith, count_kept fs)

  count_kept_append :
      (fs : List NodeFailure)
      → count (is_failure_of name) (record_node_failures fs name reason message now) ≡ 1
  unfolding record_node_failures
  count_kept_append [] = ground (arith, eq_refl name)
  count_kept_append (f ∷ fs) = ground (arith, count_kept_append fs)

  others_kept :
      (other : String) (fs : List NodeFailure)
      → other ≢ name
      → filter (is_failure_of other) (record_node_failures fs name reason message now)
        ≡ filter (is_failure_of other) fs
  unfolding record_node_failures
  others_kept other [] h = ground (arith, eq_iff name other)
  others_kept other (f ∷ fs) h =
      ground (arith, eq_iff f.node_name name, eq_iff f.node_name other, others_kept other fs)

  -- After a failure is recorded the node has exactly one failure, and the failures of every other
  -- node are what they were, in the same order.
  pub record_node_failures_lem :
      (fs : List NodeFailure)
      → (count (is_failure_of name) (record_node_failures fs name reason message now) ≡ 1)
        × ((other : String)
            → other ≢ name
            → filter (is_failure_of other) (record_node_failures fs name reason message now)
              ≡ filter (is_failure_of other) fs)
  record_node_failures_lem fs = (count_kept_append fs, λ other. others_kept other fs)

-- A node of the list has the name.
abbrev pub is_named : String → Node → Bool
is_named name node = node.name == name

flag_existing_nodes_from :
    (name : String) (existing : GoMap Bool) (nodes : List Node)
    → flag (lookup name (existing_nodes_from existing nodes))
      ≡ any (is_named name) nodes || flag (lookup name existing)
unfolding existing_nodes_from
flag_existing_nodes_from name existing [] = refl
flag_existing_nodes_from name existing (node ∷ nodes) = ground (
  arith,
  flag_existing_nodes_from name (insert node.name true existing) nodes,
  lookup-insert node.name name true existing,
  eq_iff node.name name,
)

pub flag_existing_nodes :
    (name : String) (nodes : List Node)
    → flag (lookup name (existing_nodes nodes)) ≡ any (is_named name) nodes
unfolding existing_nodes lookup
flag_existing_nodes name nodes = flag_existing_nodes_from name [] nodes ∙ ground arith

pub keep_existing_flag :
    (name : String) (existing : GoMap Bool) (es : List NodeEvaluation)
    → evaluation_of name (keep_existing existing es)
      ≡ (if flag (lookup name existing) then evaluation_of name es else none)
unfolding keep_existing
keep_existing_flag name existing [] = ground arith
keep_existing_flag name existing (e ∷ es) =
    ground (arith, eq_iff e.node_name name, keep_existing_flag name existing es)

length-keep_existing :
    (existing : GoMap Bool) (es : List NodeEvaluation)
    → length (keep_existing existing es) ≤ length es
unfolding keep_existing
length-keep_existing existing [] = omega arith
length-keep_existing existing (e ∷ es) = ground (arith, length-keep_existing existing es)

-- If as many evaluations are kept as there were, they are the ones that there were.
pub keep_existing_same :
    (existing : GoMap Bool) (es : List NodeEvaluation)
    → length (keep_existing existing es) ≡ length es
    → keep_existing existing es ≡ es
unfolding keep_existing
keep_existing_same existing [] h = refl
keep_existing_same existing (e ∷ es) h =
    ground (arith, length-keep_existing existing es, keep_existing_same existing es)

-- An evaluation is kept exactly when its node is listed: what a reader finds for a node that is
-- listed is what it found before, and for a node that is gone it finds nothing.
pub keep_existing_lem :
    (name : String) (nodes : List Node) (es : List NodeEvaluation)
    → evaluation_of name (keep_existing (existing_nodes nodes) es)
      ≡ (if any (is_named name) nodes then evaluation_of name es else none)
keep_existing_lem name nodes es =
    let same = flag_existing_nodes name nodes in
    keep_existing_flag name (existing_nodes nodes) es ∙ rw same refl
