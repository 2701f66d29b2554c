-- ===== src/Events/Laws.antt =====
-- What the update predicate of the node controller lets through.
use node_readiness_gate_cont.Prelude.{
  ◌≡◌, refl, sym, ap, ◌∙◌, ◌≢◌, String, Bool, true, false, List, [], ◌∷◌, map, Option, none, some,
  Result, ok, err, arith, eq_iff, length, all, All,
}
use node_readiness_gate_cont.Prelude.GoMap.{
  GoMap, lookup, insert, HasDistinctKeys, lookup-insert, lookup-nil,
}
use node_readiness_gate_cont.Core.{
  Node, LabelSelector, IsLawful, NodeCondition, condition_unknown, Selectors,
}
use node_readiness_gate_cont.Api.{
  ConditionRequirement, ConditionEvaluationResult, NodeReadinessGateRuleSpec,
}
use node_readiness_gate_cont.Conditions.{
  get_condition_status, evaluate_conditions_from, evaluate_conditions,
}
use node_readiness_gate_cont.Taints.{has_taint_by_spec}
use node_readiness_gate_cont.Selection.{
  entry_agrees, string_map_equal, selected_by, rule_applies_to,
}
use node_readiness_gate_cont.Selection.Laws.{
  KeepsEmpty, string_map_equal_sound, string_map_equal_of_empty,
}
use node_readiness_gate_cont.Events.Taints.{taint_entries, AreClear, taints_equal_sound}
use node_readiness_gate_cont.Prelude.GoMap.Agreement.{Holds, lookup-eq_of_Holds}
use node_readiness_gate_cont.Events.{
  condition_map, found_is, conditions_equal, taints_equal, label_agrees, labels_equal,
  should_reconcile,
}

found_is-eq_some : (o : Option String) (s : String) → found_is o s ≡ true → o ≡ some s
found_is-eq_some none s h = cc
found_is-eq_some (some t) s h = ap some ((eq_iff t s).0 h)

abbrev or_else {ℓ} : {A : Type ℓ} → Option A → Option A → Option A
or_else none y = y
or_else (some x) y = some x

-- The statuses of the conditions by their types.
abbrev pub condition_entries : List NodeCondition → GoMap String
condition_entries = map (λ c. (c.kind, c.status))

lookup-condition_map :
    (k : String) (m : GoMap String) (cs : List NodeCondition)
    → HasDistinctKeys (condition_entries cs)
    → lookup k (condition_map m cs) ≡ or_else (lookup k (condition_entries cs)) (lookup k m)
unfolding condition_map lookup
lookup-condition_map k m [] d = refl
lookup-condition_map k m (c ∷ cs) d = ground (
  arith,
  eq_iff c.kind k,
  lookup-condition_map k (insert c.kind c.status m) cs d.1,
  lookup-insert c.kind k c.status m,
)

get_condition_status-lookup :
    (cs : List NodeCondition) (k : String)
    → get_condition_status cs k
      ≡ elim (lookup k (condition_entries cs)) [ none ↦ condition_unknown | some s ↦ s ]
unfolding get_condition_status lookup
get_condition_status-lookup [] k = refl
get_condition_status-lookup (c ∷ cs) k = ground (arith, get_condition_status-lookup cs k)

length-condition_entries : (cs : List NodeCondition) → length (condition_entries cs) ≡ length cs
length-condition_entries [] = refl
length-condition_entries (c ∷ cs) = omega (arith, length-condition_entries cs)

Holds-of_found_is :
    (a b : List NodeCondition)
    → HasDistinctKeys (condition_entries a)
    → all (λ c. found_is (lookup c.kind (condition_map [] a)) c.status) b ≡ true
    → All (Holds (condition_entries a)) (condition_entries b)
Holds-of_found_is a [] d h = tt
Holds-of_found_is a (c ∷ b) d h = (
  ground (
    arith,
    lookup-condition_map c.kind [] a d,
    lookup-nil {V = String} c.kind,
    found_is-eq_some (lookup c.kind (condition_map [] a)) c.status,
  ),
  Holds-of_found_is a b d (ground arith),
)

all-label_agrees : (a b : GoMap String) → all (label_agrees b) a ≡ all (entry_agrees b) a
all-label_agrees [] b = refl
all-label_agrees ((k, v) ∷ a) b = ground (arith, all-label_agrees a b)

-- Equal conditions have the same status for every type, if neither list has a type twice.
pub conditions_equal_sound :
    (a b : List NodeCondition)
    → HasDistinctKeys (condition_entries a)
    → HasDistinctKeys (condition_entries b)
    → conditions_equal a b ≡ true
    → (kind : String) → get_condition_status a kind ≡ get_condition_status b kind
unfolding conditions_equal
conditions_equal_sound a b da db h kind =
    let same =
      lookup-eq_of_Holds (condition_entries a) (condition_entries b) da db
        (ground (arith, length-condition_entries a, length-condition_entries b))
        (Holds-of_found_is a b da (ground arith)) kind in
    ground (arith, get_condition_status-lookup a kind, get_condition_status-lookup b kind)

labels_equal-string_map_equal : (a b : GoMap String) → labels_equal a b ≡ string_map_equal a b
unfolding labels_equal string_map_equal
labels_equal-string_map_equal a b = ground (arith, all-label_agrees a b)

-- Labels that compare equal hold the same value under every key, if no key of the first with an
-- empty value is missing from the second.
pub labels_equal_sound :
    (a b : GoMap String)
    → HasDistinctKeys a
    → HasDistinctKeys b
    → KeepsEmpty b a
    → labels_equal a b ≡ true
    → (k : String) → lookup k a ≡ lookup k b
labels_equal_sound a b da db keeps h =
    string_map_equal_sound a b da db keeps (sym (labels_equal-string_map_equal a b) ∙ h)

-- Replacing a label whose value is empty by a label with another key goes unnoticed.
pub labels_equal_of_empty :
    (k j v : String) (m : GoMap String)
    → HasDistinctKeys ((k, "") ∷ m)
    → HasDistinctKeys ((j, v) ∷ m)
    → k ≢ j
    → (labels_equal ((k, "") ∷ m) ((j, v) ∷ m) ≡ true)
      × (lookup j ((k, "") ∷ m) ≢ lookup j ((j, v) ∷ m))
labels_equal_of_empty k j v m dk dj ne =
    let (equal, differ) = string_map_equal_of_empty k j v m dk dj ne in
    (labels_equal-string_map_equal _ _ ∙ equal, differ)

-- The two versions of a node hold no type, taint or label twice; no two of their taints have keys
-- and effects that run together into one text; no label with an empty value was dropped.
pub record IsComparable (old new : Node) : Type 0 where
  pub old_conditions : HasDistinctKeys (condition_entries old.conditions)
  pub new_conditions : HasDistinctKeys (condition_entries new.conditions)
  pub old_taints : HasDistinctKeys (taint_entries old.taints)
  pub new_taints : HasDistinctKeys (taint_entries new.taints)
  pub clear : AreClear old.taints new.taints
  pub old_labels : HasDistinctKeys old.labels
  pub new_labels : HasDistinctKeys new.labels
  pub keeps : KeepsEmpty new.labels old.labels

evaluate_conditions_congr :
    (a b : List NodeCondition)
    → ((kind : String) → get_condition_status a kind ≡ get_condition_status b kind)
    → (reqs : List ConditionRequirement) → evaluate_conditions a reqs ≡ evaluate_conditions b reqs
unfolding evaluate_conditions
evaluate_conditions_congr a b same reqs = loop reqs true []
  where
    loop :
        (reqs : List ConditionRequirement) (s : Bool) (rs : List ConditionEvaluationResult)
        → evaluate_conditions_from a s rs reqs ≡ evaluate_conditions_from b s rs reqs
    loop [] s rs = refl
    loop (req ∷ reqs) s rs = rw (same req.kind) (loop reqs _ _)

rule_applies_to_congr :
    (sel : Selectors)
    → IsLawful sel
    → (s : Option LabelSelector) (a b : GoMap String) → ((k : String) → lookup k a ≡ lookup k b)
    → rule_applies_to sel s a ≡ rule_applies_to sel s b
unfolding rule_applies_to
rule_applies_to_congr sel lawful none a b same = refl
rule_applies_to_congr sel lawful (some s) a b same = parsed (sel.as_selector s)
  where
    parsed : (r : Result String sel.Selector) → selected_by sel r a ≡ selected_by sel r b
    parsed (ok t) = lawful.matches_congr t a b same
    parsed (err e) = refl

unchanged :
    (old new : Node)
    → should_reconcile old new ≡ false
    → (conditions_equal old.conditions new.conditions ≡ true)
      × (taints_equal old.taints new.taints ≡ true)
      × (labels_equal old.labels new.labels ≡ true)
unfolding should_reconcile
unchanged old new h = ground arith

-- An update that the node controller ignores changes no decision, if neither version of the node
-- holds a condition type, a taint or a label twice, no two of their taints have keys and effects
-- that run together into one text, and no label with an empty value was dropped: every rule selects
-- the new version exactly if it selected the old one, finds the same condition results, and sees
-- its taint exactly if it saw it.
pub should_reconcile_sound :
    (sel : Selectors) (old new : Node) (spec : NodeReadinessGateRuleSpec)
    → IsLawful sel
    → IsComparable old new
    → should_reconcile old new ≡ false
    → (rule_applies_to sel spec.node_selector old.labels
        ≡ rule_applies_to sel spec.node_selector new.labels)
      × (evaluate_conditions old.conditions spec.conditions
          ≡ evaluate_conditions new.conditions spec.conditions)
      × (has_taint_by_spec old.taints spec.taint ≡ has_taint_by_spec new.taints spec.taint)
should_reconcile_sound sel old new spec lawful c h =
    let (conditions, taints, labels) = unchanged old new h in
    (
      rule_applies_to_congr sel lawful spec.node_selector old.labels new.labels
          (labels_equal_sound _ _ c.old_labels c.new_labels c.keeps labels),
      evaluate_conditions_congr _ _
          (conditions_equal_sound _ _ c.old_conditions c.new_conditions conditions) spec.conditions,
      taints_equal_sound _ _ spec.taint c.old_taints c.new_taints c.clear taints,
    )
