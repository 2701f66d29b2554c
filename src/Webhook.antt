-- ===== src/Webhook.antt =====
-- The admission webhook (internal/webhook/nodereadinessgaterule_webhook.go).
pub mod Laws
pub mod Admission
pub mod Overlap
use node_readiness_gate_cont.Prelude.{
  ℕ, suc, ◌+◌, String, Bool, true, false, not, ◌&&◌, ◌||◌, List, [], ◌∷◌, ◌++◌, Option, none, some,
  Result, ok, err, ◌==◌, ltb, eqb, length, if◌then◌else◌, ◌<>◌, decimal,
}
use node_readiness_gate_cont.Core.{LabelSelector, Selectors}
use node_readiness_gate_cont.Api.{
  NodeReadinessGateRule, NodeReadinessGateRuleSpec, ConditionRequirement, bootstrap_only,
  continuous,
}
use node_readiness_gate_cont.Client.{Client}

-- An error of the field package: the kind, the path, the bad value and the detail.
pub data FieldError : Type 0 where
  required : (path detail : String) → FieldError
  invalid : (path value detail : String) → FieldError

-- `if … { allErrs = append(allErrs, e) }`.
abbrev pub report : Bool → FieldError → List FieldError
report b e = if b then e ∷ [] else []

abbrev pub condition_path : ℕ → String → String
condition_path i child = "spec.conditions[" <> decimal i <> "]." <> child

-- The round of the loop for the condition at the index.
unfoldable pub condition_errors : ℕ → ConditionRequirement → List FieldError
condition_errors i condition =
    report (condition.kind == "")
      (required (condition_path i "type") "condition type cannot be empty")
    ++ report (condition.required_status == "")
        (required (condition_path i "requiredStatus") "required status cannot be empty")

unfoldable pub conditions_errors : ℕ → List ConditionRequirement → List FieldError
unfolding condition_errors
conditions_errors i [] = []
conditions_errors i (condition ∷ conditions) =
    condition_errors i condition ++ conditions_errors (suc i) conditions

unfoldable pub validate_spec : NodeReadinessGateRuleSpec → List FieldError
unfolding conditions_errors
validate_spec spec =
    report (eqb (length spec.conditions) 0)
      (required "spec.conditions" "at least one condition is required")
    ++ (conditions_errors 0 spec.conditions
        ++ (report (spec.taint.key == "") (required "spec.taint.key" "taint key cannot be empty")
            ++ (report (spec.taint.effect == "")
                  (required "spec.taint.effect" "taint effect cannot be empty")
                ++ report
                    (not (spec.enforcement_mode == bootstrap_only)
                      && not (spec.enforcement_mode == continuous))
                    (invalid "spec.enforcementMode" spec.enforcement_mode
                      "must be 'bootstrap-only' or 'continuous'"))))

module _ (sel : Selectors) where
  -- Two selectors that parse overlap if they print alike; one that does not parse overlaps all.
  parsed_overlap : Result String sel.Selector → Result String sel.Selector → Bool
  parsed_overlap (ok s) (ok t) = sel.render s == sel.render t
  parsed_overlap (ok s) (err e) = true
  parsed_overlap (err e) r = true

  -- Spelled `nodSelectorsOverlap` in the source.
  unfoldable pub node_selectors_overlap : Option LabelSelector → Option LabelSelector → Bool
  unfolding parsed_overlap
  node_selectors_overlap none t = true
  node_selectors_overlap (some s) none = true
  node_selectors_overlap (some s) (some t) = parsed_overlap (sel.as_selector s) (sel.as_selector t)

  conflict_error : NodeReadinessGateRule → NodeReadinessGateRule → FieldError
  conflict_error rule existing = invalid "spec.taint.key" rule.spec.taint.key (
      "conflicts with existing rule '" <> existing.name <> "' - same taint key '"
      <> rule.spec.taint.key <> "' and effect '" <> rule.spec.taint.effect
      <> "' with overlapping node selectors")

  -- The test of the loop, for a rule that is not skipped.
  unfoldable pub conflicts_with : NodeReadinessGateRule → NodeReadinessGateRule → Bool
  unfolding node_selectors_overlap
  conflicts_with rule existing =
      (existing.spec.taint.key == rule.spec.taint.key
        && existing.spec.taint.effect == rule.spec.taint.effect)
      && node_selectors_overlap rule.spec.node_selector existing.spec.node_selector

  -- The loop over the stored rules; on an update the rule itself is skipped.
  unfoldable pub conflict_errors :
      Bool → NodeReadinessGateRule → List NodeReadinessGateRule → List FieldError
  unfolding conflicts_with conflict_error
  conflict_errors is_update rule [] = []
  conflict_errors is_update rule (existing ∷ rules) =
      report (not (is_update && existing.name == rule.name) && conflicts_with rule existing)
        (conflict_error rule existing)
      ++ conflict_errors is_update rule rules

  -- An object that reaches the webhook: a rule, or some other type, by its name.
  pub data RuntimeObject : Type 0 where
    a_rule : NodeReadinessGateRule → RuntimeObject
    other : String → RuntimeObject

  -- The error of an admission.
  pub data Denial : Type 0 where
    unexpected : String → Denial
    validation_failed : List FieldError → Denial

  module _ (c : Client) where
    -- Where the rules cannot be listed no conflict is reported.
    listed_conflicts :
        NodeReadinessGateRule
        → Bool
        → Result c.Err (List NodeReadinessGateRule) × c.World
        → List FieldError × c.World
    unfolding conflict_errors
    listed_conflicts rule is_update (err e, w) = ([], w)
    listed_conflicts rule is_update (ok rules, w) = (conflict_errors is_update rule rules, w)

    unfoldable pub validate_taint_conflicts :
        NodeReadinessGateRule → Bool → c.World → List FieldError × c.World
    unfolding listed_conflicts
    validate_taint_conflicts rule is_update w = listed_conflicts rule is_update (c.list_rules w)

    unfoldable pub validate_rule :
        NodeReadinessGateRule → Bool → c.World → List FieldError × c.World
    unfolding validate_spec validate_taint_conflicts
    validate_rule rule is_update w =
        let (conflicts, w') = validate_taint_conflicts rule is_update w in
        (validate_spec rule.spec ++ conflicts, w')

    -- `if …; len(allErrs) > 0`.
    denied : List FieldError × c.World → Option Denial × c.World
    denied (errors, w) =
        if ltb 0 (length errors) then (some (validation_failed errors), w) else (none, w)

    validate_object : Bool → RuntimeObject → c.World → Option Denial × c.World
    unfolding validate_rule denied
    validate_object is_update (a_rule rule) w = denied (validate_rule rule is_update w)
    validate_object is_update (other kind) w = (some (unexpected kind), w)

    unfoldable pub validate_create : RuntimeObject → c.World → Option Denial × c.World
    unfolding validate_object
    validate_create obj w = validate_object false obj w

    unfoldable pub validate_update :
        RuntimeObject → RuntimeObject → c.World → Option Denial × c.World
    unfolding validate_object
    validate_update old new w = validate_object true new w

    unfoldable pub validate_delete : RuntimeObject → c.World → Option Denial × c.World
    validate_delete obj w = (none, w)
