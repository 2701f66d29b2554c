-- ===== src/Webhook/Laws.antt =====
-- Which rules the webhook admits.
use node_readiness_gate_cont.Prelude.{
  ℕ, suc, ◌≡◌, refl, ◌≢◌, ◌⊎◌, ◌↔◌, Bool, true, false, List, [], ◌∷◌, ◌++◌, none, Result, ok, err,
  eq_iff, eqb, length, All, arith,
}
use node_readiness_gate_cont.Core.{Selectors}
use node_readiness_gate_cont.Api.{
  NodeReadinessGateRule, NodeReadinessGateRuleSpec, ConditionRequirement, bootstrap_only,
  continuous,
}
use node_readiness_gate_cont.Client.{Client}
use node_readiness_gate_cont.Webhook.{
  FieldError, report, condition_errors, conditions_errors, validate_spec, conflicts_with,
  conflict_errors, RuntimeObject, a_rule, denied, validate_taint_conflicts, listed_conflicts,
  validate_rule, validate_create, validate_update,
}

-- What the webhook asks of a spec.
pub record IsValidSpec (spec : NodeReadinessGateRuleSpec) : Type 0 where
  pub some_condition : spec.conditions ≢ []
  pub conditions : All (λ r. (r.kind ≢ "") × (r.required_status ≢ "")) spec.conditions
  pub key : spec.taint.key ≢ ""
  pub effect : spec.taint.effect ≢ ""
  pub mode : (spec.enforcement_mode ≡ bootstrap_only) ⊎ (spec.enforcement_mode ≡ continuous)

append-nil_iff : {A : Type 0} (xs ys : List A) → (xs ++ ys ≡ []) ↔ ((xs ≡ []) × (ys ≡ []))
append-nil_iff [] ys = (λ h. (refl, h), λ h. h.1)
append-nil_iff (x ∷ xs) ys = (λ h. absurd (cc), λ h. absurd (cc (h.0)))

report-nil_iff : (b : Bool) (e : FieldError) → (report b e ≡ []) ↔ (b ≡ false)
report-nil_iff b e = ground arith

condition_errors-nil_iff :
    (i : ℕ) (r : ConditionRequirement)
    → (condition_errors i r ≡ []) ↔ ((r.kind ≢ "") × (r.required_status ≢ ""))
unfolding condition_errors
condition_errors-nil_iff i r = ground (arith, eq_iff r.kind "", eq_iff r.required_status "")

conditions_errors-nil_iff :
    (i : ℕ) (conditions : List ConditionRequirement)
    → (conditions_errors i conditions ≡ [])
      ↔ All (λ r. (r.kind ≢ "") × (r.required_status ≢ "")) conditions
unfolding conditions_errors
conditions_errors-nil_iff i [] = (λ h. tt, λ h. refl)
conditions_errors-nil_iff i (r ∷ rs) =
    let ih = conditions_errors-nil_iff (suc i) rs in
    let here = condition_errors-nil_iff i r in
    let both = append-nil_iff (condition_errors i r) (conditions_errors (suc i) rs) in
    (λ h. let (a, b) = both.0 h in (here.0 a, ih.0 b), λ h. both.1 (here.1 h.0, ih.1 h.1))

some_condition_test :
    (conditions : List ConditionRequirement) (e : FieldError)
    → conditions ≢ []
    → report (eqb (length conditions) 0) e ≡ []
some_condition_test [] e h = absurd (h refl)
some_condition_test (r ∷ rs) e h = ground arith

-- The webhook finds no fault with a spec exactly if it names at least one condition, no condition
-- has an empty type or status, the taint has a key and an effect, and the mode is a known one.
pub validate_spec_iff :
    (spec : NodeReadinessGateRuleSpec) → (validate_spec spec ≡ []) ↔ IsValidSpec spec
unfolding validate_spec
validate_spec_iff spec =
    let here = conditions_errors-nil_iff 0 spec.conditions in
    let first = append-nil_iff (report (eqb (length spec.conditions) 0) _) _ in
    let second = append-nil_iff (conditions_errors 0 spec.conditions) _ in
    (
      λ h.
          let (a, rest) = first.0 h in
          let (b, tests) = second.0 rest in
          record {
            some_condition = ground arith;
            conditions = here.0 b;
            key = ground (arith, eq_iff spec.taint.key "");
            effect = ground (arith, eq_iff spec.taint.key "", eq_iff spec.taint.effect "");
            mode = ground (
              arith,
              eq_iff spec.taint.key "",
              eq_iff spec.taint.effect "",
              eq_iff spec.enforcement_mode bootstrap_only,
              eq_iff spec.enforcement_mode continuous,
            );
          },
      λ v. first.1 (
        some_condition_test spec.conditions _ v.some_condition,
        second.1 (
          here.1 v.conditions,
          ground (
            arith,
            eq_iff spec.taint.key "",
            eq_iff spec.taint.effect "",
            eq_iff spec.enforcement_mode bootstrap_only,
            eq_iff spec.enforcement_mode continuous,
          ),
        ),
      ),
    )

module _ (sel : Selectors) where
  -- The rule does not conflict with a stored one, or the stored one is its own old version.
  abbrev pub IsApartFrom : Bool → NodeReadinessGateRule → NodeReadinessGateRule → Type 0
  IsApartFrom is_update rule existing =
      ((is_update ≡ true) × (existing.name ≡ rule.name))
      ⊎ (conflicts_with sel rule existing ≡ false)

  conflict_errors-nil_iff :
      (is_update : Bool) (rule : NodeReadinessGateRule) (rules : List NodeReadinessGateRule)
      → (conflict_errors sel is_update rule rules ≡ []) ↔ All (IsApartFrom is_update rule) rules
  unfolding conflict_errors
  conflict_errors-nil_iff is_update rule [] = (λ h. tt, λ h. refl)
  conflict_errors-nil_iff is_update rule (e ∷ rules) =
      let ih = conflict_errors-nil_iff is_update rule rules in
      ground (arith, ih, eq_iff e.name rule.name)

  module _ (c : Client) where
    -- What an admission depends on: the answer of the listing decides about conflicts.
    abbrev pub IsAdmissible :
        Bool → NodeReadinessGateRule → Result c.Err (List NodeReadinessGateRule) → Type 0
    IsAdmissible is_update rule (ok rules) =
        IsValidSpec rule.spec × All (IsApartFrom is_update rule) rules
    IsAdmissible is_update rule (err e) = IsValidSpec rule.spec

    denied-none_iff :
        (errors : List FieldError) (w : c.World)
        → ((denied sel c (errors, w)).0 ≡ none) ↔ (errors ≡ [])
    unfolding denied
    denied-none_iff [] w = (λ h. refl, λ h. refl)
    denied-none_iff (e ∷ errors) w = ground arith

    validate_rule-nil_iff :
        (is_update : Bool) (rule : NodeReadinessGateRule) (w : c.World)
        → ((validate_rule sel c rule is_update w).0 ≡ [])
          ↔ IsAdmissible is_update rule (c.list_rules w).0
    unfolding validate_rule validate_taint_conflicts
    validate_rule-nil_iff is_update rule w = answered (c.list_rules w)
      where
        answered :
            (a : Result c.Err (List NodeReadinessGateRule) × c.World)
            → (validate_spec rule.spec ++ (listed_conflicts sel c rule is_update a).0 ≡ [])
              ↔ IsAdmissible is_update rule a.0
        answered (ok rules, v) =
            let both = append-nil_iff (validate_spec rule.spec) _ in
            let spec = validate_spec_iff rule.spec in
            let conflicts = conflict_errors-nil_iff is_update rule rules in
            (
              λ h. let (a, b) = both.0 h in (spec.0 a, conflicts.0 b),
              λ h. both.1 (spec.1 h.0, conflicts.1 h.1),
            )
        answered (err e, v) =
            let both = append-nil_iff (validate_spec rule.spec) [] in
            let spec = validate_spec_iff rule.spec in
            (λ h. spec.0 (both.0 h).0, λ h. both.1 (spec.1 h, refl))

    -- A rule is admitted, on creation, exactly if its spec is valid and it conflicts with none of
    -- the listed rules; on an update, with none but its own old version; if the rules cannot be
    -- listed, exactly if its spec is valid.
    pub validate-admits_iff :
        (old : RuntimeObject sel) (rule : NodeReadinessGateRule) (w : c.World)
        → (((validate_create sel c (a_rule rule) w).0 ≡ none)
            ↔ IsAdmissible false rule (c.list_rules w).0)
          × (((validate_update sel c old (a_rule rule) w).0 ≡ none)
              ↔ IsAdmissible true rule (c.list_rules w).0)
    unfolding validate_create validate_update
    validate-admits_iff old rule w = (admits false, admits true)
      where
        admits :
            (b : Bool)
            → ((denied sel c (validate_rule sel c rule b w)).0 ≡ none)
              ↔ IsAdmissible b rule (c.list_rules w).0
        admits b =
            let d =
              denied-none_iff (validate_rule sel c rule b w).0 (validate_rule sel c rule b w).1 in
            let v = validate_rule-nil_iff b rule w in (λ h. v.0 (d.0 h), λ h. d.1 (v.1 h))
