-- ===== src/Webhook/Admission.antt =====
-- The set of stored rules under admissions, while each listing returns the set as it is stored.
use node_readiness_gate_cont.Prelude.{
  ◌≡◌, refl, sym, ◌∙◌, ◌≢◌, inl, inr, String, true, false, not, List, [], ◌∷◌, map, Option, none,
  some, Result, ok, err, ◌==◌, eq_iff, if◌then◌else◌, All, filter, arith, Bool-cases,
}
use node_readiness_gate_cont.Core.{LabelSelector, Selectors}
use node_readiness_gate_cont.Api.{NodeReadinessGateRule}
use node_readiness_gate_cont.Client.{Client}
use node_readiness_gate_cont.Webhook.{
  parsed_overlap, node_selectors_overlap, conflicts_with, RuntimeObject, a_rule, validate_create,
  validate_update,
}
use node_readiness_gate_cont.Webhook.Laws.{
  IsValidSpec, IsApartFrom, IsAdmissible, validate-admits_iff,
}

==_comm : (s t : String) → (s == t) ≡ (t == s)
==_comm s t = ground (arith, eq_iff s t, eq_iff t s)

-- An update puts the new version in the place of the old one.
abbrev pub replace : NodeReadinessGateRule → List NodeReadinessGateRule → List NodeReadinessGateRule
replace rule = map (λ e. if e.name == rule.name then rule else e)

abbrev pub drop_named : String → List NodeReadinessGateRule → List NodeReadinessGateRule
drop_named name = filter (λ e. not (e.name == name))

-- No stored rule has the name.
abbrev pub IsNew : String → List NodeReadinessGateRule → Type 0
IsNew name = All (λ e. e.name ≢ name)

module _ (sel : Selectors) where
  parsed_overlap_comm :
      (r t : Result String sel.Selector) → parsed_overlap sel r t ≡ parsed_overlap sel t r
  unfolding parsed_overlap
  parsed_overlap_comm (ok r) (ok t) = ==_comm (sel.render r) (sel.render t)
  parsed_overlap_comm (ok r) (err e) = refl
  parsed_overlap_comm (err e) (ok t) = refl
  parsed_overlap_comm (err e) (err f) = refl

  overlap_comm :
      (a b : Option LabelSelector) → node_selectors_overlap sel a b ≡ node_selectors_overlap sel b a
  unfolding node_selectors_overlap
  overlap_comm none none = refl
  overlap_comm none (some b) = refl
  overlap_comm (some a) none = refl
  overlap_comm (some a) (some b) = parsed_overlap_comm (sel.as_selector a) (sel.as_selector b)

  -- A conflict is mutual.
  pub conflicts_with_comm :
      (r e : NodeReadinessGateRule) → conflicts_with sel r e ≡ conflicts_with sel e r
  unfolding conflicts_with
  conflicts_with_comm r e = rw (
    ==_comm e.spec.taint.key r.spec.taint.key,
    ==_comm e.spec.taint.effect r.spec.taint.effect,
    overlap_comm r.spec.node_selector e.spec.node_selector,
  )

  -- The rule and the other have different names and do not conflict.
  abbrev pub AreApart : NodeReadinessGateRule → NodeReadinessGateRule → Type 0
  AreApart r e = (conflicts_with sel r e ≡ false) × (e.name ≢ r.name)

  -- Every rule of the set is valid, no two have one name, and no two conflict.
  abbrev pub IsSound : List NodeReadinessGateRule → Type 0
  IsSound [] = Unit
  IsSound (r ∷ rs) = IsValidSpec r.spec × All (AreApart r) rs × IsSound rs

  apart_of_new :
      (r : NodeReadinessGateRule) (rs : List NodeReadinessGateRule)
      → IsNew r.name rs
      → All (IsApartFrom sel false r) rs
      → All (AreApart r) rs
  apart_of_new r [] new h = tt
  apart_of_new r (e ∷ rs) new h = ((ground arith, new.0), apart_of_new r rs new.1 h.1)

  apart_after :
      (x r : NodeReadinessGateRule) (rs : List NodeReadinessGateRule)
      → AreApart x r
      → All (AreApart x) rs
      → All (AreApart x) (replace r rs)
  apart_after x r [] h a = tt
  apart_after x r (e ∷ rs) h a = elim (Bool-cases (e.name == r.name)) [
    | inl same ↦ rw same (h, apart_after x r rs h a.1)
    | inr differ ↦ rw differ (a.0, apart_after x r rs h a.1)
  ]

  apart_replaced :
      (x r : NodeReadinessGateRule) (rs : List NodeReadinessGateRule)
      → x.name ≡ r.name
      → All (IsApartFrom sel true r) rs
      → All (AreApart x) rs
      → All (AreApart r) (replace r rs)
  apart_replaced x r [] same h a = tt
  apart_replaced x r (e ∷ rs) same h a =
      let other : e.name ≢ r.name = λ q. a.0.1 (q ∙ sym same) in
      let differ : (e.name == r.name) ≡ false = ground (arith, eq_iff e.name r.name) in
      rw differ ((ground arith, other), apart_replaced x r rs same h.1 a.1)

  replace-IsSound :
      (r : NodeReadinessGateRule) (rs : List NodeReadinessGateRule)
      → IsValidSpec r.spec
      → All (IsApartFrom sel true r) rs
      → IsSound rs
      → IsSound (replace r rs)
  replace-IsSound r [] v h i = tt
  replace-IsSound r (x ∷ rs) v h (vx, ax, i) = elim (Bool-cases (x.name == r.name)) [
    | inl same ↦ rw same (
      v,
      apart_replaced x r rs ((eq_iff x.name r.name).0 same) h.1 ax,
      replace-IsSound r rs v h.1 i,
    )
    | inr differ ↦
        let other : x.name ≢ r.name = ground (arith, eq_iff x.name r.name) in
        let apart : conflicts_with sel r x ≡ false = ground arith in
        rw differ (
          vx,
          apart_after x r rs (conflicts_with_comm x r ∙ apart, λ q. other (sym q)) ax,
          replace-IsSound r rs v h.1 i,
        )
  ]

  drop_named-All :
      (P : NodeReadinessGateRule → Type 0) (name : String) (rs : List NodeReadinessGateRule)
      → All P rs
      → All P (drop_named name rs)
  drop_named-All P name [] h = tt
  drop_named-All P name (x ∷ rs) h = elim (Bool-cases (x.name == name)) [
    | inl same ↦ rw same (drop_named-All P name rs h.1)
    | inr differ ↦ rw differ (h.0, drop_named-All P name rs h.1)
  ]

  drop_named-IsSound :
      (name : String) (rs : List NodeReadinessGateRule) → IsSound rs → IsSound (drop_named name rs)
  drop_named-IsSound name [] i = tt
  drop_named-IsSound name (x ∷ rs) (v, a, i) = elim (Bool-cases (x.name == name)) [
    | inl same ↦ rw same (drop_named-IsSound name rs i)
    | inr differ ↦
        rw differ (v, drop_named-All (AreApart x) name rs a, drop_named-IsSound name rs i)
  ]

  module _ (c : Client) where
    -- A write that the API server makes once the webhook has admitted it. The server itself refuses
    -- to create a rule under a name that is taken.
    pub data Admitted (rules : List NodeReadinessGateRule)
        : List NodeReadinessGateRule → Type 0 where
      created :
          (rule : NodeReadinessGateRule) (w : c.World)
          → (c.list_rules w).0 ≡ ok rules
          → IsNew rule.name rules
          → (validate_create sel c (a_rule rule) w).0 ≡ none
          → Admitted rules (rule ∷ rules)
      updated :
          (old : RuntimeObject sel) (rule : NodeReadinessGateRule) (w : c.World)
          → (c.list_rules w).0 ≡ ok rules
          → (validate_update sel c old (a_rule rule) w).0 ≡ none
          → Admitted rules (replace rule rules)
      deleted : (name : String) → Admitted rules (drop_named name rules)

    pub data Reached : List NodeReadinessGateRule → Type 0 where
      start : Reached []
      next :
          {rules rules' : List NodeReadinessGateRule}
          → Reached rules
          → Admitted rules rules'
          → Reached rules'

    Admitted-IsSound :
        {rules rules' : List NodeReadinessGateRule}
        → Admitted rules rules'
        → IsSound rules
        → IsSound rules'
    Admitted-IsSound {rules} (created rule w listed new admitted) i =
        let ok_lem : IsAdmissible sel c false rule (ok rules) =
          rw listed at ((validate-admits_iff sel c (a_rule rule) rule w).0.0 admitted) in
        (ok_lem.0, apart_of_new rule rules new ok_lem.1, i)
    Admitted-IsSound {rules} (updated old rule w listed admitted) i =
        let ok_lem : IsAdmissible sel c true rule (ok rules) =
          rw listed at ((validate-admits_iff sel c old rule w).1.0 admitted) in
        replace-IsSound rule rules ok_lem.0 ok_lem.1 i
    Admitted-IsSound (deleted name) i = drop_named-IsSound name _ i

    -- Whatever creations, updates and deletions were admitted from the empty set on, each against
    -- the rules stored at that moment, every stored rule has a valid spec and no two stored rules
    -- conflict, that is, have one taint key and effect and selectors that count as overlapping.
    pub Reached-IsSound : {rules : List NodeReadinessGateRule} → Reached rules → IsSound rules
    Reached-IsSound start = tt
    Reached-IsSound (next r a) = Admitted-IsSound a (Reached-IsSound r)
