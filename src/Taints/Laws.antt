-- ===== src/Taints/Laws.antt =====
-- What adding and removing a taint does to the taints of a node.
use node_readiness_gate_cont.Prelude.{
  ℕ, ◌+◌, ◌≡◌, refl, ◌≢◌, ◌⊎◌, true, false, List, [], ◌∷◌, arith, eq_iff, eq_refl, count,
  any-append, any-filter-not, filter-not_of_any,
}
use node_readiness_gate_cont.Core.{Taint}
use node_readiness_gate_cont.Api.{TaintSpec}
use node_readiness_gate_cont.Taints.{is_taint_of, has_taint_by_spec, with_taint, without_taint}

module _ (taints : List Taint) (spec : TaintSpec) where
  pub has_taint_by_spec-with_taint : has_taint_by_spec (with_taint taints spec) spec ≡ true
  unfolding has_taint_by_spec with_taint
  has_taint_by_spec-with_taint = ground (
    arith,
    any-append (is_taint_of spec) taints
        (record { key = spec.key; value = spec.value; effect = spec.effect } ∷ []),
    eq_refl spec.key,
    eq_refl spec.effect,
  )

  pub has_taint_by_spec-without_taint : has_taint_by_spec (without_taint taints spec) spec ≡ false
  unfolding has_taint_by_spec without_taint
  has_taint_by_spec-without_taint = any-filter-not (is_taint_of spec) taints

-- Two specs name different taints.
abbrev pub AreApart : TaintSpec → TaintSpec → Type 0
AreApart s t = (s.key ≢ t.key) ⊎ (s.effect ≢ t.effect)

module _ (s t : TaintSpec) (apart : AreApart s t) where
  pub has_taint_by_spec-with_taint_ne :
      (taints : List Taint) → has_taint_by_spec (with_taint taints s) t ≡ has_taint_by_spec taints t
  unfolding has_taint_by_spec with_taint
  has_taint_by_spec-with_taint_ne [] = ground (arith, eq_iff s.key t.key, eq_iff s.effect t.effect)
  has_taint_by_spec-with_taint_ne (x ∷ xs) = ground (arith, has_taint_by_spec-with_taint_ne xs)

  pub has_taint_by_spec-without_taint_ne :
      (taints : List Taint)
      → has_taint_by_spec (without_taint taints s) t ≡ has_taint_by_spec taints t
  unfolding has_taint_by_spec without_taint
  has_taint_by_spec-without_taint_ne [] = refl
  has_taint_by_spec-without_taint_ne (x ∷ xs) = ground (
    arith,
    has_taint_by_spec-without_taint_ne xs,
    eq_iff x.key s.key,
    eq_iff x.effect s.effect,
    eq_iff x.key t.key,
    eq_iff x.effect t.effect,
    eq_iff s.key t.key,
    eq_iff s.effect t.effect,
  )

-- Removing a taint that was just added, where the node had none, gives the old taints back.
pub without_taint-with_taint :
    (taints : List Taint) (spec : TaintSpec)
    → has_taint_by_spec taints spec ≡ false
    → without_taint (with_taint taints spec) spec ≡ taints
unfolding has_taint_by_spec with_taint without_taint
without_taint-with_taint [] spec h = ground (arith, eq_refl spec.key, eq_refl spec.effect)
without_taint-with_taint (x ∷ xs) spec h = ground (arith, without_taint-with_taint xs spec)

-- How many taints of the list are the one of the spec.
abbrev pub occurrences : TaintSpec → List Taint → ℕ
occurrences spec = count (is_taint_of spec)

pub occurrences_of_absent :
    (taints : List Taint) (spec : TaintSpec)
    → has_taint_by_spec taints spec ≡ false
    → occurrences spec taints ≡ 0
unfolding has_taint_by_spec
occurrences_of_absent [] spec h = refl
occurrences_of_absent (x ∷ xs) spec h = ground (arith, occurrences_of_absent xs spec)

pub occurrences-with_taint :
    (taints : List Taint) (spec : TaintSpec)
    → occurrences spec (with_taint taints spec) ≡ occurrences spec taints + 1
unfolding with_taint
occurrences-with_taint [] spec = ground (arith, eq_refl spec.key, eq_refl spec.effect)
occurrences-with_taint (x ∷ xs) spec = ground (arith, occurrences-with_taint xs spec)

pub without_taint_of_absent :
    (taints : List Taint) (spec : TaintSpec)
    → has_taint_by_spec taints spec ≡ false
    → without_taint taints spec ≡ taints
unfolding has_taint_by_spec without_taint
without_taint_of_absent taints spec h = filter-not_of_any (is_taint_of spec) taints h
