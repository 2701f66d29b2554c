-- ===== src/Events/Taints.antt =====
-- When taintsEqual takes two lists of taints for equal.
use mathlib.Core.List.{Memᴰ}
use text.Mathlib.TextLemmas.{append_assoc}
use node_readiness_gate_cont.Prelude.{
  ◌≡◌, refl, sym, ap, ◌≢◌, String, true, List, [], ◌∷◌, map, ◌==◌, Option, none, some, arith,
  eq_iff, eq_refl, length, all, All, any_of_Memᴰ, Memᴰ_of_any, bool_eq_of_iff, ◌<>◌, Bool-cases,
  inl, inr,
}
use node_readiness_gate_cont.Prelude.GoMap.{
  GoMap, lookup, insert, HasDistinctKeys, lookup-insert, lookup-nil,
}
use node_readiness_gate_cont.Prelude.GoMap.Agreement.{Holds, lookup-eq_of_Holds}
use node_readiness_gate_cont.Core.{Taint}
use node_readiness_gate_cont.Api.{TaintSpec}
use node_readiness_gate_cont.Taints.{is_taint_of, has_taint_by_spec}
use node_readiness_gate_cont.Events.{taint_key, taint_map, found_value_is, taints_equal}

-- The values of the taints by the texts that `taintsEqual` uses as keys.
abbrev pub taint_entries : List Taint → GoMap String
taint_entries = map (λ t. (taint_key t, t.value))

abbrev value_of : Option Taint → Option String
value_of none = none
value_of (some t) = some t.value

abbrev or_else {ℓ} : {A : Type ℓ} → Option A → Option A → Option A
or_else none y = y
or_else (some x) y = some x

lookup-taint_map :
    (k : String) (m : GoMap Taint) (ts : List Taint)
    → HasDistinctKeys (taint_entries ts)
    → value_of (lookup k (taint_map m ts))
      ≡ or_else (lookup k (taint_entries ts)) (value_of (lookup k m))
unfolding taint_map lookup
lookup-taint_map k m [] d = refl
lookup-taint_map k m (t ∷ ts) d = ground (
  arith,
  eq_iff (taint_key t) k,
  lookup-taint_map k (insert (taint_key t) t m) ts d.1,
  lookup-insert (taint_key t) k t m,
)

found_value_is-eq_some :
    (o : Option Taint) (s : String) → found_value_is o s ≡ true → value_of o ≡ some s
found_value_is-eq_some none s h = cc
found_value_is-eq_some (some t) s h = ap some ((eq_iff t.value s).0 h)

length-taint_entries : (ts : List Taint) → length (taint_entries ts) ≡ length ts
length-taint_entries [] = refl
length-taint_entries (t ∷ ts) = omega (arith, length-taint_entries ts)

Holds-of_found_value_is :
    (a b : List Taint)
    → HasDistinctKeys (taint_entries a)
    → all (λ t. found_value_is (lookup (taint_key t) (taint_map [] a)) t.value) b ≡ true
    → All (Holds (taint_entries a)) (taint_entries b)
Holds-of_found_value_is a [] d h = tt
Holds-of_found_value_is a (t ∷ b) d h = (
  ground (
    arith,
    lookup-taint_map (taint_key t) [] a d,
    lookup-nil {V = Taint} (taint_key t),
    found_value_is-eq_some (lookup (taint_key t) (taint_map [] a)) t.value,
  ),
  Holds-of_found_value_is a b d (ground arith),
)

taints_equal-lookup :
    (a b : List Taint)
    → HasDistinctKeys (taint_entries a)
    → HasDistinctKeys (taint_entries b)
    → taints_equal a b ≡ true
    → (k : String) → lookup k (taint_entries a) ≡ lookup k (taint_entries b)
unfolding taints_equal
taints_equal-lookup a b da db h k =
    lookup-eq_of_Holds (taint_entries a) (taint_entries b) da db
      (ground (arith, length-taint_entries a, length-taint_entries b))
      (Holds-of_found_value_is a b da (ground arith)) k

-- Two taints with one text as their key have the same key and the same effect.
abbrev pub AreClear : List Taint → List Taint → Type 0
AreClear a b =
    (s t : Taint)
    → Memᴰ s a
    → Memᴰ t b
    → taint_key s ≡ taint_key t
    → (s.key ≡ t.key) × (s.effect ≡ t.effect)

lookup-taint_entries_of_Memᴰ :
    (ts : List Taint) (t : Taint) → Memᴰ t ts → lookup (taint_key t) (taint_entries ts) ≢ none
unfolding lookup
lookup-taint_entries_of_Memᴰ [] t m = elim m [ ]
lookup-taint_entries_of_Memᴰ (x ∷ ts) t (Memᴰ.head e) =
    ground (arith, eq_iff (taint_key x) (taint_key t), ap taint_key e)
lookup-taint_entries_of_Memᴰ (x ∷ ts) t (Memᴰ.tail m) =
    ground (arith, lookup-taint_entries_of_Memᴰ ts t m)

Memᴰ_of_lookup-taint_entries :
    (ts : List Taint) (k : String)
    → lookup k (taint_entries ts) ≢ none
    → (t : Taint) × Memᴰ t ts × (taint_key t ≡ k)
unfolding lookup
Memᴰ_of_lookup-taint_entries [] k h = absurd (h refl)
Memᴰ_of_lookup-taint_entries (x ∷ ts) k h = elim (Bool-cases (taint_key x == k)) [
  | inl here ↦ (x, Memᴰ.head refl, (eq_iff _ _).0 here)
  | inr there ↦
      let (t, m, e) = Memᴰ_of_lookup-taint_entries ts k (ground arith) in (t, Memᴰ.tail m, e)
]

has_taint_by_spec_of_lookup :
    (a b : List Taint) (spec : TaintSpec)
    → AreClear a b
    → ((k : String) → lookup k (taint_entries a) ≡ lookup k (taint_entries b))
    → has_taint_by_spec a spec ≡ true
    → has_taint_by_spec b spec ≡ true
unfolding has_taint_by_spec
has_taint_by_spec_of_lookup a b spec clear same h =
    let (s, ms, hs) = Memᴰ_of_any (is_taint_of spec) a h in
    let (t, mt, e) =
      Memᴰ_of_lookup-taint_entries b (taint_key s)
        (rw (← same (taint_key s)) (lookup-taint_entries_of_Memᴰ a s ms)) in
    let alike = clear s t ms mt (sym e) in
    any_of_Memᴰ (is_taint_of spec) b mt (rw (← alike.0, ← alike.1) hs)

-- Taints that compare equal have the same specs among them, if no list has a key twice and no two
-- taints of the lists have keys and effects that run together into one text.
pub taints_equal_sound :
    (a b : List Taint) (spec : TaintSpec)
    → HasDistinctKeys (taint_entries a)
    → HasDistinctKeys (taint_entries b)
    → AreClear a b
    → taints_equal a b ≡ true
    → has_taint_by_spec a spec ≡ has_taint_by_spec b spec
taints_equal_sound a b spec da db clear h =
    let same = taints_equal-lookup a b da db h in
    bool_eq_of_iff _ _ (has_taint_by_spec_of_lookup a b spec clear same) (
      has_taint_by_spec_of_lookup b a spec
        (λ s t ms mt e. let r = clear t s mt ms (sym e) in (sym r.0, sym r.1)) (λ k. sym (same k)))

-- A taint whose key ends in "Prefer" and whose effect is NoSchedule is taken for the taint with
-- the shorter key and the effect PreferNoSchedule, whatever the key and the value.
pub taints_equal_collision :
    (key value : String)
    → taints_equal
        (record { key = key <> "Prefer"; value = value; effect = "NoSchedule" } ∷ [])
        (record { key = key; value = value; effect = "PreferNoSchedule" } ∷ [])
      ≡ true
unfolding taints_equal lookup insert
taints_equal_collision key value =
    rw append_assoc (rw (eq_refl (key <> "PreferNoSchedule"), eq_refl value))
