-- ===== src/Prelude/GoMap.antt =====
-- A Go map with text keys: an association list that holds each key at most once.
pub mod Agreement
use Prim.Native.Nat.{ℕ, zero, suc, ◌+◌, ◌≤◌, ◌<◌}
use Prim.Native.String.{String}
use mathlib.Core.Path.{◌≡◌, refl}
use mathlib.Core.Logic.{◌≢◌, ◌⊎◌, inl, inr}
use mathlib.Core.Bool.{Bool, true, false}
use mathlib.Core.Option.{Option, none, some}
use mathlib.Core.List.{List, [], ◌∷◌}
use native.Mathlib.Omega.{arith}
use text.Mathlib.Text.{◌==◌}
use text.Mathlib.TextEquality.{eq_iff}
use node_readiness_gate_cont.Prelude.Tests.{if◌then◌else◌}
use node_readiness_gate_cont.Prelude.Lists.{All, length}

abbrev pub GoMap {ℓ} : Type ℓ → Type ℓ
GoMap V = List (String × V)

module _ {ℓ} {V : Type ℓ} where
  -- `v, exists := m[k]`.
  unfoldable pub lookup : String → GoMap V → Option V
  lookup key [] = none
  lookup key (entry ∷ others) = if entry.0 == key then some entry.1 else lookup key others

  -- `m[k] = v`.
  unfoldable pub insert : String → V → GoMap V → GoMap V
  insert key value [] = (key, value) ∷ []
  insert key value (entry ∷ others) =
      if entry.0 == key then (key, value) ∷ others else entry ∷ insert key value others

  -- `delete(m, k)`.
  unfoldable pub delete : String → GoMap V → GoMap V
  delete k [] = []
  delete k ((j, v) ∷ m) = if j == k then m else (j, v) ∷ delete k m

  -- No two entries have the same key.
  abbrev pub HasDistinctKeys : GoMap V → Type ℓ
  HasDistinctKeys [] = Unit
  HasDistinctKeys ((k, v) ∷ m) = (lookup k m ≡ none) × HasDistinctKeys m

  pub lookup-nil : (k : String) → lookup k [] ≡ none
  unfolding lookup
  lookup-nil k = refl

  -- A write is read back under its key, and under no other.
  pub lookup-insert :
      (key other : String) (value : V) (map : GoMap V)
      → lookup other (insert key value map)
        ≡ (if key == other then some value else lookup other map)
  unfolding insert lookup
  lookup-insert key other value [] = refl
  lookup-insert key other value (entry ∷ rest) = ground (
    lookup-insert key other value rest,
    eq_iff entry.0 key,
    eq_iff entry.0 other,
    eq_iff key other,
    arith,
  )

  pub insert-HasDistinctKeys :
      (k : String) (v : V) (m : GoMap V) → HasDistinctKeys m → HasDistinctKeys (insert k v m)
  unfolding lookup insert
  insert-HasDistinctKeys k v [] h = (refl, tt)
  insert-HasDistinctKeys k v ((j, w) ∷ m) h =
      ground (arith, eq_iff j k, eq_iff k j, insert-HasDistinctKeys k v m, lookup-insert k j v m)

  pub lookup-delete :
      (k j : String) (m : GoMap V)
      → HasDistinctKeys m
      → lookup j (delete k m) ≡ (if k == j then none else lookup j m)
  unfolding lookup delete
  lookup-delete k j [] h = ground arith
  lookup-delete k j ((i, w) ∷ m) h =
      ground (arith, eq_iff k j, eq_iff i k, eq_iff i j, lookup-delete k j m)

  pub delete-HasDistinctKeys :
      (k : String) (m : GoMap V) → HasDistinctKeys m → HasDistinctKeys (delete k m)
  unfolding lookup delete
  delete-HasDistinctKeys k [] h = tt
  delete-HasDistinctKeys k ((j, w) ∷ m) h =
      ground (arith, eq_iff j k, eq_iff k j, delete-HasDistinctKeys k m, lookup-delete k j m)
