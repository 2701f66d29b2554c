-- ===== src/Prelude/GoMap/Agreement.antt =====
-- Two maps of the same size agree everywhere if one of them has the entries of the other.
use node_readiness_gate_cont.Prelude.{
  suc, ◌≡◌, refl, String, [], ◌∷◌, none, some, arith, eq_iff, length, All,
}
use node_readiness_gate_cont.Prelude.GoMap.{
  GoMap, lookup, delete, HasDistinctKeys, lookup-delete, delete-HasDistinctKeys,
}

module _ {ℓ} {V : Type ℓ} where
  -- The map holds the entry.
  abbrev pub Holds : GoMap V → String × V → Type ℓ
  Holds m (k, v) = lookup k m ≡ some v

  length-delete :
      (k : String) (m : GoMap V) (v : V)
      → lookup k m ≡ some v
      → suc (length (delete k m)) ≡ length m
  unfolding lookup delete
  length-delete k [] v h = absurd (cc)
  length-delete k ((j, w) ∷ m) v h = ground (arith, eq_iff j k, length-delete k m v)

  Holds-delete :
      (k : String) (m b : GoMap V)
      → HasDistinctKeys m
      → lookup k b ≡ none
      → HasDistinctKeys b
      → All (Holds m) b
      → All (Holds (delete k m)) b
  unfolding lookup
  Holds-delete k m [] d absent e h = tt
  Holds-delete k m ((j, w) ∷ b) d absent e h =
      ground (arith, eq_iff j k, eq_iff k j, lookup-delete k j m, Holds-delete k m b)

  pub lookup-eq_of_Holds :
      (a b : GoMap V)
      → HasDistinctKeys a
      → HasDistinctKeys b
      → length a ≡ length b
      → All (Holds a) b
      → (k : String) → lookup k a ≡ lookup k b
  unfolding lookup
  lookup-eq_of_Holds [] [] da db e h k = refl
  lookup-eq_of_Holds (x ∷ a) [] da db e h k = absurd (omega arith)
  lookup-eq_of_Holds a ((j, w) ∷ b) da db e h k =
      let ih =
        lookup-eq_of_Holds (delete j a) b (delete-HasDistinctKeys j a da) db.1
          (omega (arith, length-delete j a w h.0)) (Holds-delete j a b da db.0 db.1 h.1) k in
      ground (arith, eq_iff j k, lookup-delete j k a)
