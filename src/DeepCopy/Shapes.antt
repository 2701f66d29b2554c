-- ===== src/DeepCopy/Shapes.antt =====
-- What a Go object in a heap stands for and which addresses it reaches, built up from the types of
-- its parts as the deep copies (api/v1alpha1/zz_generated.deepcopy.go) are.
use node_readiness_gate_cont.Prelude.{
  ◌<◌, ◌≤◌, ◌≡◌, refl, ap, ◌∙◌, List, [], ◌∷◌, map, Option, none, some, All,
}
use node_readiness_gate_cont.DeepCopy.Objects.{Address, Kind, Cell, Heap}

-- The heaps hold the same at the addresses of the set.
abbrev pub Agrees : (Address → Type 0) → Heap → Heap → Type 0
Agrees P h h' = (k : Kind) (a : Address) → P a → h'.at k a ≡ h.at k a

-- Addresses in use, and addresses that the second heap has and the first has not.
abbrev pub IsOld : Heap → Address → Type 0
IsOld h a = a < h.next

abbrev pub IsNew : Heap → Heap → Address → Type 0
IsNew h h' a = (h.next ≤ a) × (a < h'.next)

-- Nothing that was in use has changed.
abbrev pub Extends : Heap → Heap → Type 0
Extends h h' = (h.next ≤ h'.next) × Agrees (IsOld h) h h'

pub record Shape (A V : Type 0) : Type 1 where
  pub value : Heap → A → V
  -- All addresses that the object reaches are in the set.
  pub Within : (Address → Type 0) → Heap → A → Type 0
  pub value_congr :
      (P : Address → Type 0) (h h' : Heap) (x : A)
      → Within P h x
      → Agrees P h h'
      → value h' x ≡ value h x
  pub Within-congr :
      (P : Address → Type 0) (h h' : Heap) (x : A) → Within P h x → Agrees P h h' → Within P h' x
  pub Within-mono :
      (P Q : Address → Type 0) (h : Heap) (x : A)
      → ((a : Address) → P a → Q a)
      → Within P h x
      → Within Q h x

-- A type without slices and pointers.
abbrev pub plain : (A : Type 0) → Shape A A
plain A = record {
  value = λ h x. x;
  Within = λ P h x. Unit {0};
  value_congr = λ P h h' x i s. refl;
  Within-congr = λ P h h' x i s. tt;
  Within-mono = λ P Q h x f i. tt;
}

abbrev pub both : {A B V W : Type 0} → Shape A V → Shape B W → Shape (A × B) (V × W)
both s t = record {
  value = λ h x. (s.value h x.0, t.value h x.1);
  Within = λ P h x. s.Within P h x.0 × t.Within P h x.1;
  value_congr = λ P h h' x i e.
      ap (λ v. (v, t.value h' x.1)) (s.value_congr P h h' x.0 i.0 e)
      ∙ ap (λ v. (s.value h x.0, v)) (t.value_congr P h h' x.1 i.1 e);
  Within-congr = λ P h h' x i e. (s.Within-congr P h h' x.0 i.0 e, t.Within-congr P h h' x.1 i.1 e);
  Within-mono = λ P Q h x f i. (s.Within-mono P Q h x.0 f i.0, t.Within-mono P Q h x.1 f i.1);
}

-- An object that is given by its parts, among them all that reach addresses.
abbrev pub parts : {A B V W : Type 0} → (A → B) → (A → V → W) → Shape B V → Shape A W
parts f g s = record {
  value = λ h x. g x (s.value h (f x));
  Within = λ P h x. s.Within P h (f x);
  value_congr = λ P h h' x i e. ap (g x) (s.value_congr P h h' (f x) i e);
  Within-congr = λ P h h' x i e. s.Within-congr P h h' (f x) i e;
  Within-mono = λ P Q h x f' i. s.Within-mono P Q h (f x) f' i;
}

module _ {A V : Type 0} (s : Shape A V) where
  pub map_congr :
      (P : Address → Type 0) (h h' : Heap) (xs : List A)
      → All (s.Within P h) xs
      → Agrees P h h'
      → map (s.value h') xs ≡ map (s.value h) xs
  map_congr P h h' [] i e = refl
  map_congr P h h' (x ∷ xs) i e =
      let here = s.value_congr P h h' x i.0 e in let there = map_congr P h h' xs i.1 e in cc

  pub All-congr :
      (P : Address → Type 0) (h h' : Heap) (xs : List A)
      → All (s.Within P h) xs
      → Agrees P h h'
      → All (s.Within P h') xs
  All-congr P h h' [] i e = tt
  All-congr P h h' (x ∷ xs) i e = (s.Within-congr P h h' x i.0 e, All-congr P h h' xs i.1 e)

  pub All-mono :
      (P Q : Address → Type 0) (h : Heap) (xs : List A)
      → ((a : Address) → P a → Q a)
      → All (s.Within P h) xs
      → All (s.Within Q h) xs
  All-mono P Q h [] f i = tt
  All-mono P Q h (x ∷ xs) f i = (s.Within-mono P Q h x f i.0, All-mono P Q h xs f i.1)

abbrev pub each : {A V : Type 0} → Shape A V → Shape (List A) (List V)
each s = record {
  value = λ h xs. map (s.value h) xs;
  Within = λ P h xs. All (s.Within P h) xs;
  value_congr = map_congr s;
  Within-congr = All-congr s;
  Within-mono = All-mono s;
}

module _ (k : Kind) {V : Type 0} (s : Shape (Cell k) V) where
  abbrev pointed_value : Heap → Option Address → Option V
  pointed_value h none = none
  pointed_value h (some a) = some (s.value h (h.at k a))

  abbrev PointedWithin : (Address → Type 0) → Heap → Option Address → Type 0
  PointedWithin P h none = Unit {0}
  PointedWithin P h (some a) = P a × s.Within P h (h.at k a)

  pub pointed_congr :
      (P : Address → Type 0) (h h' : Heap) (o : Option Address)
      → PointedWithin P h o
      → Agrees P h h'
      → pointed_value h' o ≡ pointed_value h o
  pointed_congr P h h' none i e = refl
  pointed_congr P h h' (some a) i e =
      let same = e k a i.0 in rw same (ap (λ v. some v) (s.value_congr P h h' (h.at k a) i.1 e))

  pub PointedWithin-congr :
      (P : Address → Type 0) (h h' : Heap) (o : Option Address)
      → PointedWithin P h o
      → Agrees P h h'
      → PointedWithin P h' o
  PointedWithin-congr P h h' none i e = tt
  PointedWithin-congr P h h' (some a) i e =
      let same = e k a i.0 in rw same (i.0, s.Within-congr P h h' (h.at k a) i.1 e)

  pub PointedWithin-mono :
      (P Q : Address → Type 0) (h : Heap) (o : Option Address)
      → ((a : Address) → P a → Q a)
      → PointedWithin P h o
      → PointedWithin Q h o
  PointedWithin-mono P Q h none f i = tt
  PointedWithin-mono P Q h (some a) f i = (f a i.0, s.Within-mono P Q h (h.at k a) f i.1)

  -- A pointer to what has the shape, or nil.
  abbrev pub pointed : Shape (Option Address) (Option V)
  pointed = record {
    value = pointed_value;
    Within = PointedWithin;
    value_congr = pointed_congr;
    Within-congr = PointedWithin-congr;
    Within-mono = PointedWithin-mono;
  }
