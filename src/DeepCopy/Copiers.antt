-- ===== src/DeepCopy/Copiers.antt =====
-- The combinations from which the deep copies (api/v1alpha1/zz_generated.deepcopy.go) are made,
-- each of which copies if its parts do.
use node_readiness_gate_cont.Prelude.{◌≡◌, refl, ap, ◌∙◌, [], ◌∷◌, none, some, arith}
use node_readiness_gate_cont.DeepCopy.Objects.{Kind, Cell, Heap, alloc, write_other, at-alloc}
use node_readiness_gate_cont.DeepCopy.{copy_each, copy_pointed}
use node_readiness_gate_cont.DeepCopy.Shapes.{
  Agrees, IsOld, IsNew, Extends, Shape, plain, both, each, pointed,
}

-- The second object is a copy of the first: what was there is untouched, the copy reaches only new
-- addresses, and it stands for the same.
pub record Copied {A V : Type 0} (s : Shape A V) (h : Heap) (x : A) (p : A × Heap) : Type 0 where
  pub extends : Extends h p.1
  pub fresh : s.Within (IsNew h p.1) p.1 p.0
  pub same : s.value p.1 p.0 ≡ s.value h x

abbrev pub IsCopier : {A V : Type 0} → Shape A V → (A → Heap → A × Heap) → Type 0
IsCopier {A} s copy = (x : A) (h : Heap) → s.Within (IsOld h) h x → Copied s h x (copy x h)

pub Extends-trans : (h h' h'' : Heap) → Extends h h' → Extends h' h'' → Extends h h''
Extends-trans h h' h'' e f = (omega arith, λ k a i. f.1 k a (omega arith) ∙ e.1 k a i)

alloc-Extends : (k : Kind) (x : Cell k) (h : Heap) → Extends h (alloc k x h).1
unfolding alloc
alloc-Extends k x h = (omega arith, λ j b i. write_other k h.next x h j b (omega arith))

pub plain-IsCopier :
    {A : Type 0} (f : A → A) → ((x : A) → f x ≡ x) → IsCopier (plain A) (λ x h. (f x, h))
plain-IsCopier f same x h i = record {
  extends = (omega arith, λ k a j. refl);
  fresh = tt;
  same = same x;
}

-- One copy after the other.
abbrev pub copy_both :
    {A B : Type 0} → (A → Heap → A × Heap) → (B → Heap → B × Heap) → A × B → Heap → (A × B) × Heap
copy_both f g x h = let (y, h') = f x.0 h in let (z, h'') = g x.1 h' in ((y, z), h'')

both-Copied :
    {A B V W : Type 0} (s : Shape A V) (t : Shape B W) (f : A → Heap → A × Heap)
    (g : B → Heap → B × Heap) (x : A × B) (h : Heap)
    → (both s t).Within (IsOld h) h x
    → Copied s h x.0 (f x.0 h)
    → (t.Within (IsOld (f x.0 h).1) (f x.0 h).1 x.1 → Copied t (f x.0 h).1 x.1 (g x.1 (f x.0 h).1))
    → Copied (both s t) h x (copy_both f g x h)
both-Copied s t f g x h i first cg =
    let h' = (f x.0 h).1 in
    let old = t.Within-congr (IsOld h) h h' x.1 i.1 first.extends.1 in
    let second =
      cg (t.Within-mono (IsOld h) (IsOld h') h' x.1 (λ a j. omega (arith, first.extends.0)) old) in
    let h'' = (g x.1 h').1 in
    let kept : Agrees (IsNew h h') h' h'' = λ k a j. second.extends.1 k a j.1 in
    record {
      extends = Extends-trans h h' h'' first.extends second.extends;
      fresh = (
        s.Within-mono (IsNew h h') (IsNew h h'') h'' (f x.0 h).0
            (λ a j. (j.0, omega (arith, second.extends.0)))
            (s.Within-congr (IsNew h h') h' h'' (f x.0 h).0 first.fresh kept),
        t.Within-mono (IsNew h' h'') (IsNew h h'') h'' (g x.1 h').0
            (λ a j. (omega (arith, first.extends.0), j.1)) second.fresh,
      );
      same =
          ap (λ v. (v, t.value h'' (g x.1 h').0))
            (s.value_congr (IsNew h h') h' h'' (f x.0 h).0 first.fresh kept ∙ first.same)
          ∙ ap (λ v. (s.value h x.0, v))
              (second.same ∙ t.value_congr (IsOld h) h h' x.1 i.1 first.extends.1);
    }

pub both-IsCopier :
    {A B V W : Type 0} (s : Shape A V) (t : Shape B W) (f : A → Heap → A × Heap)
    (g : B → Heap → B × Heap)
    → IsCopier s f
    → IsCopier t g
    → IsCopier (both s t) (copy_both f g)
both-IsCopier s t f g cf cg x h i = both-Copied s t f g x h i (cf x.0 h i.0) (cg x.1 (f x.0 h).1)

module _ {A V : Type 0} (s : Shape A V) (f : A → Heap → A × Heap) (cf : IsCopier s f) where
  pub each-IsCopier : IsCopier (each s) (copy_each f)
  unfolding copy_each
  each-IsCopier [] h i = record { extends = (omega arith, λ k a j. refl); fresh = tt; same = refl }
  each-IsCopier (x ∷ xs) h i =
      let c =
        both-Copied s (each s) f (copy_each f) (x, xs) h i (cf x h i.0)
          (each-IsCopier xs (f x h).1) in
      record { extends = c.extends; fresh = c.fresh; same = ap (λ v. v.0 ∷ v.1) c.same }

pub pointed-IsCopier :
    (k : Kind) {V : Type 0} (s : Shape (Cell k) V) (f : Cell k → Heap → Cell k × Heap)
    → IsCopier s f
    → IsCopier (pointed k s) (copy_pointed k f)
unfolding copy_pointed alloc
pointed-IsCopier k s f cf none h i = record {
  extends = (omega arith, λ j a l. refl);
  fresh = tt;
  same = refl;
}
pointed-IsCopier k s f cf (some a) h i =
    let first = cf (h.at k a) h i.1 in
    let h' = (f (h.at k a) h).1 in
    let x = (f (h.at k a) h).0 in
    let h'' = (alloc k x h').1 in
    let more = alloc-Extends k x h' in
    let kept : Agrees (IsNew h h') h' h'' = λ j b l. more.1 j b l.1 in
    let there = at-alloc k x h' in
    record {
      extends = Extends-trans h h' h'' first.extends more;
      fresh = (
        (first.extends.0, omega arith),
        rw there (
            s.Within-mono (IsNew h h') (IsNew h h'') h'' x (λ b j. (j.0, omega arith))
              (s.Within-congr (IsNew h h') h' h'' x first.fresh kept)),
      );
      same =
          ap (λ y. some (s.value h'' y)) there
          ∙ ap (λ v. some v) (s.value_congr (IsNew h h') h' h'' x first.fresh kept ∙ first.same);
    }
