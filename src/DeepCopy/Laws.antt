-- ===== src/DeepCopy/Laws.antt =====
-- The deep copies (api/v1alpha1/zz_generated.deepcopy.go) and what happens to the heap after them.
use node_readiness_gate_cont.Prelude.{◌<◌, ◌≡◌, refl, subst, ◌∙◌, List, Option, arith}
use node_readiness_gate_cont.Api.{NodeReadinessGateRule}
use node_readiness_gate_cont.DeepCopy.Objects.{
  Address, Kind, Cell, Heap, alloc, write, write_other, MetaCopies, rule_kind, rule_list_kind,
}
use node_readiness_gate_cont.DeepCopy.{
  copy_rule, deep_copy_rule, copy_rule_list, deep_copy_rule_list,
}
use node_readiness_gate_cont.DeepCopy.Shapes.{Agrees, IsOld, IsNew, Shape, pointed}
use node_readiness_gate_cont.DeepCopy.Copiers.{Copied, pointed-IsCopier}
use node_readiness_gate_cont.DeepCopy.Types.{
  IsCopying, rule_shape, rule_list_shape, copy_rule-IsCopier, copy_rule_list-IsCopier,
}

-- Any sequence of allocations, and of writes at addresses that are not of the set.
pub data Mutates (P : Address → Type 0) : Heap → Heap → Type 0 where
  unchanged : {h : Heap} → Mutates P h h
  written :
      {h h' : Heap} (k : Kind) (a : Address) (x : Cell k)
      → ¬ P a
      → Mutates P (write k a x h) h'
      → Mutates P h h'
  allocated : {h h' : Heap} (k : Kind) (x : Cell k) → Mutates P (alloc k x h).1 h' → Mutates P h h'

pub Mutates-Agrees :
    (P : Address → Type 0) (h h' : Heap)
    → ((a : Address) → P a → a < h.next)
    → Mutates P h h'
    → Agrees P h h'
unfolding alloc
Mutates-Agrees P h h' old unchanged = λ k a i. refl
Mutates-Agrees P h h' old (written k a x other m) = λ j b i.
    Mutates-Agrees P (write k a x h) h' (unfold write in old) m j b i
    ∙ write_other k a x h j b (λ q. other (subst P q i))
Mutates-Agrees P h h' old (allocated k x m) = λ j b i.
    Mutates-Agrees P (alloc k x h).1 h' (λ c l. omega (arith, old c l)) m j b i
    ∙ write_other k h.next x h j b (omega (arith, old b i))

-- What a pointer to a rule stands for: no rule if it is nil.
abbrev pub rule_pointer : Shape (Option Address) (Option NodeReadinessGateRule)
rule_pointer = pointed rule_kind rule_shape

abbrev pub rule_list_pointer : Shape (Option Address) (Option (List NodeReadinessGateRule))
rule_list_pointer = pointed rule_list_kind rule_list_shape

-- The copy stands for the rule of the original; so does each of the two still after any writes
-- that go to no address of its own.
abbrev pub IsIndependent :
    {V : Type 0} → Shape (Option Address) V → Heap → Option Address → Option Address × Heap → Type 0
IsIndependent s h o (o', h') =
    ((h'' : Heap) → Mutates (IsOld h) h' h'' → s.value h'' o ≡ s.value h o)
    × ((h'' : Heap) → Mutates (IsNew h h') h' h'' → s.value h'' o' ≡ s.value h o)

Copied-IsIndependent :
    {V : Type 0} (s : Shape (Option Address) V) (h : Heap) (o : Option Address)
    (p : Option Address × Heap)
    → s.Within (IsOld h) h o
    → Copied s h o p
    → IsIndependent s h o p
Copied-IsIndependent s h o p i c =
    let (more, same) = c.extends in
    (
      λ h'' m.
          s.value_congr (IsOld h) h h'' o i
            (λ k a j. Mutates-Agrees (IsOld h) p.1 h'' (λ b l. omega arith) m k a j ∙ same k a j),
      λ h'' m.
          s.value_congr (IsNew h p.1) p.1 h'' p.0 c.fresh
            (Mutates-Agrees (IsNew h p.1) p.1 h'' (λ b l. l.1) m)
          ∙ c.same,
    )

module _ (m : MetaCopies) (l : IsCopying m) where
  -- The pointer that DeepCopy of a rule gives stands for the same rule as the original, and shares
  -- nothing with it, its finalizers, deletion timestamp and selector included, if all that the
  -- original reaches was allocated and the deep copies of apimachinery (of ObjectMeta,
  -- LabelSelector, Time and Condition) are deep copies: after any allocations and any writes to what was not
  -- there before the copy was made, the original stands for the rule that it stood for, and after
  -- any allocations and any writes to what the copying did not allocate, so does the copy.
  pub deep_copy_rule-IsIndependent :
      (o : Option Address) (h : Heap)
      → rule_pointer.Within (IsOld h) h o
      → IsIndependent rule_pointer h o (deep_copy_rule m o h)
  unfolding deep_copy_rule
  deep_copy_rule-IsIndependent o h i =
      Copied-IsIndependent rule_pointer h o (deep_copy_rule m o h) i
        (pointed-IsCopier rule_kind rule_shape (copy_rule m) (copy_rule-IsCopier m l) o h i)

  -- The same of the pointer that DeepCopy of a list of rules gives.
  pub deep_copy_rule_list-IsIndependent :
      (o : Option Address) (h : Heap)
      → rule_list_pointer.Within (IsOld h) h o
      → IsIndependent rule_list_pointer h o (deep_copy_rule_list m o h)
  unfolding deep_copy_rule_list
  deep_copy_rule_list-IsIndependent o h i =
      Copied-IsIndependent rule_list_pointer h o (deep_copy_rule_list m o h) i (
        pointed-IsCopier rule_list_kind rule_list_shape (copy_rule_list m)
          (copy_rule_list-IsCopier m l) o h i)
