-- ===== src/Finalizers/Laws.antt =====
-- The finalizers of a rule as a set of names.
use mathlib.Core.List.{append-nil}
use node_readiness_gate_cont.Prelude.{
  ◌≡◌, String, not, ◌&&◌, ◌||◌, List, [], ◌∷◌, arith, eq_iff, eq_refl, ◌==◌, filter, any,
  any-append, Bool-cases, inl, inr, filter-append,
}
use node_readiness_gate_cont.Api.{NodeReadinessGateRule}
use node_readiness_gate_cont.Finalizers.{contains_finalizer, add_finalizer, remove_finalizer}

-- After `addFinalizer` the rule has exactly the finalizers that it had and the one added.
pub contains_finalizer-add_finalizer :
    (rule : NodeReadinessGateRule) (f g : String)
    → contains_finalizer (add_finalizer rule f) g ≡ (f == g) || contains_finalizer rule g
unfolding add_finalizer
contains_finalizer-add_finalizer rule f g = elim (Bool-cases (contains_finalizer rule f)) [
  | inl old ↦ ground (arith, eq_iff f g)
  | inr new ↦ ground (arith, any-append (λ (h : String). h == g) rule.finalizers (f ∷ []))
]

any_kept :
    (f g : String) (fs : List String)
    → any (λ h. h == g) (filter (λ h. not (h == f)) fs) ≡ (not (f == g) && any (λ h. h == g) fs)
any_kept f g [] = ground arith
any_kept f g (h ∷ hs) = ground (arith, eq_iff h f, eq_iff h g, eq_iff f g, any_kept f g hs)

-- After `removeFinalizer` the rule has exactly the finalizers that it had, without the one removed.
pub contains_finalizer-remove_finalizer :
    (rule : NodeReadinessGateRule) (f g : String)
    → contains_finalizer (remove_finalizer rule f) g ≡ (not (f == g) && contains_finalizer rule g)
unfolding contains_finalizer remove_finalizer
contains_finalizer-remove_finalizer rule f g = any_kept f g rule.finalizers

-- Removing a finalizer that was just added gives back the rule as it was without it.
pub remove_finalizer-add_finalizer :
    (rule : NodeReadinessGateRule) (f : String)
    → remove_finalizer (add_finalizer rule f) f ≡ remove_finalizer rule f
unfolding add_finalizer remove_finalizer
remove_finalizer-add_finalizer rule f = ground (
  arith,
  filter-append (λ (h : String). not (h == f)) rule.finalizers (f ∷ []),
  append-nil (filter (λ (h : String). not (h == f)) rule.finalizers),
  eq_refl f,
)

pub add_finalizer_keeps :
    (rule : NodeReadinessGateRule) (f : String)
    → ((add_finalizer rule f).spec ≡ rule.spec) × ((add_finalizer rule f).name ≡ rule.name)
unfolding add_finalizer
add_finalizer_keeps rule f = (ground arith, ground arith)
