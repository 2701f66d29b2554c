-- ===== src/Examples/Memory/Nodes.antt =====
-- What the server in memory does to its nodes.
use mathlib.Core.Path.{fun_ext}
use node_readiness_gate_cont.Prelude.{
  ◌≡◌, refl, sym, ap, subst, ◌∙◌, ◌≢◌, inl, inr, String, true, List, [], ◌∷◌, Option, none, some,
  ok, err, arith, ◌==◌, eq_iff, Bool-cases,
}
use node_readiness_gate_cont.Core.{Node, Taint}
use node_readiness_gate_cont.Api.{NodeReadinessGateRule}
use node_readiness_gate_cont.Client.Store.{node_named, HasDistinctNames, put}
use node_readiness_gate_cont.Examples.Memory.{
  Memory, Refusal, store_node, is_none, are_distinct, rule_named, answer_of, write_node,
  patch_taints, nodes_of, rules_at,
}

pub node_named_name :
    (k : String) (ns : List Node) (n : Node) → node_named k ns ≡ some n → n.name ≡ k
node_named_name k [] n h = absurd (cc)
node_named_name k (m ∷ ns) n h = elim (Bool-cases (m.name == k)) [
  | inl e ↦
      let same : some m ≡ some n = rw e at h in
      ap (λ (o : Option Node). elim o [ none ↦ k | some x ↦ x.name ]) (sym same)
      ∙ (eq_iff m.name k).0 e
  | inr d ↦ node_named_name k ns n (rw d at h)
]

node_named-store_node :
    (n old : Node) (ms : List Node) (k : String)
    → node_named n.name ms ≡ some old
    → node_named k (store_node n ms) ≡ put n.name n (λ j. node_named j ms) k
node_named-store_node n old [] k h = absurd (cc)
node_named-store_node n old (m ∷ ms) k h = ground (
  arith,
  eq_iff m.name n.name,
  eq_iff m.name k,
  eq_iff n.name k,
  node_named-store_node n old ms k,
)

pub are_distinct-HasDistinctNames : (ns : List Node) → are_distinct ns ≡ true → HasDistinctNames ns
are_distinct-HasDistinctNames [] h = tt
are_distinct-HasDistinctNames (n ∷ ns) h =
    (unnamed (node_named n.name ns) (ground arith), are_distinct-HasDistinctNames ns (ground arith))
  where
    unnamed : (o : Option Node) → is_none o ≡ true → o ≡ none
    unnamed none h = refl
    unnamed (some m) h = absurd (cc)

pub rule_named_name :
    (k : String) (o : Option NodeReadinessGateRule) (r : NodeReadinessGateRule)
    → rule_named k o ≡ some r
    → r.name ≡ k
rule_named_name k none r h = absurd (cc)
rule_named_name k (some q) r h = elim (Bool-cases (q.name == k)) [
  | inl e ↦
      let same : some q ≡ some r = rw e at h in
      ap (λ (o : Option NodeReadinessGateRule). elim o [ none ↦ k | some x ↦ x.name ]) (sym same)
      ∙ (eq_iff q.name k).0 e
  | inr d ↦ let none_here : none ≡ some r = rw d at h in absurd (cc)
]

module _ {ℓ κ} {A : Type ℓ} {B : Type κ} (f : Memory → B) where
  pub answer_of_keeps : (o : Option A) (w : Memory) → f (answer_of o w).1 ≡ f w
  answer_of_keeps none w = refl
  answer_of_keeps (some a) w = refl

pub answer_of_ok :
    {A : Type 0} (o : Option A) (w w' : Memory) (a : A) → answer_of o w ≡ (ok a, w') → o ≡ some a
answer_of_ok none w w' a h = absurd (cc)
answer_of_ok (some b) w w' a h = cc

put_stored :
    (n old : Node) (w : Memory)
    → node_named n.name w.nodes ≡ some old
    → nodes_of (record w { nodes = store_node n w.nodes }) ≡ put n.name n (nodes_of w)
put_stored n old w h = fun_ext (λ k. node_named-store_node n old w.nodes k h)

pub write_node_ok :
    (n m : Node) (o : Option Node) (w w' : Memory)
    → node_named n.name w.nodes ≡ o
    → write_node n o w ≡ (ok m, w')
    → nodes_of w' ≡ put n.name n (nodes_of w)
write_node_ok n m none w w' at h = absurd (cc)
write_node_ok n m (some old) w w' at h =
    let same : record w { nodes = store_node n w.nodes } ≡ w' = cc in
    ap nodes_of (sym same) ∙ put_stored n old w at

pub write_node_err :
    (n : Node) (e : Refusal) (o : Option Node) (w w' : Memory)
    → write_node n o w ≡ (err e, w')
    → w' ≡ w
write_node_err n e none w w' h = cc
write_node_err n e (some old) w w' h = absurd (cc)

pub write_node_rules :
    (n : Node) (o : Option Node) (w : Memory) → rules_at (write_node n o w).1 ≡ rules_at w
write_node_rules n none w = refl
write_node_rules n (some old) w = refl

pub patch_taints_ok :
    (base n : Node) (taints : List Taint) (o : Option Node) (w w' : Memory)
    → node_named base.name w.nodes ≡ o
    → patch_taints taints o w ≡ (ok n, w')
    → (old : Node) × (nodes_of w base.name ≡ some old)
      × (n ≡ record old { taints = taints })
      × (nodes_of w' ≡ put base.name n (nodes_of w))
      × (rules_at w' ≡ rules_at w)
patch_taints_ok base n taints none w w' at h = absurd (cc)
patch_taints_ok base n taints (some old) w w' at h =
    let new : Node = record old { taints = taints } in
    let same : record w { nodes = store_node new w.nodes } ≡ w' = cc in
    let sent : new ≡ n = cc in
    let both : (new, record w { nodes = store_node new w.nodes }) ≡ (n, w') = cc in
    let named = node_named_name base.name w.nodes old at in
    (
      old,
      at,
      sym sent,
      subst (λ (q : Node × Memory). nodes_of q.1 ≡ put base.name q.0 (nodes_of w)) both
          (subst
            (λ x. nodes_of (record w { nodes = store_node new w.nodes }) ≡ put x new (nodes_of w))
            named (put_stored new old w (ap (λ x. node_named x w.nodes) named ∙ at))),
      ap rules_at (sym same),
    )

pub patch_taints_others :
    (taints : List Taint) (name : String) (o : Option Node) (w : Memory) (k : String)
    → node_named name w.nodes ≡ o
    → k ≢ name
    → nodes_of (patch_taints taints o w).1 k ≡ nodes_of w k
patch_taints_others taints name none w k at other = refl
patch_taints_others taints name (some old) w k at other =
    let new : Node = record old { taints = taints } in
    let named : new.name ≡ name = node_named_name name w.nodes old at in
    ground (
      arith,
      node_named-store_node new old w.nodes k (ap (λ x. node_named x w.nodes) named ∙ at),
      eq_iff new.name k,
    )

pub patch_taints_rules :
    (taints : List Taint) (o : Option Node) (w : Memory)
    → rules_at (patch_taints taints o w).1 ≡ rules_at w
patch_taints_rules taints none w = refl
patch_taints_rules taints (some old) w = refl
