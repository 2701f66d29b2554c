-- ===== src/Controller/Laws.antt =====
-- The cache of the rules: each rule stands in it once and under its own name, after every change.
use node_readiness_gate_cont.Prelude.{
  ◌≡◌, sym, ap, ◌∙◌, inl, inr, String, none, some, ◌==◌, eq_iff, if◌then◌else◌, Bool-cases,
}
use node_readiness_gate_cont.Prelude.GoMap.{
  GoMap, lookup, insert, delete, HasDistinctKeys, lookup-insert, lookup-delete,
  insert-HasDistinctKeys, delete-HasDistinctKeys,
}
use node_readiness_gate_cont.Api.{NodeReadinessGateRule}

-- Every rule is cached once, under its own name.
pub record IsNamed (cache : GoMap NodeReadinessGateRule) : Type 0 where
  pub distinct : HasDistinctKeys cache
  pub own : (k : String) (rule : NodeReadinessGateRule) → lookup k cache ≡ some rule → rule.name ≡ k

pub insert-IsNamed :
    (k : String) (rule : NodeReadinessGateRule) (cache : GoMap NodeReadinessGateRule)
    → rule.name ≡ k
    → IsNamed cache
    → IsNamed (insert k rule cache)
insert-IsNamed k rule cache named i = record {
  distinct = insert-HasDistinctKeys k rule cache i.distinct;
  own = λ j r found. elim (Bool-cases (k == j)) [
    | inl same ↦
        let found' : some rule ≡ some r =
          sym (ap (λ b. if b then some rule else lookup j cache) same)
          ∙ sym (lookup-insert k j rule cache)
          ∙ found in
        let is_rule : rule ≡ r = cc in
        ap (λ (r : NodeReadinessGateRule). r.name) (sym is_rule) ∙ named ∙ (eq_iff k j).0 same
    | inr other ↦ i.own j r (
        sym (ap (λ b. if b then some rule else lookup j cache) other)
        ∙ sym (lookup-insert k j rule cache)
        ∙ found)
  ];
}

pub delete-IsNamed :
    (k : String) (cache : GoMap NodeReadinessGateRule) → IsNamed cache → IsNamed (delete k cache)
delete-IsNamed k cache i = record {
  distinct = delete-HasDistinctKeys k cache i.distinct;
  own = λ j r found. elim (Bool-cases (k == j)) [
    | inl same ↦
        let gone : none ≡ some r =
          sym (ap (λ b. if b then none else lookup j cache) same)
          ∙ sym (lookup-delete k j cache i.distinct)
          ∙ found in
        absurd (cc)
    | inr other ↦ i.own j r (
        sym (ap (λ b. if b then none else lookup j cache) other)
        ∙ sym (lookup-delete k j cache i.distinct)
        ∙ found)
  ];
}
