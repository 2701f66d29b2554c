-- ===== src/Examples/Memory/Stored.antt =====
-- The server in memory as a store.
use mathlib.Core.Path.{fun_ext}
use node_readiness_gate_cont.Prelude.{
  ◌≡◌, refl, sym, ap, subst, ◌∙◌, inl, String, Bool, true, false, List, Option, none, some, ok, err,
  arith, eq_iff, eq_refl,
}
use node_readiness_gate_cont.Core.{Node}
use node_readiness_gate_cont.Api.{NodeReadinessGateRule}
use node_readiness_gate_cont.Client.Store.{Store, node_named, HasDistinctNames, put, last}
use node_readiness_gate_cont.Examples.Memory.{
  Memory, Refusal, are_distinct, rule_named, write_rule, write_status, listed, memory, nodes_of,
  rules_at,
}
use node_readiness_gate_cont.Examples.Memory.Nodes.{
  node_named_name, answer_of_keeps, answer_of_ok, write_node_ok, write_node_err, write_node_rules,
  patch_taints_ok, patch_taints_others, patch_taints_rules, rule_named_name,
  are_distinct-HasDistinctNames,
}

pub write_rule_nodes :
    (r : NodeReadinessGateRule) (o : Option NodeReadinessGateRule) (w : Memory)
    → nodes_of (write_rule r o w).1 ≡ nodes_of w
write_rule_nodes r none w = refl
write_rule_nodes r (some old) w = refl

pub write_status_nodes :
    (r : NodeReadinessGateRule) (o : Option NodeReadinessGateRule) (w : Memory)
    → nodes_of (write_status r o w).1 ≡ nodes_of w
write_status_nodes r none w = refl
write_status_nodes r (some old) w = refl

pub write_rule_ok :
    (sent r x : NodeReadinessGateRule) (o : Option NodeReadinessGateRule) (w w' : Memory)
    → write_rule sent o w ≡ (ok r, w')
    → rules_at w' sent.name ≡ some x
    → (x.spec ≡ sent.spec) × (x.finalizers ≡ sent.finalizers)
write_rule_ok sent r x none w w' h there = absurd (cc)
write_rule_ok sent r x (some old) w w' h there =
    let new : NodeReadinessGateRule = record sent {
      status = old.status;
      generation = old.generation;
    } in
    let same : record w { rule = some new } ≡ w' = cc in
    let self : rules_at (record w { rule = some new }) sent.name ≡ some new =
      rw (eq_refl sent.name) in
    let found : some new ≡ some x = sym self ∙ ap (λ v. rules_at v sent.name) same ∙ there in
    let is_new : new ≡ x = cc in
    (
      ap (λ (r : NodeReadinessGateRule). r.spec) (sym is_new),
      ap (λ (r : NodeReadinessGateRule). r.finalizers) (sym is_new),
    )

stored_rule :
    (old new : NodeReadinessGateRule) (o : Option NodeReadinessGateRule) (k : String)
    → rule_named new.name o ≡ some old
    → rule_named k (some new) ≡ put new.name new (λ j. rule_named j o) k
stored_rule old new none k at = absurd (cc)
stored_rule old new (some q) k at =
    ground (arith, eq_iff q.name new.name, eq_iff q.name k, eq_iff new.name k)

pub write_status_ok :
    (sent r : NodeReadinessGateRule) (o : Option NodeReadinessGateRule) (w w' : Memory)
    → rule_named sent.name w.rule ≡ o
    → write_status sent o w ≡ (ok r, w')
    → (old : NodeReadinessGateRule) × (rules_at w sent.name ≡ some old)
      × (r.status ≡ sent.status)
      × (r.spec ≡ old.spec)
      × (rules_at w' ≡ put sent.name r (rules_at w))
write_status_ok sent r none w w' at h = absurd (cc)
write_status_ok sent r (some old) w w' at h =
    let new : NodeReadinessGateRule = record old { status = sent.status } in
    let both : (new, record w { rule = some new }) ≡ (r, w') = cc in
    let named : new.name ≡ sent.name = rule_named_name sent.name w.rule old at in
    let found : rule_named new.name w.rule ≡ some old = ap (λ x. rule_named x w.rule) named ∙ at in
    (
      old,
      at,
      ap (λ (q : NodeReadinessGateRule × Memory). q.0.status) (sym both),
      ap (λ (q : NodeReadinessGateRule × Memory). q.0.spec) (sym both),
      subst (λ (q : NodeReadinessGateRule × Memory). rules_at q.1 ≡ put sent.name q.0 (rules_at w))
          both
          (subst (λ x. rules_at (record w { rule = some new }) ≡ put x new (rules_at w)) named
            (fun_ext (λ k. stored_rule old new w.rule k found))),
    )

pub write_status_err :
    (sent : NodeReadinessGateRule) (e : Refusal) (o : Option NodeReadinessGateRule) (w w' : Memory)
    → write_status sent o w ≡ (err e, w')
    → w' ≡ w
write_status_err sent e none w w' h = cc
write_status_err sent e (some old) w w' h = absurd (cc)

-- What holds of the generation of a rule once another version of it is stored.
rewritten_generation :
    (old sent new : NodeReadinessGateRule) (o : Option NodeReadinessGateRule) (name k : String)
    → rule_named name o ≡ some old
    → sent.name ≡ name
    → sent.generation ≡ old.generation
    → rule_named k (some sent) ≡ some new
    → (x : NodeReadinessGateRule) × (rule_named k o ≡ some x) × (new.generation ≡ x.generation)
rewritten_generation old sent new none name k at named kept h = absurd (cc)
rewritten_generation old sent new (some x) name k at named kept h =
    let same : x ≡ old = ground (arith, eq_iff x.name name) in
    let is_new : sent ≡ new = ground (arith, eq_iff sent.name k) in
    (
      x,
      ground (arith, eq_iff x.name k, eq_iff x.name name, eq_iff sent.name k),
      ap (λ (r : NodeReadinessGateRule). r.generation) (sym is_new)
          ∙ kept
          ∙ ap (λ (r : NodeReadinessGateRule). r.generation) (sym same),
    )

pub write_status_generation :
    (sent new : NodeReadinessGateRule) (o : Option NodeReadinessGateRule) (w : Memory) (k : String)
    → rule_named sent.name w.rule ≡ o
    → rules_at (write_status sent o w).1 k ≡ some new
    → (old : NodeReadinessGateRule) × (rules_at w k ≡ some old) × (new.generation ≡ old.generation)
write_status_generation sent new none w k at h = (new, h, refl)
write_status_generation sent new (some old) w k at h =
    rewritten_generation old (record old { status = sent.status }) new w.rule sent.name k at
      (rule_named_name sent.name w.rule old at) refl h

pub write_rule_generation :
    (sent new : NodeReadinessGateRule) (o : Option NodeReadinessGateRule) (w : Memory) (k : String)
    → rule_named sent.name w.rule ≡ o
    → rules_at (write_rule sent o w).1 k ≡ some new
    → (old : NodeReadinessGateRule) × (rules_at w k ≡ some old) × (new.generation ≡ old.generation)
write_rule_generation sent new none w k at h = (new, h, refl)
write_rule_generation sent new (some old) w k at h =
    rewritten_generation old (record sent { status = old.status; generation = old.generation }) new
      w.rule sent.name k at refl refl h

pub listed_keeps : {B : Type 0} (f : Memory → B) (b : Bool) (w : Memory) → f (listed b w).1 ≡ f w
listed_keeps f true w = refl
listed_keeps f false w = refl

pub listed_ok :
    (b : Bool) (w w' : Memory) (ns : List Node)
    → are_distinct w.nodes ≡ b
    → listed b w ≡ (ok ns, w')
    → HasDistinctNames ns × ((k : String) → nodes_of w k ≡ node_named k ns)
listed_ok true w w' ns d h =
    let same : w.nodes ≡ ns = cc in
    (
      subst HasDistinctNames same (are_distinct-HasDistinctNames w.nodes d),
      λ k. ap (node_named k) same,
    )
listed_ok false w w' ns d h = absurd (cc)

unfoldable pub memory_store : Store memory
memory_store = record {
  node_at = nodes_of;
  rule_at = rules_at;
  node_name = λ w k n h. node_named_name k w.nodes n h;
  now_nodes = λ w. refl;
  now_rules = λ w. refl;
  get_node_nodes = λ w k. answer_of_keeps nodes_of (node_named k w.nodes) w;
  get_node_rules = λ w k. answer_of_keeps rules_at (node_named k w.nodes) w;
  get_node_ok = λ w w' k n h. answer_of_ok (node_named k w.nodes) w w' n h;
  list_nodes_nodes = λ w. listed_keeps nodes_of (are_distinct w.nodes) w;
  list_nodes_rules = λ w. listed_keeps rules_at (are_distinct w.nodes) w;
  list_nodes_ok = λ w w' ns h. listed_ok (are_distinct w.nodes) w w' ns refl h;
  patch_taints_ok = λ w w' base n taints h.
      patch_taints_ok base n taints (node_named base.name w.nodes) w w' refl h;
  patch_node_others = λ w base sent k other.
      patch_taints_others sent.taints sent.name (node_named sent.name w.nodes) w k refl other;
  patch_node_rules = λ w base sent. patch_taints_rules sent.taints (node_named sent.name w.nodes) w;
  update_node_ok = λ w w' sent n h. write_node_ok sent n (node_named sent.name w.nodes) w w' refl h;
  update_node_err = λ w w' sent e h.
      inl (ap nodes_of (write_node_err sent e (node_named sent.name w.nodes) w w' h));
  update_node_conflict =
      λ w w' sent e h q. ap nodes_of (write_node_err sent e (node_named sent.name w.nodes) w w' h);
  update_node_rules = λ w sent. write_node_rules sent (node_named sent.name w.nodes) w;
  get_rule_nodes = λ w k. answer_of_keeps nodes_of (rule_named k w.rule) w;
  get_rule_rules = λ w k. answer_of_keeps rules_at (rule_named k w.rule) w;
  get_rule_ok = λ w w' k r h.
      let found = answer_of_ok (rule_named k w.rule) w w' r h in
      (found, rule_named_name k w.rule r found);
  update_rule_nodes = λ w sent. write_rule_nodes sent (rule_named sent.name w.rule) w;
  update_rule_status_nodes = λ w sent. write_status_nodes sent (rule_named sent.name w.rule) w;
  update_rule_ok =
      λ w w' sent r x h there. write_rule_ok sent r x (rule_named sent.name w.rule) w w' h there;
  update_rule_generation = λ w sent stored k new at same h.
      write_rule_generation sent new (rule_named sent.name w.rule) w k refl h;
  update_rule_status_ok =
      λ w w' sent r h. write_status_ok sent r (rule_named sent.name w.rule) w w' refl h;
  update_rule_status_generation =
      λ w sent k new h. write_status_generation sent new (rule_named sent.name w.rule) w k refl h;
  update_rule_status_conflict =
      λ w w' sent e h q. ap rules_at (write_status_err sent e (rule_named sent.name w.rule) w w' h);
  retry_on_conflict_lem = λ f w. last refl;
}
