-- ===== src/Examples/Memory.antt =====
-- An API server that keeps its nodes in a list and holds at most one rule, and selectors that
-- compare labels: they show that the interfaces of the libraries can be implemented.
pub mod Stored
pub mod Nodes
use mathlib.Core.Path.{fun_ext}
use node_readiness_gate_cont.Prelude.{
  ℕ, suc, ◌≡◌, refl, sym, ap, subst, ◌∙◌, ◌≢◌, inl, inr, String, Bool, true, false, ◌&&◌, List, [],
  ◌∷◌, Option, none, some, Result, ok, err, arith, ◌==◌, eq_iff, eq_refl, if◌then◌else◌, Bool-cases,
}
use node_readiness_gate_cont.Prelude.GoMap.{GoMap, lookup}
use node_readiness_gate_cont.Core.{Node, Taint, LabelSelector, Selectors, IsLawful}
use node_readiness_gate_cont.Api.{NodeReadinessGateRule}
use node_readiness_gate_cont.Client.{Client}
use node_readiness_gate_cont.Client.Store.{Store, node_named, HasDistinctNames, put, Retried, last}

pub record Memory : Type 0 where
  pub nodes : List Node
  pub rule : Option NodeReadinessGateRule
  pub time : ℕ

pub data Refusal : Type 0 where
  absent : Refusal
  unreadable : Refusal

abbrev pub is_absent : Refusal → Bool
is_absent absent = true
is_absent unreadable = false

abbrev pub store_node : Node → List Node → List Node
store_node n [] = []
store_node n (m ∷ ms) = let rest = store_node n ms in if m.name == n.name then n ∷ ms else m ∷ rest

abbrev pub is_none : Option Node → Bool
is_none none = true
is_none (some n) = false

abbrev pub are_distinct : List Node → Bool
are_distinct [] = true
are_distinct (n ∷ ns) = is_none (node_named n.name ns) && are_distinct ns

abbrev pub rule_named : String → Option NodeReadinessGateRule → Option NodeReadinessGateRule
rule_named k none = none
rule_named k (some r) = if r.name == k then some r else none

abbrev pub answer_of {ℓ} : {A : Type ℓ} → Option A → Memory → Result Refusal A × Memory
answer_of none w = (err absent, w)
answer_of (some a) w = (ok a, w)

-- A write of the node, if one of its name is stored.
abbrev pub write_node : Node → Option Node → Memory → Result Refusal Node × Memory
write_node n none w = (err absent, w)
write_node n (some old) w = (ok n, record w { nodes = store_node n w.nodes })

-- Of a patch, the taints.
abbrev pub patch_taints : List Taint → Option Node → Memory → Result Refusal Node × Memory
patch_taints taints none w = (err absent, w)
patch_taints taints (some old) w =
    let n = record old { taints = taints } in (ok n, record w { nodes = store_node n w.nodes })

abbrev pub write_rule :
    NodeReadinessGateRule
    → Option NodeReadinessGateRule
    → Memory
    → Result Refusal NodeReadinessGateRule × Memory
write_rule r none w = (err absent, w)
write_rule r (some old) w =
    let new = record r { status = old.status; generation = old.generation } in
    (ok new, record w { rule = some new })

abbrev pub write_status :
    NodeReadinessGateRule
    → Option NodeReadinessGateRule
    → Memory
    → Result Refusal NodeReadinessGateRule × Memory
write_status r none w = (err absent, w)
write_status r (some old) w =
    let new = record old { status = r.status } in (ok new, record w { rule = some new })

abbrev pub rules_of : Option NodeReadinessGateRule → List NodeReadinessGateRule
rules_of none = []
rules_of (some r) = r ∷ []

abbrev pub listed : Bool → Memory → Result Refusal (List Node) × Memory
listed b w = if b then (ok w.nodes, w) else (err unreadable, w)

abbrev pub memory : Client
memory = record {
  World = Memory;
  Err = Refusal;
  is_not_found = is_absent;
  is_conflict = λ e. false;
  message = λ e. "refused";
  now = λ w. (w.time, record w { time = suc w.time });
  get_node = λ name w. answer_of (node_named name w.nodes) w;
  list_nodes = λ w. listed (are_distinct w.nodes) w;
  update_node = λ n w. write_node n (node_named n.name w.nodes) w;
  patch_node = λ base n w. patch_taints n.taints (node_named n.name w.nodes) w;
  get_rule = λ name w. answer_of (rule_named name w.rule) w;
  list_rules = λ w. (ok (rules_of w.rule), w);
  update_rule = λ r w. write_rule r (rule_named r.name w.rule) w;
  update_rule_status = λ r w. write_status r (rule_named r.name w.rule) w;
  retry_on_conflict = λ f w. f w;
}

abbrev pub nodes_of : Memory → String → Option Node
nodes_of w k = node_named k w.nodes

abbrev pub rules_at : Memory → String → Option NodeReadinessGateRule
rules_at w k = rule_named k w.rule
