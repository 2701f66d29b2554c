-- ===== src/Client/Store.antt =====
-- What the program relies on of the API server while nobody else writes to it: reads return the
-- stored objects and change none, a successful write stores what was sent, and a write that is
-- refused for a conflict changes nothing.
use node_readiness_gate_cont.Prelude.{
  String, Bool, true, List, [], ◌∷◌, Option, none, some, ok, err, ◌≡◌, ◌==◌, ◌⊎◌, ◌≢◌,
  if◌then◌else◌,
}
use node_readiness_gate_cont.Core.{Node, Taint}
use node_readiness_gate_cont.Api.{NodeReadinessGateRule}
use node_readiness_gate_cont.Client.{Client}

-- The node of the list with the name.
abbrev pub node_named : String → List Node → Option Node
node_named name [] = none
node_named name (n ∷ ns) = if n.name == name then some n else node_named name ns

-- No two nodes of the list have one name.
abbrev pub HasDistinctNames : List Node → Type 0
HasDistinctNames [] = Unit
HasDistinctNames (n ∷ ns) = (node_named n.name ns ≡ none) × HasDistinctNames ns

abbrev pub put {ℓ} : {A : Type ℓ} → String → A → (String → Option A) → String → Option A
put name a view k = if name == k then some a else view k

-- The runs of a retried function: the last attempt decides, and only conflicts are tried again.
pub data Retried {W E : Type 0} (is_conflict : E → Bool) (f : W → Option E × W)
    : W → Option E × W → Type 0 where
  last : {w : W} {out : Option E × W} → f w ≡ out → Retried is_conflict f w out
  again :
      {w w' : W} {e : E} {out : Option E × W}
      → f w ≡ (some e, w')
      → is_conflict e ≡ true
      → Retried is_conflict f w' out
      → Retried is_conflict f w out

pub record Store (c : Client) : Type 0 where
  pub node_at : c.World → String → Option Node
  pub rule_at : c.World → String → Option NodeReadinessGateRule
  pub node_name : (w : c.World) (k : String) (n : Node) → node_at w k ≡ some n → n.name ≡ k
  pub now_nodes : (w : c.World) → node_at (c.now w).1 ≡ node_at w
  pub now_rules : (w : c.World) → rule_at (c.now w).1 ≡ rule_at w
  pub get_node_nodes : (w : c.World) (k : String) → node_at (c.get_node k w).1 ≡ node_at w
  pub get_node_rules : (w : c.World) (k : String) → rule_at (c.get_node k w).1 ≡ rule_at w
  pub get_node_ok :
      (w w' : c.World) (k : String) (n : Node) → c.get_node k w ≡ (ok n, w') → node_at w k ≡ some n
  pub list_nodes_nodes : (w : c.World) → node_at (c.list_nodes w).1 ≡ node_at w
  pub list_nodes_rules : (w : c.World) → rule_at (c.list_nodes w).1 ≡ rule_at w
  pub list_nodes_ok :
      (w w' : c.World) (ns : List Node)
      → c.list_nodes w ≡ (ok ns, w')
      → HasDistinctNames ns × ((k : String) → node_at w k ≡ node_named k ns)
  -- A patch that changes the taints stores them, and leaves the rest of the stored node alone.
  pub patch_taints_ok :
      (w w' : c.World) (base n : Node) (taints : List Taint)
      → c.patch_node base (record base { taints = taints }) w ≡ (ok n, w')
      → (old : Node) × (node_at w base.name ≡ some old)
        × (n ≡ record old { taints = taints })
        × (node_at w' ≡ put base.name n (node_at w))
        × (rule_at w' ≡ rule_at w)
  -- A patch of one node, whether it succeeds or not, touches no other node and no rule.
  pub patch_node_others :
      (w : c.World) (base sent : Node) (k : String)
      → k ≢ sent.name
      → node_at (c.patch_node base sent w).1 k ≡ node_at w k
  pub patch_node_rules :
      (w : c.World) (base sent : Node) → rule_at (c.patch_node base sent w).1 ≡ rule_at w
  pub update_node_ok :
      (w w' : c.World) (sent n : Node)
      → c.update_node sent w ≡ (ok n, w')
      → node_at w' ≡ put sent.name sent (node_at w)
  -- A failed write may have been made all the same, but not if it was refused for a conflict.
  pub update_node_err :
      (w w' : c.World) (sent : Node) (e : c.Err)
      → c.update_node sent w ≡ (err e, w')
      → (node_at w' ≡ node_at w) ⊎ (node_at w' ≡ put sent.name sent (node_at w))
  pub update_node_conflict :
      (w w' : c.World) (sent : Node) (e : c.Err)
      → c.update_node sent w ≡ (err e, w')
      → c.is_conflict e ≡ true
      → node_at w' ≡ node_at w
  pub update_node_rules : (w : c.World) (sent : Node) → rule_at (c.update_node sent w).1 ≡ rule_at w
  pub get_rule_nodes : (w : c.World) (k : String) → node_at (c.get_rule k w).1 ≡ node_at w
  pub get_rule_rules : (w : c.World) (k : String) → rule_at (c.get_rule k w).1 ≡ rule_at w
  pub get_rule_ok :
      (w w' : c.World) (k : String) (r : NodeReadinessGateRule)
      → c.get_rule k w ≡ (ok r, w')
      → (rule_at w k ≡ some r) × (r.name ≡ k)
  -- A write of a rule never touches a node.
  pub update_rule_nodes :
      (w : c.World) (sent : NodeReadinessGateRule) → node_at (c.update_rule sent w).1 ≡ node_at w
  pub update_rule_status_nodes :
      (w : c.World) (sent : NodeReadinessGateRule)
      → node_at (c.update_rule_status sent w).1 ≡ node_at w
  -- An update stores the spec and the finalizers that were sent, if the rule is still there.
  pub update_rule_ok :
      (w w' : c.World) (sent r x : NodeReadinessGateRule)
      → c.update_rule sent w ≡ (ok r, w')
      → rule_at w' sent.name ≡ some x
      → (x.spec ≡ sent.spec) × (x.finalizers ≡ sent.finalizers)
  -- An update that sends the stored spec makes no rule and changes no generation, whether it
  -- succeeds or not.
  pub update_rule_generation :
      (w : c.World) (sent stored : NodeReadinessGateRule) (k : String) (new : NodeReadinessGateRule)
      → rule_at w sent.name ≡ some stored
      → sent.spec ≡ stored.spec
      → rule_at (c.update_rule sent w).1 k ≡ some new
      → (old : NodeReadinessGateRule) × (rule_at w k ≡ some old) × (new.generation ≡ old.generation)
  -- The status subresource: the stored rule takes the status that was sent and nothing else.
  pub update_rule_status_ok :
      (w w' : c.World) (sent r : NodeReadinessGateRule)
      → c.update_rule_status sent w ≡ (ok r, w')
      → (old : NodeReadinessGateRule) × (rule_at w sent.name ≡ some old)
        × (r.status ≡ sent.status)
        × (r.spec ≡ old.spec)
        × (rule_at w' ≡ put sent.name r (rule_at w))
  -- A write of a status, whether it succeeds or not, makes no rule and changes no generation.
  pub update_rule_status_generation :
      (w : c.World) (sent : NodeReadinessGateRule) (k : String) (new : NodeReadinessGateRule)
      → rule_at (c.update_rule_status sent w).1 k ≡ some new
      → (old : NodeReadinessGateRule) × (rule_at w k ≡ some old) × (new.generation ≡ old.generation)
  pub update_rule_status_conflict :
      (w w' : c.World) (sent : NodeReadinessGateRule) (e : c.Err)
      → c.update_rule_status sent w ≡ (err e, w')
      → c.is_conflict e ≡ true
      → rule_at w' ≡ rule_at w
  pub retry_on_conflict_lem :
      (f : c.World → Option c.Err × c.World) (w : c.World)
      → Retried c.is_conflict f w (c.retry_on_conflict f w)
