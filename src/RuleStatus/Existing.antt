-- ===== src/RuleStatus/Existing.antt =====
-- The names of the listed nodes that cleanupDeletedNodes collects
-- (internal/controller/nodereadinessgaterule_controller.go), and the evaluations that it keeps.
use node_readiness_gate_cont.Prelude.{
  ◌≡◌, refl, sym, ◌∙◌, String, Bool, true, false, List, [], ◌∷◌, any, Option, none, some, arith,
}
use node_readiness_gate_cont.Prelude.GoMap.{GoMap, lookup}
use node_readiness_gate_cont.Core.{Node}
use node_readiness_gate_cont.Api.{NodeEvaluation}
use node_readiness_gate_cont.Client.Store.{node_named}
use node_readiness_gate_cont.Status.{keep_existing, existing_nodes, flag}
use node_readiness_gate_cont.Status.Laws.{
  evaluation_of, is_named, flag_existing_nodes, keep_existing_flag,
}

-- Every evaluation is of a node that is there.
abbrev pub AreStored : (String → Option Node) → List NodeEvaluation → Type 0
AreStored view es = (k : String) → view k ≡ none → evaluation_of k es ≡ none

-- The map holds exactly the names of the nodes that are there.
pub record IsExisting (view : String → Option Node) (existing : GoMap Bool) : Type 0 where
  pub live : (k : String) (n : Node) → view k ≡ some n → flag (lookup k existing) ≡ true
  pub dead : (k : String) → view k ≡ none → flag (lookup k existing) ≡ false

pub keep_existing-AreStored :
    (view : String → Option Node) (existing : GoMap Bool) (es : List NodeEvaluation)
    → IsExisting view existing
    → AreStored view (keep_existing existing es)
keep_existing-AreStored view existing es x k gone =
    let off = x.dead k gone in keep_existing_flag k existing es ∙ rw off refl

pub existing_nodes-IsExisting :
    (view : String → Option Node) (nodes : List Node)
    → ((k : String) → view k ≡ node_named k nodes)
    → IsExisting view (existing_nodes nodes)
existing_nodes-IsExisting view nodes same = record {
  live = λ k n h. flag_existing_nodes k nodes ∙ any-is_named k nodes n (sym (same k) ∙ h);
  dead = λ k h. flag_existing_nodes k nodes ∙ any-is_named_none k nodes (sym (same k) ∙ h);
}
  where
    any-is_named :
        (k : String) (nodes : List Node) (n : Node)
        → node_named k nodes ≡ some n
        → any (is_named k) nodes ≡ true
    any-is_named k [] n h = absurd (cc)
    any-is_named k (m ∷ nodes) n h = ground (arith, any-is_named k nodes n)

    any-is_named_none :
        (k : String) (nodes : List Node)
        → node_named k nodes ≡ none
        → any (is_named k) nodes ≡ false
    any-is_named_none k [] h = refl
    any-is_named_none k (m ∷ nodes) h = ground (arith, any-is_named_none k nodes)
