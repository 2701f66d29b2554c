-- ===== src/Setup.antt =====
-- What the controllers and the webhook register with the manager of controller-runtime: the three
-- SetupWithManager (internal/controller/nodereadinessgaterule_controller.go, internal/controller/
-- node_controller.go, internal/webhook/nodereadinessgaterule_webhook.go).
use node_readiness_gate_cont.Prelude.{ℕ, String, Bool, true, List, [], ◌∷◌, Option, none, some, ◌≡◌}
use node_readiness_gate_cont.Core.{Node}
use node_readiness_gate_cont.Api.{NodeReadinessGateRule}
use node_readiness_gate_cont.Events.{should_reconcile, generation_changed}

pub data Event (A : Type 0) : Type 0 where
  created : A → Event A
  updated : A → A → Event A
  deleted : A → Event A
  generic : A → Event A

-- predicate.TypedFuncs, a function or nil for each kind of event.
pub record TypedFuncs (A : Type 0) : Type 0 where
  pub create_func : Option (A → Bool)
  pub update_func : Option (A → A → Bool)
  pub delete_func : Option (A → Bool)
  pub generic_func : Option (A → Bool)

-- Whether controller-runtime hands an event to the handler of a watch with these predicates.
pub record Watching : Type 1 where
  pub passes : {A : Type 0} → List (TypedFuncs A) → Event A → Bool

-- A predicate that is nil lets every event of its kind pass, and so does a watch without
-- predicates.
pub record IsWatching (v : Watching) : Type 1 where
  pub passes_all : {A : Type 0} (e : Event A) → v.passes [] e ≡ true
  pub passes_update :
      {A : Type 0} (f : TypedFuncs A) (g : A → A → Bool) (old new : A)
      → f.update_func ≡ some g
      → v.passes (f ∷ []) (updated old new) ≡ g old new
  pub passes_create :
      {A : Type 0} (f : TypedFuncs A) (x : A)
      → f.create_func ≡ none
      → v.passes (f ∷ []) (created x) ≡ true
  pub passes_delete :
      {A : Type 0} (f : TypedFuncs A) (x : A)
      → f.delete_func ≡ none
      → v.passes (f ∷ []) (deleted x) ≡ true

-- The calls of the start of the program that can fail.
pub data Call : Type 0 where
  new_manager : (metrics probe : String) (leader_election : Bool) (election_id : String) → Call
  new_clientset : Call
  new_controller : (name : String) (max_concurrent : ℕ) → Call
  watch_rules : List (TypedFuncs NodeReadinessGateRule) → Call
  -- `NewControllerManagedBy(mgr).For(&Node{}).Named(name).Build(r)`; For watches the nodes.
  build_controller : (name : String) (predicates : List (TypedFuncs Node)) → Call
  watch_nodes : List (TypedFuncs Node) → Call
  complete_webhook : Call
  add_healthz_check : String → Call
  add_readyz_check : String → Call
  start : Call

-- The libraries that the program is started with.
pub record Runtime : Type 1 where
  pub World : Type 0
  pub Err : Type 0
  pub perform : Call → World → Option Err × World

abbrev pub rule_predicates : TypedFuncs NodeReadinessGateRule
rule_predicates = record {
  create_func = none;
  update_func = some generation_changed;
  delete_func = none;
  generic_func = none;
}

abbrev pub node_predicates : TypedFuncs Node
node_predicates = record {
  create_func = some (λ node. true);
  update_func = some should_reconcile;
  delete_func = none;
  generic_func = none;
}

module _ (r : Runtime) where
  -- `if err != nil { return err }`.
  abbrev pub chain :
      Option r.Err × r.World → (r.World → Option r.Err × r.World) → Option r.Err × r.World
  chain (some e, w) k = (some e, w)
  chain (none, w) k = k w

  -- RuleReconciler.SetupWithManager.
  unfoldable pub set_up_rule_reconciler : r.World → Option r.Err × r.World
  set_up_rule_reconciler w =
      chain (r.perform (new_controller "nodereadiness-controller" 1) w)
        (r.perform (watch_rules (rule_predicates ∷ [])))

  -- NodeReconciler.SetupWithManager.
  unfoldable pub set_up_node_reconciler : r.World → Option r.Err × r.World
  set_up_node_reconciler w =
      chain (r.perform (build_controller "node" []) w)
        (r.perform (watch_nodes (node_predicates ∷ [])))

  -- NodeReadinessGateRuleWebhook.SetupWithManager.
  unfoldable pub set_up_webhook : r.World → Option r.Err × r.World
  set_up_webhook w = r.perform complete_webhook w
