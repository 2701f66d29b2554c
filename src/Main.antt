-- ===== src/Main.antt =====
-- The entry of the program (cmd/main.go): its flags and the sequence of calls that start it.
pub mod Laws
pub mod Watches
pub mod Requeue
use node_readiness_gate_cont.Prelude.{
  ℕ, String, Bool, true, false, Option, none, some, if◌then◌else◌,
}
use node_readiness_gate_cont.Setup.{
  Runtime, Call, new_manager, new_clientset, add_healthz_check, add_readyz_check, start,
  set_up_rule_reconciler, set_up_node_reconciler, set_up_webhook,
}

pub record Flags : Type 0 where
  pub metrics_addr : String
  pub probe_addr : String
  pub enable_leader_election : Bool
  pub enable_webhook : Bool

-- The values of flags that are not given.
abbrev pub default_flags : Flags
default_flags = record {
  metrics_addr = "0";
  probe_addr = ":8081";
  enable_leader_election = false;
  enable_webhook = false;
}

pub data Exit : Type 0 where
  returned : Exit
  exited : ℕ → Exit

-- The call of `ctrl.NewManager` for the flags.
abbrev pub manager_call : Flags → Call
manager_call flags =
    new_manager flags.metrics_addr flags.probe_addr flags.enable_leader_election
      "ba65f13e.nodereadiness.io"

module _ (r : Runtime) where
  -- `if err != nil { os.Exit(1) }`.
  abbrev pub must : Option r.Err × r.World → (r.World → Exit × r.World) → Exit × r.World
  must (some e, w) k = (exited 1, w)
  must (none, w) k = k w

  abbrev pub end_of_main : r.World → Exit × r.World
  end_of_main w = (returned, w)

  -- From the health check on.
  unfoldable pub start_manager : r.World → Exit × r.World
  start_manager w =
      must (r.perform (add_healthz_check "healthz") w) λ w.
        must (r.perform (add_readyz_check "readyz") w) λ w. must (r.perform start w) end_of_main

  unfoldable pub main : Flags → r.World → Exit × r.World
  unfolding set_up_rule_reconciler set_up_node_reconciler set_up_webhook start_manager
  main flags w = must (r.perform (manager_call flags) w) λ w. must (r.perform new_clientset w) λ w.
      must (set_up_rule_reconciler r w) λ w. must (set_up_node_reconciler r w) λ w.
        if flags.enable_webhook then must (set_up_webhook r w) start_manager else start_manager w
