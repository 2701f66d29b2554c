-- ===== src/Client.antt =====
-- The API client that the program calls (controller-runtime's client.Client, client-go's
-- retry.RetryOnConflict, metav1.Now), as an interface over a state of the world, and the errors
-- that the program builds from the client's.
pub mod Store
pub mod Listing
use node_readiness_gate_cont.Prelude.{String, Bool, List, Option, none, some, Result, ◌<>◌}
use node_readiness_gate_cont.Core.{Time, Node}
use node_readiness_gate_cont.Api.{NodeReadinessGateRule}

-- A call returns its answer and the world after it. A successful write returns the object as the
-- server sent it back, which the client copies over the caller's.
pub record Client : Type 1 where
  pub World : Type 0
  pub Err : Type 0
  pub is_not_found : Err → Bool
  pub is_conflict : Err → Bool
  pub message : Err → String
  pub now : World → Time × World
  pub get_node : String → World → Result Err Node × World
  pub list_nodes : World → Result Err (List Node) × World
  pub update_node : Node → World → Result Err Node × World
  -- The node that the patch is computed from, and the node that is sent.
  pub patch_node : Node → Node → World → Result Err Node × World
  pub get_rule : String → World → Result Err NodeReadinessGateRule × World
  pub list_rules : World → Result Err (List NodeReadinessGateRule) × World
  pub update_rule : NodeReadinessGateRule → World → Result Err NodeReadinessGateRule × World
  pub update_rule_status : NodeReadinessGateRule → World → Result Err NodeReadinessGateRule × World
  pub retry_on_conflict : (World → Option Err × World) → World → Option Err × World

-- An error of the client, one wrapped by `fmt.Errorf("…: %w", err)`, or one built from a text.
pub data Fault (E : Type 0) : Type 0 where
  api : E → Fault E
  wrapped : String → Fault E → Fault E
  text : String → Fault E

-- `err.Error()`.
abbrev pub text_of : (c : Client) → Fault c.Err → String
text_of c (api e) = c.message e
text_of c (wrapped prefix f) = prefix <> ": " <> text_of c f
text_of c (text s) = s

-- What the error of a write leaves.
abbrev pub error_of {ℓ κ} : {E : Type ℓ} {A : Type κ} → Result E A → Option E
error_of (Result.ok a) = none
error_of (Result.err e) = some e
