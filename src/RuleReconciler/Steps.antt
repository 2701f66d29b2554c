-- ===== src/RuleReconciler/Steps.antt =====
-- A reconciliation as a sequence of steps over the controller's state, each of which may end it.
use node_readiness_gate_cont.Prelude.{Option, none, some, Result, ok, err}
use node_readiness_gate_cont.Core.{Time}
use node_readiness_gate_cont.Client.{Client, Fault, api}
use node_readiness_gate_cont.Controller.{State, Outcome}

-- `stop` is a `return` of the source.
pub data Flow (c : Client) (A : Type 0) : Type 0 where
  stop : Outcome c → Flow c A
  go : A → Flow c A

abbrev pub Step : Client → Type 0 → Type 0
Step c A = State c → Flow c A × State c

abbrev pub continue :
    {c : Client} {A B : Type 0} → Flow c A × State c → (A → Step c B) → Flow c B × State c
continue (stop o, st) k = (stop o, st)
continue (go a, st) k = k a st

infixl 5 ◌>>=◌ ◌>>◌
abbrev pub ◌>>=◌ : {c : Client} {A B : Type 0} → Step c A → (A → Step c B) → Step c B
◌>>=◌ m k st = continue (m st) k

abbrev pub ◌>>◌ : {c : Client} {B : Type 0} → Step c (Unit {0}) → Step c B → Step c B
m >> k = m >>= λ _. k

module _ {c : Client} where
  -- `return ctrl.Result{}, nil`.
  abbrev pub done : {A : Type 0} → Step c A
  done st = (stop (record { requeue_after = 0; failure = none }), st)

  -- `return ctrl.Result{RequeueAfter: after}, err`.
  abbrev pub fail : {A : Type 0} → Time → Fault c.Err → Step c A
  fail after f st = (stop (record { requeue_after = after; failure = some f }), st)

  abbrev pub modify : (State c → State c) → Step c (Unit {0})
  modify f st = (go tt, f st)

  abbrev pub attempted :
      State c → Time → Option (Fault c.Err) × c.World → Flow c (Unit {0}) × State c
  attempted st after (none, w) = (go tt, record st { world = w })
  attempted st after (some f, w) = fail after f (record st { world = w })

  -- A call whose error ends the reconciliation.
  abbrev pub attempt : Time → (c.World → Option (Fault c.Err) × c.World) → Step c (Unit {0})
  attempt after f st = attempted st after (f st.world)

  abbrev pub called : {A : Type 0} → State c → Result c.Err A × c.World → Flow c A × State c
  called st (ok a, w) = (go a, record st { world = w })
  called st (err e, w) = fail 0 (api e) (record st { world = w })

  -- A call of the client, whose error ends the reconciliation at once.
  abbrev pub call : {A : Type 0} → (c.World → Result c.Err A × c.World) → Step c A
  call f st = called st (f st.world)

abbrev pub lifted : (c : Client) → Option c.Err × c.World → Option (Fault c.Err) × c.World
lifted c (none, w) = (none, w)
lifted c (some e, w) = (some (api e), w)
