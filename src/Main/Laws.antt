-- ===== src/Main/Laws.antt =====
-- The calls that the start of the program (cmd/main.go) makes.
use mathlib.Core.List.{append_assoc}
use node_readiness_gate_cont.Prelude.{
  ◌≡◌, refl, sym, subst, ◌∙◌, inl, inr, Bool, true, false, not, ◌&&◌, ◌||◌, List, [], ◌∷◌, ◌++◌,
  Option, none, some, any, arith, Option-cases, if◌then◌else◌,
}
use node_readiness_gate_cont.Setup.{
  Runtime, Call, new_clientset, new_controller, watch_rules, build_controller, watch_nodes,
  complete_webhook, add_healthz_check, add_readyz_check, start, rule_predicates, node_predicates,
  chain, set_up_rule_reconciler, set_up_node_reconciler, set_up_webhook,
}
use node_readiness_gate_cont.Main.{Flags, Exit, returned, manager_call, must, start_manager, main}

-- The calls of a start in which none fails.
abbrev pub final_calls : List Call
final_calls = add_healthz_check "healthz" ∷ add_readyz_check "readyz" ∷ start ∷ []

abbrev pub webhook_calls : Bool → List Call
webhook_calls true = complete_webhook ∷ []
webhook_calls false = []

abbrev pub required_calls : Flags → List Call
required_calls flags =
    manager_call flags
      ∷ new_clientset
      ∷ new_controller "nodereadiness-controller" 1
      ∷ watch_rules (rule_predicates ∷ [])
      ∷ build_controller "node" []
      ∷ watch_nodes (node_predicates ∷ [])
      ∷ webhook_calls flags.enable_webhook
    ++ final_calls

module _ (r : Runtime) where
  -- The calls in their order, up to the first that fails.
  abbrev pub run_calls : List Call → r.World → Exit × r.World
  run_calls [] w = (returned, w)
  run_calls (call ∷ calls) w = must r (r.perform call w) (run_calls calls)

  must_congr :
      (p : Option r.Err × r.World) (k k' : r.World → Exit × r.World)
      → ((w : r.World) → k w ≡ k' w)
      → must r p k ≡ must r p k'
  must_congr (some e, w) k k' h = refl
  must_congr (none, w) k k' h = h w

  must-chain :
      (p : Option r.Err × r.World) (f : r.World → Option r.Err × r.World)
      (k : r.World → Exit × r.World)
      → must r (chain r p f) k ≡ must r p (λ w. must r (f w) k)
  must-chain (some e, w) f k = refl
  must-chain (none, w) f k = refl

  webhook_run_calls :
      (enabled : Bool) (w : r.World)
      → (if enabled then must r (set_up_webhook r w) (start_manager r) else start_manager r w)
        ≡ run_calls (webhook_calls enabled ++ final_calls) w
  unfolding set_up_webhook start_manager
  webhook_run_calls true w = refl
  webhook_run_calls false w = refl

  after_node : Flags → r.World → Exit × r.World
  after_node flags w =
      if flags.enable_webhook
      then must r (set_up_webhook r w) (start_manager r)
      else start_manager r w

  after_rule : Flags → r.World → Exit × r.World
  unfolding after_node
  after_rule flags w = must r (set_up_node_reconciler r w) (after_node flags)

  node_run_calls :
      (flags : Flags) (w : r.World)
      → after_rule flags w
        ≡ run_calls
            (build_controller "node" []
                ∷ watch_nodes (node_predicates ∷ [])
                ∷ webhook_calls flags.enable_webhook
              ++ final_calls)
            w
  unfolding after_rule after_node set_up_node_reconciler
  node_run_calls flags w =
      must-chain (r.perform (build_controller "node" []) w)
        (r.perform (watch_nodes (node_predicates ∷ []))) (after_node flags)
      ∙ must_congr (r.perform (build_controller "node" []) w) _ _ (λ w.
        must_congr (r.perform (watch_nodes (node_predicates ∷ [])) w) _ _
          (webhook_run_calls flags.enable_webhook))

  rule_run_calls :
      (flags : Flags) (w : r.World)
      → must r (set_up_rule_reconciler r w) (after_rule flags)
        ≡ run_calls
            (new_controller "nodereadiness-controller" 1
                ∷ watch_rules (rule_predicates ∷ [])
                ∷ build_controller "node" []
                ∷ watch_nodes (node_predicates ∷ [])
                ∷ webhook_calls flags.enable_webhook
              ++ final_calls)
            w
  unfolding set_up_rule_reconciler
  rule_run_calls flags w =
      must-chain (r.perform (new_controller "nodereadiness-controller" 1) w)
        (r.perform (watch_rules (rule_predicates ∷ []))) (after_rule flags)
      ∙ must_congr (r.perform (new_controller "nodereadiness-controller" 1) w) _ _ (λ w.
        must_congr (r.perform (watch_rules (rule_predicates ∷ [])) w) _ _ (node_run_calls flags))

  -- The program makes the calls that its flags require, in this order: the manager, the client
  -- set, the rule controller and its watch, the node controller and its watch, the webhook if its
  -- flag is set, both health checks and the start of the manager. It exits with code 1 at the
  -- first that fails.
  pub main-run_calls :
      (flags : Flags) (w : r.World) → main r flags w ≡ run_calls (required_calls flags) w
  unfolding main after_rule after_node
  main-run_calls flags w =
      must_congr (r.perform (manager_call flags) w) _ _
        (λ w. must_congr (r.perform new_clientset w) _ _ (rule_run_calls flags))

-- The libraries with a record of the calls that were made.
abbrev pub logging : Runtime → Runtime
logging r = record {
  World = r.World × List Call;
  Err = r.Err;
  perform = λ call w. let (failure, w') = r.perform call w.0 in (failure, (w', w.1 ++ call ∷ []));
}

-- The calls that the program makes.
abbrev pub calls_made : (r : Runtime) → Flags → r.World → List Call
calls_made r flags w = (main (logging r) flags (w, [])).1.1

abbrev pub is_start : Call → Bool
is_start start = true
is_start call = false

abbrev ends_in_start : List Call → Bool
ends_in_start [] = false
ends_in_start (call ∷ []) = is_start call
ends_in_start (call ∷ next ∷ calls) = not (is_start call) && ends_in_start (next ∷ calls)

any_append : (f : Call → Bool) (xs ys : List Call) → any f (xs ++ ys) ≡ any f xs || any f ys
any_append f [] ys = refl
any_append f (x ∷ xs) ys = ground (arith, any_append f xs ys)

module _ (r : Runtime) where
  logged :
      (calls : List Call) (w : r.World) (log : List Call)
      → ends_in_start calls ≡ true
      → any is_start log ≡ false
      → let (exit, (w', log')) = run_calls (logging r) calls (w, log) in
        (any is_start log' ≡ true → log' ≡ log ++ calls) × (exit ≡ returned → log' ≡ log ++ calls)
  logged [] w log last none_yet = absurd (cc)
  logged (call ∷ []) w log last none_yet = elim (Option-cases (r.perform call w).0) [
    | inl fine ↦ rw fine (λ h. refl, λ h. refl)
    | inr (e, failed) ↦ rw failed (λ h. refl, λ h. refl)
  ]
  logged (call ∷ next ∷ calls) w log last none_yet =
      let ordinary : is_start call ≡ false = ground arith in
      let still : any is_start (log ++ call ∷ []) ≡ false =
        ground (arith, any_append is_start log (call ∷ [])) in
      elim (Option-cases (r.perform call w).0) [
        | inr (e, failed) ↦ rw failed (λ h. absurd (cc), λ h. absurd (cc))
        | inl fine ↦ rw fine (
            rw (append_assoc log (call ∷ []) (next ∷ calls)) at
              (logged (next ∷ calls) (r.perform call w).1 (log ++ call ∷ []) (ground arith) still))
      ]

  -- Whatever calls fail, the manager is started only after all other calls that the flags require
  -- have been made in their order, the webhook among them exactly if its flag is set; and the
  -- program returns only if all of them have been made.
  pub main-starts :
      (flags : Flags) (w : r.World)
      → (any is_start (calls_made r flags w) ≡ true → calls_made r flags w ≡ required_calls flags)
        × ((main (logging r) flags (w, [])).0 ≡ returned
            → calls_made r flags w ≡ required_calls flags)
  main-starts flags w =
      subst
        (λ (p : Exit × (r.World × List Call)).
          (any is_start p.1.1 ≡ true → p.1.1 ≡ required_calls flags)
          × (p.0 ≡ returned → p.1.1 ≡ required_calls flags))
        (sym (main-run_calls (logging r) flags (w, [])))
        (logged (required_calls flags) w [] (ends flags.enable_webhook) refl)
    where
      ends :
          (enabled : Bool)
          → ends_in_start (required_calls (record flags { enable_webhook = enabled })) ≡ true
      ends true = refl
      ends false = refl
