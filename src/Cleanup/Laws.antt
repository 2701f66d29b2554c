-- ===== src/Cleanup/Laws.antt =====
-- The stored nodes after cleanupTaintsForRule and cleanupNodesAfterSelectorChange.
use mathlib.Core.Path.{fun_ext}
use node_readiness_gate_cont.Prelude.{
  ◌≡◌, refl, ap, String, Bool, not, ◌&&◌, List, Option, none, some, Result, ok, err, arith,
}
use node_readiness_gate_cont.Core.{Node, Selectors, LabelSelector}
use node_readiness_gate_cont.Api.{NodeReadinessGateRule}
use node_readiness_gate_cont.Client.{Client}
use node_readiness_gate_cont.Client.Store.{Store}
use node_readiness_gate_cont.Selection.{rule_applies_to}
use node_readiness_gate_cont.Client.Listing.{IsListing, list_nodes-IsListing}
use node_readiness_gate_cont.Cleanup.Loop.{IsCleaned, clean_result-IsCleaned}
use node_readiness_gate_cont.Cleanup.{
  parse_old, matched_old, clean_after_change, after_change_listed,
  cleanup_nodes_after_selector_change, cleanup_listed, cleanup_taints_for_rule,
}

module _ (c : Client) (sel : Selectors) (s : Store c) where
  -- A cleanup of a deleted rule that reports no error has taken the rule's taint off every stored
  -- node that the rule selects, and has left all other nodes, all else of those nodes, and every
  -- rule as they were.
  pub cleanup_taints_for_rule-IsCleaned :
      (rule : NodeReadinessGateRule) (w : c.World)
      → (cleanup_taints_for_rule c sel rule w).0 ≡ none
      → IsCleaned c s
          (λ n. rule_applies_to sel rule.spec.node_selector n.labels)
          rule.spec.taint
          w
          (cleanup_taints_for_rule c sel rule w).1
  unfolding cleanup_taints_for_rule
  cleanup_taints_for_rule-IsCleaned rule w h = listed (c.list_nodes w) refl h
    where
      listed :
          (answer : Result c.Err (List Node) × c.World)
          → c.list_nodes w ≡ answer
          → (cleanup_listed c sel rule answer).0 ≡ none
          → IsCleaned c s
              (λ n. rule_applies_to sel rule.spec.node_selector n.labels)
              rule.spec.taint
              w
              (cleanup_listed c sel rule answer).1
      listed (err e, v) q h = absurd (cc)
      listed (ok nodes, v) q h =
          clean_result-IsCleaned c s _ rule.spec.taint nodes w v
            (list_nodes-IsListing c s w v nodes q) h

  parse_old-matched_old :
      (selector : Option LabelSelector) (parsed : Option sel.Selector)
      → parse_old c sel selector ≡ ok parsed
      → (n : Node) → matched_old c sel parsed n ≡ rule_applies_to sel selector n.labels
  unfolding parse_old rule_applies_to
  parse_old-matched_old none none h n = refl
  parse_old-matched_old none (some t) h n = absurd (cc)
  parse_old-matched_old (some selector) parsed h n = ground arith

  -- After a change of the selector, a cleanup that reports no error has taken the new rule's taint
  -- off every stored node that the old rule selected and the new one does not, and has left all
  -- else in the store as it was.
  pub cleanup_nodes_after_selector_change-IsCleaned :
      (old new : NodeReadinessGateRule) (w : c.World)
      → (cleanup_nodes_after_selector_change c sel old new w).0 ≡ none
      → IsCleaned c s
          (λ n.
            rule_applies_to sel old.spec.node_selector n.labels
            && not (rule_applies_to sel new.spec.node_selector n.labels))
          new.spec.taint
          w
          (cleanup_nodes_after_selector_change c sel old new w).1
  unfolding cleanup_nodes_after_selector_change
  cleanup_nodes_after_selector_change-IsCleaned old new w h = listed (c.list_nodes w) refl h
    where
      left : Node → Bool
      left n =
          rule_applies_to sel old.spec.node_selector n.labels
          && not (rule_applies_to sel new.spec.node_selector n.labels)

      parsed :
          (nodes : List Node) (v : c.World) (r : Result String (Option sel.Selector))
          → IsListing c s w nodes v
          → parse_old c sel old.spec.node_selector ≡ r
          → (clean_after_change c sel r new nodes v).0 ≡ none
          → IsCleaned c s left new.spec.taint w (clean_after_change c sel r new nodes v).1
      parsed nodes v (err e) l q k = absurd (cc)
      parsed nodes v (ok o) l q k =
          let same : (λ (n : Node).
            matched_old c sel o n && not (rule_applies_to sel new.spec.node_selector n.labels))
              ≡ left =
            fun_ext λ n.
              ap (λ b. b && not (rule_applies_to sel new.spec.node_selector n.labels))
                (parse_old-matched_old old.spec.node_selector o q n) in
          rw same (clean_result-IsCleaned c s left new.spec.taint nodes w v l (rw same at k))

      listed :
          (answer : Result c.Err (List Node) × c.World)
          → c.list_nodes w ≡ answer
          → (after_change_listed c sel old new answer).0 ≡ none
          → IsCleaned c s left new.spec.taint w (after_change_listed c sel old new answer).1
      listed (err e, v) q k = absurd (cc)
      listed (ok nodes, v) q k = parsed nodes v _ (list_nodes-IsListing c s w v nodes q) refl k
