-- ===== src/RuleReconciler/Stable.antt =====
-- Two reconciliations of a rule, one after the other.
use node_readiness_gate_cont.Prelude.{
  ◌≡◌, sym, subst, ◌∙◌, inl, inr, String, false, Option, none, some, ok,
}
use node_readiness_gate_cont.Core.{Node, Selectors}
use node_readiness_gate_cont.Api.{NodeReadinessGateRule}
use node_readiness_gate_cont.Client.{Client}
use node_readiness_gate_cont.Client.Store.{Store}
use node_readiness_gate_cont.Selection.{node_selector_changed}
use node_readiness_gate_cont.Evaluation.Failure.{has_failure}
use node_readiness_gate_cont.AllNodes.InLine.{IsInLine}
use node_readiness_gate_cont.AllNodes.Quiet.{IsCalm}
use node_readiness_gate_cont.Controller.{State, get_cached_rule}
use node_readiness_gate_cont.RuleReconciler.{reconcile}
use node_readiness_gate_cont.RuleReconciler.Convergence.{reconcile-IsUpheld}
use node_readiness_gate_cont.RuleReconciler.DryRun.{reconcile-rests}

module _ (c : Client) (sel : Selectors) (s : Store c) where
  line-IsCalm :
      (k : String) (rule : NodeReadinessGateRule) (o : Option Node) (n : Node)
      → IsInLine c sel k rule rule o
      → o ≡ some n
      → has_failure k rule ≡ false
      → IsCalm sel rule.spec n
  line-IsCalm k rule none n line found fine = absurd (cc)
  line-IsCalm k rule (some m) n line found fine =
      let same : m ≡ n = cc in subst (λ (x : Node). IsCalm sel rule.spec x) same (by_line line)
    where
      by_line : IsInLine c sel k rule rule (some m) → IsCalm sel rule.spec m
      by_line (inl skipped) = λ taken. absurd (cc)
      by_line (inr (inl failed)) = absurd (cc)
      by_line (inr (inr settled)) = λ taken. settled

  -- After a reconciliation of a rule that is neither being deleted nor a dry run, and that ends
  -- without an error while nobody else writes, the next one changes no stored node, whether it
  -- fails or not, provided the stored status has no failure of any node, the rule is still not
  -- being deleted, and its selector counts as that of its cached version.
  pub reconcile-stable :
      (name : String) (st : State c) (rule rule' : NodeReadinessGateRule) (w w' : c.World)
      → c.get_rule name st.world ≡ (ok rule, w)
      → rule.deletion_timestamp ≡ none
      → rule.spec.dry_run ≡ false
      → (reconcile c sel name st).0.failure ≡ none
      → c.get_rule name (reconcile c sel name st).1.world ≡ (ok rule', w')
      → rule'.deletion_timestamp ≡ none
      → ((k : String) → has_failure k rule' ≡ false)
      → ((old : NodeReadinessGateRule)
          → get_cached_rule c (reconcile c sel name st).1 name ≡ some old
          → node_selector_changed rule'.spec.node_selector old.spec.node_selector ≡ false)
      → let st' = (reconcile c sel name st).1 in
        s.node_at (reconcile c sel name st').1.world ≡ s.node_at st'.world
  reconcile-stable name st rule rule' w w' read alive real h again alive' fine steady =
      let st' = (reconcile c sel name st).1 in
      let (after, stored, spec, line) =
        reconcile-IsUpheld c sel s name st rule w read alive real h in
      let (found, _) = s.get_rule_ok st'.world w' name rule' again in
      let one : some after ≡ some rule' = sym stored ∙ found in
      let same : after ≡ rule' = cc one in
      reconcile-rests c sel s name st' rule' w' again alive'
        (λ k n there.
          line-IsCalm k rule' (s.node_at st'.world k) n
            (subst (λ (r : NodeReadinessGateRule). IsInLine c sel k r r (s.node_at st'.world k))
              same (line k))
            there (fine k))
        steady
