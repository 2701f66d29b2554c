-- ===== src/Webhook/Overlap.antt =====
-- Rules that the webhook (validateTaintConflicts, nodSelectorsOverlap) admits side by side and that
-- the controller cannot both have in line.
use node_readiness_gate_cont.Prelude.{
  ◌≡◌, refl, ◌≢◌, inr, true, false, List, [], ◌∷◌, Option, none, some, ok, ◌==◌, eq_iff, arith,
}
use node_readiness_gate_cont.Core.{Node, Taint, LabelSelector, Selectors}
use node_readiness_gate_cont.Api.{NodeReadinessGateRule, TaintSpec}
use node_readiness_gate_cont.Client.{Client}
use node_readiness_gate_cont.Taints.{has_taint_by_spec}
use node_readiness_gate_cont.Selection.{rule_applies_to}
use node_readiness_gate_cont.Evaluation.Laws.{is_ready}
use node_readiness_gate_cont.AllNodes.Quiet.{IsCalm}
use node_readiness_gate_cont.Webhook.{
  parsed_overlap, node_selectors_overlap, conflicts_with, a_rule, validate_create,
}
use node_readiness_gate_cont.Webhook.Laws.{IsValidSpec, validate-admits_iff}

has_taint_congr :
    (taints : List Taint) (a b : TaintSpec)
    → a.key ≡ b.key
    → a.effect ≡ b.effect
    → has_taint_by_spec taints a ≡ has_taint_by_spec taints b
unfolding has_taint_by_spec
has_taint_congr [] a b k e = refl
has_taint_congr (t ∷ taints) a b k e = rw (k, e) (ground (arith, has_taint_congr taints a b k e))

module _ (sel : Selectors) where
  -- The selector of the rule parses, and to this.
  abbrev pub ParsesTo : NodeReadinessGateRule → sel.Selector → Type 0
  ParsesTo rule p =
      (s : LabelSelector) × (rule.spec.node_selector ≡ some s) × (sel.as_selector s ≡ ok p)

  overlap_of_parsed :
      (a b : Option LabelSelector) (s t : LabelSelector) (p q : sel.Selector)
      → a ≡ some s
      → b ≡ some t
      → sel.as_selector s ≡ ok p
      → sel.as_selector t ≡ ok q
      → node_selectors_overlap sel a b ≡ (sel.render p == sel.render q)
  unfolding node_selectors_overlap parsed_overlap
  overlap_of_parsed a b s t p q h k u v = rw (h, k, node_selectors_overlap, u, v) refl

  module _ (c : Client) where
    -- A valid rule with the taint key and effect of the only stored rule, from whose selector its own
    -- differs in print while both parse, is admitted. A node that both select and that meets the
    -- conditions of the stored rule but not those of the new one is never in line with both.
    pub admitted_rules_oppose :
        (first second : NodeReadinessGateRule) (p q : sel.Selector) (w : c.World) (node : Node)
        → (c.list_rules w).0 ≡ ok (first ∷ [])
        → IsValidSpec second.spec
        → (first.spec.taint.key ≡ second.spec.taint.key)
          × (first.spec.taint.effect ≡ second.spec.taint.effect)
        → ParsesTo first p × ParsesTo second q
        → sel.render p ≢ sel.render q
        → (rule_applies_to sel first.spec.node_selector node.labels ≡ true)
          × (rule_applies_to sel second.spec.node_selector node.labels ≡ true)
        → (is_ready first node ≡ true) × (is_ready second node ≡ false)
        → ((validate_create sel c (a_rule second) w).0 ≡ none)
          × ¬ (IsCalm sel first.spec node × IsCalm sel second.spec node)
    admitted_rules_oppose first second p q w node listed valid (key, effect)
          ((s, fs, ps), (t, ft, pt)) differ (fa, sa) (ready, unready) =
        (
          (validate-admits_iff sel c (a_rule second) second w).0.1
              (rw listed (valid, (inr apart, tt))),
          λ both.
              let one = both.0 fa in
              let two = both.1 sa in
              let same =
                has_taint_congr node.taints first.spec.taint second.spec.taint key effect in
              absurd (cc (rw ready at one, rw unready at two)),
        )
      where
        apart : conflicts_with sel second first ≡ false
        apart =
            let o =
              overlap_of_parsed second.spec.node_selector first.spec.node_selector t s q p ft fs pt
                ps in
            let prints : (sel.render q == sel.render p) ≡ false =
              ground (arith, eq_iff (sel.render q) (sel.render p)) in
            unfold conflicts_with in rw (o, prints) (ground arith)
