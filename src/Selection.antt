-- ===== src/Selection.antt =====
-- Which nodes a rule selects: ruleAppliesTo, nodeSelectorChanged and stringMapEqual
-- (internal/controller/nodereadinessgaterule_controller.go). `as_selector` and `matches` are the
-- library's.
pub mod Laws
use node_readiness_gate_cont.Prelude.{
  String, Bool, true, false, not, ◌&&◌, ◌||◌, List, [], ◌∷◌, ◌==◌, if◌then◌else◌, Option, none,
  some, length, any, all, eqb, bracketed, ◌<>◌, Result, ok, err,
}
use node_readiness_gate_cont.Prelude.GoMap.{GoMap, lookup, insert}
use node_readiness_gate_cont.Core.{Node, LabelSelector, LabelSelectorRequirement, Selectors}

-- `m[k]`, the empty text for a key that is not there.
abbrev pub text_or_empty : Option String → String
text_or_empty none = ""
text_or_empty (some s) = s

abbrev pub entry_agrees : GoMap String → String × String → Bool
entry_agrees b (k, v) = text_or_empty (lookup k b) == v

unfoldable pub string_map_equal : GoMap String → GoMap String → Bool
string_map_equal a b = if not (eqb (length a) (length b)) then false else all (entry_agrees b) a

-- The key `fmt.Sprintf("%s-%s-%v", expr.Key, expr.Operator, expr.Values)`.
unfoldable pub expression_key : LabelSelectorRequirement → String
unfolding bracketed
expression_key expr = expr.key <> "-" <> expr.operator <> "-" <> bracketed expr.values

-- The loops that fill `currentExprs` and `previousExprs`.
unfoldable pub expressions_from :
    GoMap LabelSelectorRequirement → List LabelSelectorRequirement → GoMap LabelSelectorRequirement
expressions_from m [] = m
expressions_from m (expr ∷ exprs) = expressions_from (insert (expression_key expr) expr m) exprs

abbrev pub exists {ℓ} : {A : Type ℓ} → Option A → Bool
exists none = false
exists (some a) = true

-- The comparison of two selectors that are not nil.
selectors_differ : LabelSelector → LabelSelector → Bool
unfolding expressions_from
selectors_differ current previous =
    if not (string_map_equal current.match_labels previous.match_labels)
    then true
    else if not (eqb (length current.match_expressions) (length previous.match_expressions))
    then true
    else any (λ e. not (exists (lookup e.0 (expressions_from [] previous.match_expressions))))
        (expressions_from [] current.match_expressions)

unfoldable pub node_selector_changed : Option LabelSelector → Option LabelSelector → Bool
unfolding selectors_differ
node_selector_changed none none = false
node_selector_changed none (some _) = true
node_selector_changed (some _) none = true
node_selector_changed (some current) (some previous) = selectors_differ current previous

module _ (sel : Selectors) where
  -- A selector that does not parse selects nothing.
  abbrev pub selected_by : Result String sel.Selector → GoMap String → Bool
  selected_by (ok selector) labels = sel.matches selector labels
  selected_by (err message) labels = false

  -- The node selector of a rule against the labels of a node.
  unfoldable pub rule_applies_to : Option LabelSelector → GoMap String → Bool
  rule_applies_to none labels = true
  rule_applies_to (some selector) labels = selected_by (sel.as_selector selector) labels
