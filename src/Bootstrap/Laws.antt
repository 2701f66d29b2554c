-- ===== src/Bootstrap/Laws.antt =====
-- The mark of a completed bootstrap: what marking writes and what the check reads.
use node_readiness_gate_cont.Prelude.{
  ◌≡◌, refl, sym, ap, ◌∙◌, ◌≢◌, inl, inr, String, Bool, true, false, Option, none, some, Result, ok,
  err, arith, eq_iff, eq_refl, Bool-cases,
}
use node_readiness_gate_cont.Prelude.GoMap.{lookup-insert}
use node_readiness_gate_cont.Core.{Node}
use node_readiness_gate_cont.Client.{Client, error_of}
use node_readiness_gate_cont.Client.Store.{Store, Retried, last, again, put}
use node_readiness_gate_cont.Bootstrap.{
  annotation_key, has_annotation, made, annotated, completed_in, is_bootstrap_completed, mark_in,
  mark_attempt, mark_bootstrap_completed,
}

-- The node without its annotations, and whether there is one.
abbrev pub bare : Option Node → Option Node
bare none = none
bare (some n) = some (record n { annotations = none })

has_annotation-annotated :
    (node : Node) (key : String) → has_annotation (annotated node key).annotations key ≡ true
unfolding has_annotation annotated
has_annotation-annotated node key =
    ground (arith, lookup-insert key key "true" (made node.annotations), eq_refl key)

-- One world holds what the other holds, but for the annotations of one node.
pub record OnlyAnnotates (c : Client) (s : Store c) (name : String) (w w' : c.World) : Type 0 where
  pub others : (k : String) → k ≢ name → s.node_at w' k ≡ s.node_at w k
  pub same : bare (s.node_at w' name) ≡ bare (s.node_at w name)
  pub rules : s.rule_at w' ≡ s.rule_at w

module _ (c : Client) (s : Store c) where
  OnlyAnnotates_trans :
      {name : String} {u v w : c.World}
      → OnlyAnnotates c s name u v
      → OnlyAnnotates c s name v w
      → OnlyAnnotates c s name u w
  OnlyAnnotates_trans p q = record {
    others = λ k h. q.others k h ∙ p.others k h;
    same = q.same ∙ p.same;
    rules = q.rules ∙ p.rules;
  }

  unchanged :
      (name : String) (w w' : c.World)
      → s.node_at w' ≡ s.node_at w
      → s.rule_at w' ≡ s.rule_at w
      → OnlyAnnotates c s name w w'
  unchanged name w w' e r = record {
    others = λ k h. ap (λ f. f k) e;
    same = ap (λ f. bare (f name)) e;
    rules = r;
  }

  stored :
      (name key : String) (node : Node) (w w' : c.World)
      → s.node_at w name ≡ some node
      → s.node_at w' ≡ put node.name (annotated node key) (s.node_at w)
      → s.rule_at w' ≡ s.rule_at w
      → OnlyAnnotates c s name w w'
  unfolding annotated
  stored name key node w w' found e r =
      let named = s.node_name w name node found in
      record {
        others = λ k h. ap (λ f. f k) e ∙ ground (arith, eq_iff node.name k);
        same = ap (λ f. bare (f name)) e ∙ ground (arith, eq_iff node.name name);
        rules = r;
      }

  module _ (name rule_name : String) where
    mark_answer :
        (node : Node) (w : c.World) (answer : Result c.Err Node × c.World)
        → s.node_at w name ≡ some node
        → c.update_node (annotated node (annotation_key rule_name)) w ≡ answer
        → OnlyAnnotates c s name w answer.1
    unfolding annotated
    mark_answer node w (ok n, w') found e =
        stored name _ node w w' found (s.update_node_ok w w' _ n e)
          (ap (λ p. s.rule_at p.1) (sym e) ∙ s.update_node_rules w _)
    mark_answer node w (err x, w') found e =
        let rules = ap (λ p. s.rule_at p.1) (sym e) ∙ s.update_node_rules w _ in
        elim (s.update_node_err w w' _ x e) [
          | inl kept ↦ unchanged name w w' kept rules
          | inr made ↦ stored name _ node w w' found made rules
        ]

    mark_in-OnlyAnnotates :
        (w : c.World) (read : Result c.Err Node × c.World)
        → c.get_node name w ≡ read
        → OnlyAnnotates c s name w (mark_in c rule_name read).1
    unfolding mark_in
    mark_in-OnlyAnnotates w (err x, w') e =
        unchanged name w w' (ap (λ p. s.node_at p.1) (sym e) ∙ s.get_node_nodes w name)
          (ap (λ p. s.rule_at p.1) (sym e) ∙ s.get_node_rules w name)
    mark_in-OnlyAnnotates w (ok node, w') e =
        let nodes = ap (λ p. s.node_at p.1) (sym e) ∙ s.get_node_nodes w name in
        let rules = ap (λ p. s.rule_at p.1) (sym e) ∙ s.get_node_rules w name in
        let found = ap (λ f. f name) nodes ∙ s.get_node_ok w w' name node e in
        let read = unchanged name w w' nodes rules in
        elim (Bool-cases (has_annotation node.annotations (annotation_key rule_name))) [
          | inl marked ↦ rw marked read
          | inr fresh ↦ rw fresh (OnlyAnnotates_trans read (mark_answer node w' _ found refl))
        ]

    -- There is a node, and it has the mark of the rule.
    abbrev pub is_marked : Option Node → Bool
    is_marked none = false
    is_marked (some node) = has_annotation node.annotations (annotation_key rule_name)

    -- The node carries the mark.
    abbrev pub IsMarked : c.World → Type 0
    IsMarked w =
        (node : Node) × (s.node_at w name ≡ some node)
        × (has_annotation node.annotations (annotation_key rule_name) ≡ true)

    IsMarked-answer :
        (node : Node) (w : c.World) (answer : Result c.Err Node × c.World)
        → s.node_at w name ≡ some node
        → c.update_node (annotated node (annotation_key rule_name)) w ≡ answer
        → error_of answer.0 ≡ none
        → IsMarked answer.1
    unfolding annotated
    IsMarked-answer node w (err x, w') found e h = absurd (cc)
    IsMarked-answer node w (ok n, w') found e h = (
      annotated node (annotation_key rule_name),
      ap (λ f. f name) (s.update_node_ok w w' _ n e)
          ∙ ground (arith, s.node_name w name node found, eq_refl name),
      has_annotation-annotated node (annotation_key rule_name),
    )

    mark_in-IsMarked :
        (w : c.World) (read : Result c.Err Node × c.World)
        → c.get_node name w ≡ read
        → (mark_in c rule_name read).0 ≡ none
        → IsMarked (mark_in c rule_name read).1
    unfolding mark_in
    mark_in-IsMarked w (err x, w') e h = absurd (cc)
    mark_in-IsMarked w (ok node, w') e h =
        let nodes = ap (λ p. s.node_at p.1) (sym e) ∙ s.get_node_nodes w name in
        let found = ap (λ f. f name) nodes ∙ s.get_node_ok w w' name node e in
        elim (Bool-cases (has_annotation node.annotations (annotation_key rule_name))) [
          | inl marked ↦ rw marked (node, found, marked)
          | inr fresh ↦ rw fresh (IsMarked-answer node w' _ found refl (rw (fresh) at h))
        ]

    Retried-mark :
        {w : c.World} {out : Option c.Err × c.World}
        → Retried c.is_conflict (mark_attempt c name rule_name) w out
        → OnlyAnnotates c s name w out.1 × (out.0 ≡ none → IsMarked out.1)
    unfolding mark_attempt
    Retried-mark {w} (last e) = rw (← e) (mark_in-OnlyAnnotates w _ refl, mark_in-IsMarked w _ refl)
    Retried-mark {w} (again e x r) =
        let (later, marked) = Retried-mark r in
        let first : OnlyAnnotates c s name w _ = mark_in-OnlyAnnotates w _ refl in
        (OnlyAnnotates_trans (rw e at first) later, marked)

    -- Marking, whatever calls fail, changes at most the annotations of the one node.
    pub mark_bootstrap_completed-OnlyAnnotates :
        (w : c.World) → OnlyAnnotates c s name w (mark_bootstrap_completed c name rule_name w)
    unfolding mark_bootstrap_completed
    mark_bootstrap_completed-OnlyAnnotates w =
        (Retried-mark (s.retry_on_conflict_lem (mark_attempt c name rule_name) w)).0

    -- Once the retry loop of the marking ends without an error, the check finds the bootstrap
    -- completed in every later world in which it can read the node and in which the node, if it
    -- had the mark right after the marking, has it still.
    pub is_bootstrap_completed-mark :
        (w later : c.World) (node : Node) (v : c.World)
        → (c.retry_on_conflict (mark_attempt c name rule_name) w).0 ≡ none
        → (is_marked (s.node_at (mark_bootstrap_completed c name rule_name w) name) ≡ true
            → is_marked (s.node_at later name) ≡ true)
        → c.get_node name later ≡ (ok node, v)
        → (is_bootstrap_completed c name rule_name later).0 ≡ true
    unfolding mark_bootstrap_completed is_bootstrap_completed
    is_bootstrap_completed-mark w later node v h keeps read =
        let (n, found, marked) =
          (Retried-mark (s.retry_on_conflict_lem (mark_attempt c name rule_name) w)).1 h in
        let still = keeps (ap is_marked found ∙ marked) in
        let same = s.get_node_ok later v name node read in
        ap (λ a. (completed_in c rule_name a).0) read ∙ sym (ap is_marked same) ∙ still

module _ (c : Client) where
  -- The check for a completed bootstrap writes nothing.
  pub is_bootstrap_completed-reads :
      (s : Store c) (name rule_name : String) (w : c.World)
      → (s.node_at (is_bootstrap_completed c name rule_name w).1 ≡ s.node_at w)
        × (s.rule_at (is_bootstrap_completed c name rule_name w).1 ≡ s.rule_at w)
  unfolding is_bootstrap_completed
  is_bootstrap_completed-reads s name rule_name w = answered (c.get_node name w) refl
    where
      answered :
          (a : Result c.Err Node × c.World)
          → c.get_node name w ≡ a
          → (s.node_at (completed_in c rule_name a).1 ≡ s.node_at w)
            × (s.rule_at (completed_in c rule_name a).1 ≡ s.rule_at w)
      answered (ok node, v) q = (
        ap (λ p. s.node_at p.1) (sym q) ∙ s.get_node_nodes w name,
        ap (λ p. s.rule_at p.1) (sym q) ∙ s.get_node_rules w name,
      )
      answered (err e, v) q = (
        ap (λ p. s.node_at p.1) (sym q) ∙ s.get_node_nodes w name,
        ap (λ p. s.rule_at p.1) (sym q) ∙ s.get_node_rules w name,
      )
