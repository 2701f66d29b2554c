-- ===== src/Cleanup/Loop.antt =====
-- The loop that both cleanups run.
use mathlib.Core.Path.{fun_ext}
use node_readiness_gate_cont.Prelude.{
  ◌≡◌, refl, sym, ap, subst, ◌∙◌, inl, inr, String, Bool, true, false, List, [], ◌∷◌, Option, none,
  some, arith, ◌==◌, eq_iff, if◌then◌else◌, Bool-cases, All, ltb, length,
}
use node_readiness_gate_cont.Core.{Node}
use node_readiness_gate_cont.Api.{TaintSpec}
use node_readiness_gate_cont.Client.{Client}
use node_readiness_gate_cont.Client.Store.{Store, put, node_named, HasDistinctNames}
use node_readiness_gate_cont.Taints.{has_taint_by_spec, without_taint}
use node_readiness_gate_cont.Taints.Laws.{without_taint_of_absent}
use node_readiness_gate_cont.Evaluation.{remove_taint_by_spec}
use node_readiness_gate_cont.Evaluation.Effect.{remove_put}
use node_readiness_gate_cont.Client.Listing.{IsFresh, IsListing}
use node_readiness_gate_cont.Cleanup.{note_error, clean_node, clean_nodes, clean_result}

-- The node without the taint, if it is to be cleaned.
abbrev pub cleaned : (Node → Bool) → TaintSpec → Node → Node
cleaned pick spec n = if pick n then record n { taints = without_taint n.taints spec } else n

abbrev pub cleaned? : (Node → Bool) → TaintSpec → Option Node → Option Node
cleaned? pick spec none = none
cleaned? pick spec (some n) = some (cleaned pick spec n)

note_error-nil :
    (c : Client) (errors : List String) (node : Node) (e : Option c.Err)
    → note_error c errors node e ≡ []
    → (errors ≡ []) × (e ≡ none)
unfolding note_error
note_error-nil c errors node none h = (h, refl)
note_error-nil c [] node (some e) h = absurd (cc)
note_error-nil c (x ∷ errors) node (some e) h = absurd (cc)

put_self {ℓ} :
    {A : Type ℓ} (name : String) (a : A) (view : String → Option A)
    → view name ≡ some a
    → put name a view ≡ view
put_self name a view h = fun_ext λ k. elim (Bool-cases (name == k)) [
  | inl e ↦ rw e (sym h ∙ ap view ((eq_iff name k).0 e))
  | inr n ↦ rw n
]

module _ (c : Client) (s : Store c) (pick : Node → Bool) (spec : TaintSpec) where
  -- One round, as the loop makes it.
  abbrev round : Node → List String → c.World → List String × c.World
  round node errors w = if pick node then clean_node c spec node errors w else (errors, w)

  clean_absent :
      (node : Node) (errors : List String) (w : c.World)
      → has_taint_by_spec node.taints spec ≡ false
      → clean_node c spec node errors w ≡ (errors, w)
  unfolding clean_node
  clean_absent node errors w h = rw (h, clean_node)

  clean_present :
      (node : Node) (errors : List String) (w : c.World)
      → has_taint_by_spec node.taints spec ≡ true
      → let (e, node', w') = remove_taint_by_spec c node spec w in
        clean_node c spec node errors w ≡ (note_error c errors node' e, w')
  unfolding clean_node
  clean_present node errors w h = rw (h, clean_node)

  round_ok :
      (node : Node) (errors : List String) (w : c.World)
      → IsFresh c s node w
      → (round node errors w).0 ≡ []
      → (errors ≡ [])
        × (s.node_at (round node errors w).1 ≡ put node.name (cleaned pick spec node) (s.node_at w))
        × (s.rule_at (round node errors w).1 ≡ s.rule_at w)
  round_ok node errors w fresh h = elim (Bool-cases (pick node)) [
    | inr skipped ↦ rw skipped (rw skipped at h, sym (put_self node.name node _ fresh), refl)
    | inl picked ↦ elim (Bool-cases (has_taint_by_spec node.taints spec)) [
      | inr absent ↦
          let e = clean_absent node errors w absent in
          rw (picked, e, without_taint_of_absent node.taints spec absent)
            (rw (picked, e) at h, sym (put_self node.name node _ fresh), refl)
      | inl present ↦
          let e = clean_present node errors w present in
          let (kept, done) = note_error-nil c errors _ _ (rw (picked, e) at h) in
          rw (picked, e)
            (let (nodes, rules) = remove_put c s node spec w fresh done in (kept, nodes, rules))
    ]
  ]

  round_nil :
      (node : Node) (errors : List String) (w : c.World)
      → (round node errors w).0 ≡ []
      → errors ≡ []
  round_nil node errors w h = elim (Bool-cases (pick node)) [
    | inr skipped ↦ rw skipped at h
    | inl picked ↦ elim (Bool-cases (has_taint_by_spec node.taints spec)) [
      | inr absent ↦ rw (picked, clean_absent node errors w absent) at h
      | inl present ↦
          (note_error-nil c errors _ _ (rw (picked, clean_present node errors w present) at h)).0
    ]
  ]

  clean_nodes-nil :
      (nodes : List Node) (errors : List String) (w : c.World)
      → (clean_nodes c pick spec nodes errors w).0 ≡ []
      → errors ≡ []
  unfolding clean_nodes
  clean_nodes-nil [] errors w h = h
  clean_nodes-nil (node ∷ nodes) errors w h =
      round_nil node errors w
        (clean_nodes-nil nodes (round node errors w).0 (round node errors w).1 h)

  -- Every listed node is stored as it was listed.
  abbrev AreFresh : List Node → c.World → Type 0
  AreFresh nodes w = All (λ n. IsFresh c s n w) nodes

  still_fresh :
      (node : Node) (nodes : List Node) (w w' : c.World) (n : Node)
      → node_named node.name nodes ≡ none
      → s.node_at w' ≡ put node.name n (s.node_at w)
      → AreFresh nodes w
      → AreFresh nodes w'
  still_fresh node [] w w' n apart stored fresh = tt
  still_fresh node (m ∷ nodes) w w' n apart stored fresh = (
    ap (λ f. f m.name) stored ∙ ground (arith, eq_iff m.name node.name, eq_iff node.name m.name),
    still_fresh node nodes w w' n (ground arith) stored fresh.1,
  )

  -- What is stored under a key once the listed nodes are cleaned.
  abbrev pub after_cleaning : Option Node → Option Node → Option Node
  after_cleaning none before = before
  after_cleaning (some n) before = some (cleaned pick spec n)

  clean_nodes_ok :
      (nodes : List Node) (errors : List String) (w : c.World)
      → HasDistinctNames nodes
      → AreFresh nodes w
      → (clean_nodes c pick spec nodes errors w).0 ≡ []
      → let w' = (clean_nodes c pick spec nodes errors w).1 in
        ((k : String) → s.node_at w' k ≡ after_cleaning (node_named k nodes) (s.node_at w k))
        × (s.rule_at w' ≡ s.rule_at w)
  unfolding clean_nodes
  clean_nodes_ok [] errors w distinct fresh h = (λ k. refl, refl)
  clean_nodes_ok (node ∷ nodes) errors w distinct fresh h =
      let (errors', w') = round node errors w in
      let (_, stored, rules) =
        round_ok node errors w fresh.0 (clean_nodes-nil nodes errors' w' h) in
      let (later, later_rules) =
        clean_nodes_ok nodes errors' w' distinct.1
          (still_fresh node nodes w w' _ distinct.0 stored fresh.1) h in
      (λ k. later k ∙ merge k (ap (λ f. f k) stored), later_rules ∙ rules)
    where
      merge :
          (k : String)
          → s.node_at (round node errors w).1 k
            ≡ put node.name (cleaned pick spec node) (s.node_at w) k
          → after_cleaning (node_named k nodes) (s.node_at (round node errors w).1 k)
            ≡ after_cleaning (node_named k (node ∷ nodes)) (s.node_at w k)
      merge k stored = elim (Bool-cases (node.name == k)) [
        | inl here ↦
            let absent : node_named k nodes ≡ none =
              subst (λ j. node_named j nodes ≡ none) ((eq_iff node.name k).0 here) distinct.0 in
            rw (stored, absent, here)
        | inr there ↦ rw (stored, there)
      ]

length-nil {ℓ} : {A : Type ℓ} (xs : List A) → ltb 0 (length xs) ≡ false → xs ≡ []
length-nil [] h = refl
length-nil (x ∷ xs) h = absurd (ground arith)

module _ (c : Client) (s : Store c) (pick : Node → Bool) (spec : TaintSpec) where
  -- Nothing but the cleaning has happened to the stored objects.
  abbrev pub IsCleaned : c.World → c.World → Type 0
  IsCleaned w w' =
      ((k : String) → s.node_at w' k ≡ cleaned? pick spec (s.node_at w k))
      × (s.rule_at w' ≡ s.rule_at w)

  after_cleaning-cleaned? :
      (o p : Option Node) → p ≡ o → after_cleaning c s pick spec o p ≡ cleaned? pick spec p
  after_cleaning-cleaned? none p h = rw h
  after_cleaning-cleaned? (some n) p h = rw h

  pub clean_result-IsCleaned :
      (nodes : List Node) (w v : c.World)
      → IsListing c s w nodes v
      → (clean_result c (clean_nodes c pick spec nodes [] v)).0 ≡ none
      → IsCleaned w (clean_result c (clean_nodes c pick spec nodes [] v)).1
  unfolding clean_result
  clean_result-IsCleaned nodes w v listing h =
      elim (Bool-cases (ltb 0 (length (clean_nodes c pick spec nodes [] v).0))) [
        | inl failed ↦ absurd (cc (rw failed at h))
        | inr clean ↦
            let (stored, rules) =
              clean_nodes_ok c s pick spec nodes [] v listing.distinct listing.fresh
                (length-nil _ clean) in
            rw clean (
              λ k.
                  stored k
                  ∙ after_cleaning-cleaned? _ _ (listing.complete k)
                  ∙ ap (λ f. cleaned? pick spec (f k)) listing.nodes_kept,
              rules ∙ listing.rules_kept,
            )
      ]
