-- ===== src/Client/Listing.antt =====
-- The nodes of a listing against the stored ones.
use node_readiness_gate_cont.Prelude.{
  ◌≡◌, sym, ap, ◌∙◌, String, List, [], ◌∷◌, none, some, ok, arith, eq_iff, eq_refl, All,
}
use node_readiness_gate_cont.Core.{Node}
use node_readiness_gate_cont.Client.{Client}
use node_readiness_gate_cont.Client.Store.{Store, node_named, HasDistinctNames}

-- The node in memory is the one that is stored.
abbrev pub IsFresh : (c : Client) (s : Store c) → Node → c.World → Type 0
IsFresh c s node w = s.node_at w node.name ≡ some node

AreOwn_cons :
    (n : Node) (nodes rest : List Node)
    → node_named n.name rest ≡ none
    → All (λ m. node_named m.name nodes ≡ some m) rest
    → All (λ m. node_named m.name (n ∷ nodes) ≡ some m) rest
AreOwn_cons n nodes [] absent h = tt
AreOwn_cons n nodes (m ∷ rest) absent h =
    ground (arith, eq_iff n.name m.name, eq_iff m.name n.name, AreOwn_cons n nodes rest)

AreOwn :
    (nodes : List Node) → HasDistinctNames nodes → All (λ m. node_named m.name nodes ≡ some m) nodes
AreOwn [] d = tt
AreOwn (n ∷ nodes) d = (rw (eq_refl n.name), AreOwn_cons n nodes nodes d.0 (AreOwn nodes d.1))

module _ (c : Client) (s : Store c) (w : c.World) where
  All-IsFresh :
      (listed rest : List Node)
      → ((k : String) → s.node_at w k ≡ node_named k listed)
      → All (λ n. node_named n.name listed ≡ some n) rest
      → All (λ n. IsFresh c s n w) rest
  All-IsFresh listed [] same h = tt
  All-IsFresh listed (n ∷ rest) same h = (same n.name ∙ h.0, All-IsFresh listed rest same h.1)

  pub record IsListing (nodes : List Node) (w' : c.World) : Type 0 where
    pub distinct : HasDistinctNames nodes
    pub fresh : All (λ n. IsFresh c s n w') nodes
    pub complete : (k : String) → s.node_at w' k ≡ node_named k nodes
    pub nodes_kept : s.node_at w' ≡ s.node_at w
    pub rules_kept : s.rule_at w' ≡ s.rule_at w

module _ (c : Client) (s : Store c) where
  pub list_nodes-IsListing :
      (w w' : c.World) (nodes : List Node)
      → c.list_nodes w ≡ (ok nodes, w')
      → IsListing c s w nodes w'
  list_nodes-IsListing w w' nodes e =
      let (distinct, complete) = s.list_nodes_ok w w' nodes e in
      let kept : s.node_at w' ≡ s.node_at w =
        ap (λ p. s.node_at p.1) (sym e) ∙ s.list_nodes_nodes w in
      let here : (k : String) → s.node_at w' k ≡ node_named k nodes =
        λ k. ap (λ f. f k) kept ∙ complete k in
      record {
        distinct = distinct;
        fresh = All-IsFresh c s w' nodes nodes here (AreOwn nodes distinct);
        complete = here;
        nodes_kept = kept;
        rules_kept = ap (λ p. s.rule_at p.1) (sym e) ∙ s.list_nodes_rules w;
      }
