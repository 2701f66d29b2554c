-- ===== src/Selection/Laws.antt =====
-- What it means that stringMapEqual (internal/controller/nodereadinessgaterule_controller.go) finds
-- two maps of texts equal.
use node_readiness_gate_cont.Prelude.{
  ◌≡◌, refl, sym, ◌≢◌, String, true, [], ◌∷◌, none, some, arith, eq_iff, eq_refl, all, All,
}
use node_readiness_gate_cont.Prelude.GoMap.{GoMap, lookup, HasDistinctKeys}
use node_readiness_gate_cont.Prelude.GoMap.Agreement.{Holds, lookup-eq_of_Holds}
use node_readiness_gate_cont.Selection.{text_or_empty, entry_agrees, string_map_equal}

-- Each entry with an empty value keeps its key in the other map.
abbrev pub KeepsEmpty : GoMap String → GoMap String → Type 0
KeepsEmpty b = All (λ e. e.1 ≡ "" → lookup e.0 b ≢ none)

Holds-of_entry_agrees :
    (b a : GoMap String) → KeepsEmpty b a → all (entry_agrees b) a ≡ true → All (Holds b) a
Holds-of_entry_agrees b [] keeps h = tt
Holds-of_entry_agrees b ((k, v) ∷ a) keeps h = (
  ground (arith, eq_iff (text_or_empty (lookup k b)) v),
  Holds-of_entry_agrees b a keeps.1 (ground arith),
)

-- Two maps that compare equal hold the same value under every key, if no key of the first with an
-- empty value is missing from the second.
pub string_map_equal_sound :
    (a b : GoMap String)
    → HasDistinctKeys a
    → HasDistinctKeys b
    → KeepsEmpty b a
    → string_map_equal a b ≡ true
    → (k : String) → lookup k a ≡ lookup k b
unfolding string_map_equal
string_map_equal_sound a b da db keeps h k =
    sym (
      lookup-eq_of_Holds b a db da (ground arith) (Holds-of_entry_agrees b a keeps (ground arith))
        k)

entries_agree :
    (m rest : GoMap String) (j v : String)
    → HasDistinctKeys rest
    → All (λ e. lookup e.0 m ≡ some e.1) rest
    → lookup j rest ≡ none
    → all (entry_agrees ((j, v) ∷ m)) rest ≡ true
unfolding lookup
entries_agree m [] j v d own absent = refl
entries_agree m ((k, w) ∷ rest) j v d own absent =
    ground (arith, eq_iff j k, eq_iff k j, eq_refl w, entries_agree m rest j v)

All-weaken :
    (j v : String) (m rest : GoMap String)
    → lookup j rest ≡ none
    → All (λ e. lookup e.0 m ≡ some e.1) rest
    → All (λ e. lookup e.0 ((j, v) ∷ m) ≡ some e.1) rest
unfolding lookup
All-weaken j v m [] absent h = tt
All-weaken j v m ((k, w) ∷ rest) absent h =
    ground (arith, eq_iff k j, eq_iff j k, All-weaken j v m rest)

own_entries : (m : GoMap String) → HasDistinctKeys m → All (λ e. lookup e.0 m ≡ some e.1) m
unfolding lookup
own_entries [] d = tt
own_entries ((k, w) ∷ m) d = (rw (eq_refl k), All-weaken k w m m d.0 (own_entries m d.1))

-- Two maps that compare equal though they differ: an entry with an empty value in the one and, in
-- its place, an entry with another key and any value in the other.
pub string_map_equal_of_empty :
    (k j v : String) (m : GoMap String)
    → HasDistinctKeys ((k, "") ∷ m)
    → HasDistinctKeys ((j, v) ∷ m)
    → k ≢ j
    → (string_map_equal ((k, "") ∷ m) ((j, v) ∷ m) ≡ true)
      × (lookup j ((k, "") ∷ m) ≢ lookup j ((j, v) ∷ m))
unfolding string_map_equal lookup
string_map_equal_of_empty k j v m dk dj ne =
    let absent : lookup k ((j, v) ∷ m) ≡ none = ground (arith, eq_iff j k) in
    let first : entry_agrees ((j, v) ∷ m) (k, "") ≡ true = rw absent refl in
    (
      ground (arith, first, entries_agree m m j v dk.1 (own_entries m dk.1) dj.0),
      ground (arith, eq_iff k j, eq_refl j),
    )
