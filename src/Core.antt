-- ===== src/Core.antt =====
-- The Kubernetes types (corev1, metav1) that the program uses, with the fields that it reads or
-- writes, and the interfaces of the libraries that it calls: the API client of
-- controller-runtime, the retry loop of client-go and the label selectors of apimachinery.
use Prim.Native.Nat.{ℕ}
use Prim.Native.String.{String}
use mathlib.Core.Bool.{Bool}
use mathlib.Core.Option.{Option}
use mathlib.Core.List.{List}
use node_readiness_gate_cont.Prelude.{Result, ◌≡◌}
use node_readiness_gate_cont.Prelude.GoMap.{GoMap, lookup}

-- metav1.Time and metav1.Duration, in whole seconds.
abbrev pub Time : Type 0
Time = ℕ

-- corev1.ConditionStatus and corev1.TaintEffect are texts in the source.
abbrev pub condition_unknown : String
condition_unknown = "Unknown"

pub record Taint : Type 0 where
  pub key : String
  pub value : String
  pub effect : String

pub record NodeCondition : Type 0 where
  pub kind : String
  pub status : String

-- A map that may be nil is an option where the source tells nil from empty.
pub record Node : Type 0 where
  pub name : String
  pub labels : GoMap String
  pub annotations : Option (GoMap String)
  pub taints : List Taint
  pub conditions : List NodeCondition

pub record LabelSelectorRequirement : Type 0 where
  pub key : String
  pub operator : String
  pub values : List String

pub record LabelSelector : Type 0 where
  pub match_labels : GoMap String
  pub match_expressions : List LabelSelectorRequirement

-- metav1.Condition, which the status of a rule carries and no code of the program reads.
pub record StatusCondition : Type 0 where
  pub kind : String
  pub status : String
  pub observed_generation : ℕ
  pub last_transition_time : Time
  pub reason : String
  pub message : String

-- The label selectors of apimachinery: `LabelSelectorAsSelector`, `Selector.Matches` and
-- `Selector.String`. A selector that cannot be parsed gives the text of its error.
pub record Selectors : Type 1 where
  pub Selector : Type 0
  pub as_selector : LabelSelector → Result String Selector
  pub matches : Selector → GoMap String → Bool
  pub render : Selector → String

-- Label sets are maps: a selector sees a label set only through the values under its keys.
pub record IsLawful (sel : Selectors) : Type 0 where
  pub matches_congr :
      (s : sel.Selector) (a b : GoMap String)
      → ((k : String) → lookup k a ≡ lookup k b)
      → sel.matches s a ≡ sel.matches s b
