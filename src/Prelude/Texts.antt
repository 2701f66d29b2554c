-- ===== src/Prelude/Texts.antt =====
-- The texts that the standard library prints: numbers in decimal, and joined lists.
use Prim.Native.Nat.{ℕ, zero, suc, ◌/◌, ◌%◌}
use Prim.Native.String
use Prim.Native.String.{String}
use mathlib.Core.List.{List, [], ◌∷◌}
use node_readiness_gate_cont.Prelude.Tests.{ltb, if◌then◌else◌}

infixr 65 ◌<>◌
abbrev pub ◌<>◌ : String → String → String
a <> b = String.◌++◌ a b

-- `strings.Join`.
unfoldable pub join : String → List String → String
join sep [] = ""
join sep (s ∷ []) = s
join sep (s ∷ t ∷ ts) = s <> sep <> join sep (t ∷ ts)

abbrev numerals : List String
numerals = "0" ∷ "1" ∷ "2" ∷ "3" ∷ "4" ∷ "5" ∷ "6" ∷ "7" ∷ "8" ∷ "9" ∷ []

-- The element at the index, or the empty text.
nth_text : List String → ℕ → String
nth_text [] n = ""
nth_text (s ∷ ss) zero = s
nth_text (s ∷ ss) (suc n) = nth_text ss n

digit : ℕ → String
unfolding nth_text
digit n = nth_text numerals n

-- A number of `n` has at most `n + 1` digits, so `n` itself is enough fuel.
decimal_from : ℕ → ℕ → String
decimal_from zero n = digit n
decimal_from (suc fuel) n =
    let rest = decimal_from fuel (n / 10) in if ltb n 10 then digit n else rest <> digit (n % 10)

-- `%d` of `fmt.Sprintf`.
unfoldable pub decimal : ℕ → String
unfolding decimal_from digit
decimal n = decimal_from n n

-- `%v` of `fmt.Sprintf` on a slice of texts.
unfoldable pub bracketed : List String → String
unfolding join
bracketed ss = "[" <> join " " ss <> "]"
