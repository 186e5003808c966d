-- ===== src/Base/Text.antt =====
-- Formatting of values, as the verbs of Go's `fmt` print them.
use mathlib.Core.Bool.{Bool, true, false}
use Prim.Native.String.{String, ◌++◌ as ◌<>◌}
use Prim.Native.Nat.{ℕ, zero, suc, ◌/◌, ◌%◌}
use mathlib.Core.List.{List, [], ◌∷◌}
use mathlib.Core.Path.{◌≡◌, sym, ap, ◌∙◌}
use mathlib.Core.Logic.{inl, inr}
use mathlib.Core.Bool.{false≢true}
use text.Mathlib.Text.{◌==◌, starts_with}
use text.Mathlib.TextEquality.{eq_iff}
use text.Mathlib.TextPositions.{starts_with-append}
use gardener_extension_shoot.Base.Tests.{Bool-cases}

-- `%t`
abbrev pub format_bool : Bool → String
format_bool true = "true"
format_bool false = "false"

abbrev digits : List String
digits = "0" ∷ "1" ∷ "2" ∷ "3" ∷ "4" ∷ "5" ∷ "6" ∷ "7" ∷ "8" ∷ "9" ∷ []

abbrev pick : List String → ℕ → String
pick [] n = ""
pick (x ∷ xs) zero = x
pick (x ∷ xs) (suc n) = pick xs n

-- The last `count` decimal digits.
abbrev decimals : ℕ → ℕ → String
decimals zero n = ""
decimals (suc count) n = decimals count (n / 10) <> pick digits (n % 10)

-- A port of four digits, as `%d` prints it.
abbrev pub format_port : ℕ → String
format_port n = decimals 4 n

-- A text is none that does not start as it does.
pub prefix_differs : (p x t : String) → starts_with t p ≡ false → ((p <> x) == t) ≡ false
prefix_differs p x t h = elim (Bool-cases ((p <> x) == t)) [
  | inr differs ↦ differs
  | inl equal ↦ absurd (
      false≢true (
        sym h
        ∙ (ap (λ s. starts_with s p) (sym ((eq_iff (p <> x) t).0 equal)) ∙ starts_with-append p x)))
]
