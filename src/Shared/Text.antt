-- ===== src/Shared/Text.antt =====
-- Texts: numbers printed in decimal, and the joining and stripping that the source does.
use Prim.Native.Nat.{ℕ, zero, suc, ◌+◌, ◌/◌, ◌%◌}
use Prim.Native.String.{String, ◌++◌, slice, len}
use mathlib.Core.Bool.{Bool, not}
use mathlib.Core.List.{List}
use text.Mathlib.Text.{◌==◌, starts_with}
use verifier_core.Shared.Tests.{ltb, if◌then◌else◌}

infixr 65 ◌<>◌
-- Concatenation of texts, as a template literal does it.
abbrev pub ◌<>◌ : String → String → String
s <> t = s ++ t

digit : ℕ → String
digit d = slice "0123456789" d (d + 1)

-- Digits are put in front of those that are there already, as long as there are rounds left: a number
-- has fewer digits than `n + 1`.
digits_before : (rounds n : ℕ) → String → String
digits_before zero n done = done
digits_before (suc rounds) n done =
    let now = digit (n % 10) <> done in
    let rest = digits_before rounds (n / 10) now in if ltb n 10 then now else rest

-- `${n}`
pub decimal : ℕ → String
unfolding digit digits_before
decimal n = digits_before (n + 1) n ""

-- `s !== ''`, the truth value of a text
abbrev pub is_nonempty : String → Bool
is_nonempty s = not (s == "")

-- `xs.join(sep)`
abbrev pub join : String → List String → String
join sep List.[] = ""
join sep (List.◌∷◌ x List.[]) = x
join sep (List.◌∷◌ x (List.◌∷◌ y ys)) = x <> sep <> join sep (List.◌∷◌ y ys)

-- `s.startsWith(p) ? s.slice(p.length) : s`
abbrev pub strip_prefix : String → String → String
strip_prefix p s = if starts_with s p then slice s (len p) (len s) else s
