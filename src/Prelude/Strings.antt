-- ===== src/Prelude/Strings.antt =====
-- Go's strings: white space, and the split at slashes. A text is measured in bytes.
use Prim.Native.Nat.{ℕ, zero, suc, ◌+◌, ◌-◌}
use Prim.Native.String.{String, len, slice}
use mathlib.Core.Bool.{Bool}
use virmux.Prelude.Tests.{if◌then◌else◌}
use mathlib.Core.Option.{none, some}
use mathlib.Core.List.{List, [], ◌∷◌}
use text.Mathlib.Text.{◌==◌ as str_eq, starts_with, find?}

-- unicode.IsSpace
abbrev spaces : List String
spaces =
    "\t" ∷ "\n" ∷ "\u{b}" ∷ "\u{c}" ∷ "\r" ∷ " " ∷ "\u{85}" ∷ "\u{a0}" ∷ "\u{1680}" ∷ "\u{2000}"
    ∷ "\u{2001}" ∷ "\u{2002}" ∷ "\u{2003}" ∷ "\u{2004}" ∷ "\u{2005}" ∷ "\u{2006}" ∷ "\u{2007}"
    ∷ "\u{2008}" ∷ "\u{2009}" ∷ "\u{200a}" ∷ "\u{2028}" ∷ "\u{2029}" ∷ "\u{202f}" ∷ "\u{205f}"
    ∷ "\u{3000}" ∷ []

-- The length of the white space that a text begins with, or 0.
front_space : String → List String → ℕ
front_space s [] = 0
front_space s (t ∷ ts) = let rest = front_space s ts in if starts_with s t then len t else rest

-- The same of its end.
end_space : String → List String → ℕ
end_space s [] = 0
end_space s (t ∷ ts) =
    let rest = end_space s ts in if str_eq (slice s (len s - len t) (len s)) t then len t else rest

-- The text behind the white space at its front, on fuel for each byte.
skip_spaces : ℕ → String → String
unfolding front_space
skip_spaces zero s = s
skip_spaces (suc fuel) s = elim (front_space s spaces) [
  | zero ↦ s
  | suc n ↦ skip_spaces fuel (slice s (suc n) (len s))
]

-- strings.TrimSpace(s) == ""
unfoldable pub is_blank : String → Bool
unfolding skip_spaces
is_blank s = str_eq (skip_spaces (len s) s) ""

-- strings.Split(s, "/"), on fuel for each byte.
split_on : ℕ → String → List String
split_on zero s = s ∷ []
split_on (suc fuel) s = elim (find? s "/") [
  | none ↦ s ∷ []
  | some i ↦ slice s 0 i ∷ split_on fuel (slice s (i + 1) (len s))
]

unfoldable pub split_slash : String → List String
unfolding split_on
split_slash s = split_on (len s) s

-- The text before the white space at its end, on fuel for each byte.
skip_back : ℕ → String → String
unfolding end_space
skip_back zero s = s
skip_back (suc fuel) s = elim (end_space s spaces) [
  | zero ↦ s
  | suc n ↦ skip_back fuel (slice s 0 (len s - suc n))
]

-- strings.TrimSpace
unfoldable pub trim : String → String
unfolding skip_spaces skip_back
trim s = let t = skip_spaces (len s) s in skip_back (len t) t
