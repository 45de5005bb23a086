-- ===== src/Common/Text.antt =====
-- Python's operations on texts that the program uses, by recursion on the characters.
use Prim.Native.Nat.{ℕ, zero, suc}
use Prim.Native.Char.{code}
use Prim.Native.String.{String}
use mathlib.Core.Bool.{Bool, true, ◌&&◌, ◌||◌}
use mathlib.Core.Option.{Option, none, some}
use mathlib.Core.List.{List, [], ◌∷◌}
use mathlib.Core.Path.{◌≡◌}
use mathlib.Core.Logic.{inl, inr}
use glados_docker.Common.Tests.{Bool-cases, if◌then◌else◌, leb, ◌==◌}
use glados_docker.Common.Lists.{all_of, any_of}

-- The code points of a text.
abbrev pub codes : String → List ℕ
codes String.[] = []
codes (String.◌∷◌ c s) = code c ∷ codes s

abbrev between : ℕ → ℕ → ℕ → Bool
between lo hi c = leb lo c && leb c hi

-- `str.isspace` of one character.
unfoldable pub is_space : ℕ → Bool
is_space c =
    between 9 13 c
    || between 28 32 c
    || c == 133
    || c == 160
    || c == 0x1680
    || between 0x2000 0x200a c
    || between 0x2028 0x2029 c
    || c == 0x202f
    || c == 0x205f
    || c == 0x3000

-- `not s.strip()`
unfoldable pub is_blank : String → Bool
unfolding is_space
is_blank s = all_of is_space (codes s)

-- `chr(c) in s`
unfoldable pub has_code : ℕ → String → Bool
has_code c s = any_of (λ d. d == c) (codes s)

-- `s.lstrip()`
unfoldable pub lstrip : String → String
unfolding is_space
lstrip String.[] = String.[]
lstrip (String.◌∷◌ c s) = if is_space (code c) then lstrip s else String.◌∷◌ c s

-- `s.rstrip()`
unfoldable pub rstrip : String → String
unfolding is_blank
rstrip String.[] = String.[]
rstrip (String.◌∷◌ c s) = if is_blank (String.◌∷◌ c s) then String.[] else String.◌∷◌ c (rstrip s)

-- `s.strip()`
unfoldable pub strip : String → String
unfolding lstrip rstrip
strip s = rstrip (lstrip s)

-- `s.split(chr(sep), 1)`, `none` where the separator is not in the text.
unfoldable pub split_once : ℕ → String → Option (String × String)
split_once sep String.[] = none
split_once sep (String.◌∷◌ c s) =
    if code c == sep
    then some (String.[], s)
    else (elim (split_once sep s) [ none ↦ none | some (a, b) ↦ some (String.◌∷◌ c a, b) ])

-- `s[:n]`
unfoldable pub take_text : ℕ → String → String
take_text zero s = String.[]
take_text (suc n) String.[] = String.[]
take_text (suc n) (String.◌∷◌ c s) = String.◌∷◌ c (take_text n s)

-- A text with the separator in it splits.
pub split_once-has_code :
    (sep : ℕ) (s : String)
    → has_code sep s ≡ true
    → (p : String × String) × (split_once sep s ≡ some p)
unfolding split_once has_code
split_once-has_code sep String.[] h = cc
split_once-has_code sep (String.◌∷◌ c s) h = elim (Bool-cases (code c == sep)) [
  | inl e ↦ ((String.[], s), rw e)
  | inr e ↦
      let (p, q) = split_once-has_code sep s (rw e at h) in ((String.◌∷◌ c p.0, p.1), rw (e, q))
]
