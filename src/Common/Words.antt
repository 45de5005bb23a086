-- ===== src/Common/Words.antt =====
-- Python's `str.split()` and `str.strip(chars)`, on the characters.
use Prim.Native.Nat.{ℕ}
use Prim.Native.Char.{code}
use Prim.Native.String.{String, ◌++◌}
use mathlib.Core.List.{List, [], ◌∷◌}
use glados_docker.Common.Tests.{if◌then◌else◌, ◌==◌}
use glados_docker.Common.Lists.{all_of, any_of}
use glados_docker.Common.Text.{codes, is_space}

abbrev add_word : String → List String → List String
add_word String.[] ws = ws
add_word w ws = w ∷ ws

-- The words of a text that goes on after the characters of a begun word.
unfoldable pub split_from : String → String → List String
unfolding is_space
split_from w String.[] = add_word w []
split_from w (String.◌∷◌ c s) =
    let after = split_from "" s in
    let inside = split_from (w ++ String.◌∷◌ c String.[]) s in
    if is_space (code c) then add_word w after else inside

-- `s.split()`
abbrev pub split_words : String → List String
split_words s = split_from "" s

-- `s.lstrip(chars)`
unfoldable pub lstrip_chars : List ℕ → String → String
lstrip_chars chars String.[] = String.[]
lstrip_chars chars (String.◌∷◌ c s) =
    if any_of (λ d. d == code c) chars then lstrip_chars chars s else String.◌∷◌ c s

-- `s.rstrip(chars)`
unfoldable pub rstrip_chars : List ℕ → String → String
rstrip_chars chars String.[] = String.[]
rstrip_chars chars (String.◌∷◌ c s) =
    if all_of (λ b. any_of (λ d. d == b) chars) (codes (String.◌∷◌ c s))
    then String.[]
    else String.◌∷◌ c (rstrip_chars chars s)

-- `s.strip(chars)`
unfoldable pub strip_chars : List ℕ → String → String
unfolding lstrip_chars rstrip_chars
strip_chars chars s = rstrip_chars chars (lstrip_chars chars s)

-- `separator.join(parts)`
unfoldable pub join_texts : String → List String → String
join_texts separator [] = ""
join_texts separator (s ∷ []) = s
join_texts separator (s ∷ t ∷ parts) = (s ++ separator) ++ join_texts separator (t ∷ parts)
