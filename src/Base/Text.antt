-- ===== src/Base/Text.antt =====
-- Python's operations on texts that the servers use.
pub mod Laws
use Prim.Native.Char.{Char, code}
use Prim.Native.String
use noumena_mcp_gateway_poc.Base.Tests.{ltb, leb, eqb, if◌then◌else◌}
use Prim.Native.Nat.{ℕ, zero, suc}
use Prim.Native.String.{String, ◌++◌ as ◌<>◌}
use mathlib.Core.Bool.{Bool, true, false, not, ◌&&◌, ◌||◌}
use mathlib.Core.List.{List, [], ◌∷◌}
use text.Mathlib.Text.{◌==◌, starts_with}

-- `s.split(c)`: the first piece, and those behind it.
unfoldable pub split_from : ℕ → String → String × List String
split_from sep String.[] = ("", [])
split_from sep (String.◌∷◌ c s) =
    let (piece, rest) = split_from sep s in
    if eqb (code c) sep then ("", piece ∷ rest) else (String.◌∷◌ c piece, rest)

unfoldable pub split : ℕ → String → List String
split sep s = let (piece, rest) = split_from sep s in piece ∷ rest

-- `s[n:]`
unfoldable pub drop_chars : ℕ → String → String
drop_chars zero s = s
drop_chars (suc n) String.[] = String.[]
drop_chars (suc n) (String.◌∷◌ c s) = drop_chars n s

-- `part in s`
unfoldable pub has_part : String → String → Bool
has_part part String.[] = part == ""
has_part part (String.◌∷◌ c s) = starts_with (String.◌∷◌ c s) part || has_part part s

-- `s.removesuffix(suffix)`
unfoldable pub remove_suffix : String → String → String
remove_suffix suffix String.[] = String.[]
remove_suffix suffix (String.◌∷◌ c s) =
    if String.◌∷◌ c s == suffix then "" else String.◌∷◌ c (remove_suffix suffix s)

-- `s.endswith(suffix)` of a suffix that is not empty.
unfoldable pub ends_with : String → String → Bool
ends_with s suffix = not (remove_suffix suffix s == s)

-- `s.lstrip("/")`
unfoldable pub strip_slashes : String → String
strip_slashes String.[] = String.[]
strip_slashes (String.◌∷◌ c s) =
    let rest = strip_slashes s in if eqb (code c) 47 then rest else String.◌∷◌ c s

-- `c.isspace()`, by the code point.
unfoldable pub is_space : ℕ → Bool
is_space c =
    (leb 9 c && leb c 13)
    || (leb 28 c && leb c 32)
    || eqb c 133
    || eqb c 160
    || eqb c 5760
    || (leb 8192 c && leb c 8202)
    || eqb c 8232
    || eqb c 8233
    || eqb c 8239
    || eqb c 8287
    || eqb c 12288

-- `s.lstrip()`
unfoldable pub strip_left : String → String
unfolding is_space
strip_left String.[] = String.[]
strip_left (String.◌∷◌ c s) = if is_space (code c) then strip_left s else String.◌∷◌ c s

-- Whether a text is white space to its end.
unfoldable pub all_space : String → Bool
unfolding is_space
all_space String.[] = true
all_space (String.◌∷◌ c s) = is_space (code c) && all_space s

-- `s.rstrip()`
unfoldable pub strip_right : String → String
unfolding all_space
strip_right String.[] = String.[]
strip_right (String.◌∷◌ c s) =
    if all_space (String.◌∷◌ c s) then "" else String.◌∷◌ c (strip_right s)

-- `s.strip()`
unfoldable pub strip : String → String
unfolding strip_left strip_right
strip s = strip_right (strip_left s)

-- Where `str.splitlines` ends a line, beside the pair of `\r` and `\n`.
unfoldable pub is_line_end : ℕ → Bool
is_line_end c =
    (leb 10 c && leb c 13) || (leb 28 c && leb c 30) || eqb c 133 || eqb c 8232 || eqb c 8233

starts_newline : String → Bool
starts_newline String.[] = false
starts_newline (String.◌∷◌ c s) = eqb (code c) 10

-- The first line, and the lines behind it; none for the empty text. The `\n` of a pair ends no
-- line of its own.
unfoldable pub split_lines : String → List String
unfolding is_line_end starts_newline
split_lines String.[] = []
split_lines (String.◌∷◌ c s) =
    let rest = split_lines s in
    if is_line_end (code c)
    then (if eqb (code c) 13 && starts_newline s then rest else "" ∷ rest)
    else elim rest [ [] ↦ String.◌∷◌ c "" ∷ [] | l ∷ ls ↦ String.◌∷◌ c l ∷ ls ]
