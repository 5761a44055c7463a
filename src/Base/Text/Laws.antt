-- ===== src/Base/Text/Laws.antt =====
-- Laws of splitting.
use Prim.Native.Char.{Char, code}
use Prim.Native.Nat.{ℕ}
use Prim.Native.String.{String, count, ◌++◌ as ◌<>◌}
use mathlib.Core.Path.{◌≡◌, refl, ◌∙◌}
use mathlib.Core.Logic.{◌≢◌}
use mathlib.Core.List.{List, [], ◌∷◌, ◌++◌}
use native.Mathlib.Omega.{arith}
use text.Mathlib.TextLemmas.{nil-append, cons-append, length-cons}
use noumena_mcp_gateway_poc.Base.Text.{split_from, split, drop_chars}

-- No character of the text is `sep`.
abbrev pub Lacks : ℕ → String → Type 0
Lacks sep String.[] = Unit
Lacks sep (String.◌∷◌ c s) = (code c ≢ sep) × Lacks sep s

split_from-append :
    (sep : ℕ) (s : String) (c : Char) (rest : String)
    → Lacks sep s
    → code c ≡ sep
    → split_from sep (s <> String.◌∷◌ c rest) ≡ (s, split sep rest)
unfolding split_from split
split_from-append sep String.[] c rest h e = rw nil-append (ground (arith, e))
split_from-append sep (String.◌∷◌ b s) c rest (n, h) e =
    rw (cons-append, split_from-append sep s c rest h e) (ground (arith, n))

-- The first piece ends at the first separator.
pub split-append :
    (sep : ℕ) (s : String) (c : Char) (rest : String)
    → Lacks sep s
    → code c ≡ sep
    → split sep (s <> String.◌∷◌ c rest) ≡ s ∷ split sep rest
split-append sep s c rest h e =
    unfold split in rw (split_from-append sep s c rest h e) (unfold split in refl)

-- Every line with its end.
unfoldable pub unlines : List String → String
unlines [] = ""
unlines (l ∷ ls) = l <> String.◌∷◌ "\n" (unlines ls)

abbrev pub AllLack : ℕ → List String → Type 0
AllLack sep [] = Unit
AllLack sep (s ∷ ss) = Lacks sep s × AllLack sep ss

pub split-unlines : (ls : List String) → AllLack 10 ls → split 10 (unlines ls) ≡ ls ++ "" ∷ []
unfolding unlines
split-unlines [] h = unfold split split_from in refl
split-unlines (l ∷ ls) (n, h) = split-append 10 l "\n" (unlines ls) n refl ∙ rw (split-unlines ls h)

pub drop_chars-append : (s t : String) → drop_chars (count s) (s <> t) ≡ t
unfolding drop_chars
drop_chars-append String.[] t = rw nil-append
drop_chars-append (String.◌∷◌ c s) t = rw (length-cons, cons-append) (drop_chars-append s t)
