-- ===== src/Base/Json/Laws.antt =====
-- Laws of dicts.
use mathlib.Core.Path.{◌≡◌, refl, ap}
use mathlib.Core.Option.{none, some}
use Prim.Native.String.{String}
use mathlib.Core.Logic.{◌↔◌}
use mathlib.Core.Bool.{true}
use native.Mathlib.Omega.{arith}
use text.Mathlib.Text.{◌==◌}
use text.Mathlib.TextEquality.{eq_iff}
use noumena_mcp_gateway_poc.Base.Tests.{if◌then◌else◌}
use noumena_mcp_gateway_poc.Base.Json.{
  is_text, str, Json, Items, nil, cons, append, Fields, end, field, lookup, insert,
}

pub lookup-insert :
    (k j : String) (v : Json) (d : Fields)
    → lookup j (insert k v d) ≡ (if k == j then some v else lookup j d)
unfolding lookup insert
lookup-insert k j v end = refl
lookup-insert k j v (field i w d) =
    ground (arith, eq_iff k j, eq_iff i k, eq_iff i j, lookup-insert k j v d)

-- Each key of a dict stands in it once.
abbrev pub NodupKeys : Fields → Type 0
NodupKeys end = Unit
NodupKeys (field k _ d) = (lookup k d ≡ none) × NodupKeys d

-- `xs + ys`
unfoldable pub concat : Items → Items → Items
concat nil ys = ys
concat (cons x xs) ys = cons x (concat xs ys)

pub concat-nil : (xs : Items) → concat xs nil ≡ xs
unfolding concat
concat-nil nil = refl
concat-nil (cons x xs) = ap (cons x) (concat-nil xs)

pub concat-append :
    (xs : Items) (x : Json) (ys : Items) → concat (append xs x) ys ≡ concat xs (cons x ys)
unfolding concat append
concat-append nil x ys = refl
concat-append (cons y xs) x ys = ap (cons y) (concat-append xs x ys)

-- Two lists of one length, related place by place.
abbrev pub Items2 : (Json → Json → Type 0) → Items → Items → Type 0
Items2 P nil nil = Unit
Items2 P nil (cons _ _) = ⊥
Items2 P (cons _ _) nil = ⊥
Items2 P (cons x xs) (cons y ys) = P x y × Items2 P xs ys

abbrev pub AllItems : (Json → Type 0) → Items → Type 0
AllItems P nil = Unit
AllItems P (cons x xs) = P x × AllItems P xs

pub is_text_iff : (x : Json) (s : String) → (is_text x s ≡ true) ↔ (x ≡ str s)
unfolding is_text
is_text_iff (str t) s = ground (arith, eq_iff t s)
is_text_iff _ s = ground arith
