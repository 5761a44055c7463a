-- ===== src/Base/Json.antt =====
-- Values that `json.loads` gives and `json.dumps` takes, with the Python operations that the
-- servers use on them. A `dict` is a list of entries in insertion order.
pub mod Laws
use Prim.Native.Nat.{ℕ, zero, suc, ◌+◌}
use Prim.Native.String.{String}
use mathlib.Core.Bool.{Bool, true, false, not}
use mathlib.Core.Option.{Option, none, some}
use text.Mathlib.Text.{◌==◌}
use noumena_mcp_gateway_poc.Base.Tests.{if◌then◌else◌, eqb}
use noumena_mcp_gateway_poc.Base.Exec.{
  Exception, attribute_error, type_error, key_error, index_error,
}
use noumena_mcp_gateway_poc.Base.Exec.{Result, ok, err}

mutual
  pub data Json : Type 0 where
    null : Json
    bool : Bool → Json
    num : ℕ → Json
    str : String → Json
    arr : Items → Json
    obj : Fields → Json

  pub data Items : Type 0 where
    nil : Items
    cons : Json → Items → Items

  pub data Fields : Type 0 where
    end : Fields
    field : String → Json → Fields → Fields

-- `d.get(k)` on a dict.
unfoldable pub lookup : String → Fields → Option Json
lookup k end = none
lookup k (field j v d) = if j == k then some v else lookup k d

-- `d[k] = v`: an old key keeps its place.
unfoldable pub insert : String → Json → Fields → Fields
insert k v end = field k v end
insert k v (field j w d) = if j == k then field j v d else field j w (insert k v d)

-- `len(d)`
unfoldable pub size : Fields → ℕ
size end = 0
size (field _ _ d) = suc (size d)

-- `xs.append(x)`
unfoldable pub append : Items → Json → Items
append nil x = cons x nil
append (cons y ys) x = cons y (append ys x)

-- `len(xs)`
unfoldable pub count : Items → ℕ
count nil = 0
count (cons _ xs) = suc (count xs)

abbrev pub or_default : Option Json → Json → Json
or_default none d = d
or_default (some v) d = v

-- `x.get(k, default)`: an `AttributeError` if `x` is no dict.
unfoldable pub get : Json → String → Json → Result Json
unfolding lookup
get (obj d) k default = ok (or_default (lookup k d) default)
get _ k default = err attribute_error

abbrev or_key_error : Option Json → Result Json
or_key_error none = err key_error
or_key_error (some v) = ok v

-- `x[k]` with a text for `k`.
unfoldable pub item : Json → String → Result Json
unfolding lookup
item (obj d) k = or_key_error (lookup k d)
item _ k = err type_error

-- `x[0]`
unfoldable pub first : Json → Result Json
first (arr nil) = err index_error
first (arr (cons x _)) = ok x
first (str String.[]) = err index_error
first (str (String.◌∷◌ c s)) = ok (str (String.◌∷◌ c String.[]))
first (obj _) = err key_error
first _ = err type_error

-- The truth value of `if x`.
unfoldable pub truthy : Json → Bool
truthy null = false
truthy (bool b) = b
truthy (num n) = not (eqb n 0)
truthy (str s) = not (s == "")
truthy (arr nil) = false
truthy (arr (cons _ _)) = true
truthy (obj end) = false
truthy (obj (field _ _ _)) = true

-- `x == s` for a text `s`.
unfoldable pub is_text : Json → String → Bool
is_text (str t) s = t == s
is_text _ s = false

keys_of : Fields → Items
keys_of end = nil
keys_of (field k _ d) = cons (str k) (keys_of d)

chars_of : String → Items
chars_of String.[] = nil
chars_of (String.◌∷◌ c s) = cons (str (String.◌∷◌ c String.[])) (chars_of s)

-- `for x in xs`, `list(xs)`: a dict gives its keys, a text its characters.
unfoldable pub iterate : Json → Result Items
unfolding keys_of chars_of
iterate (arr xs) = ok xs
iterate (obj d) = ok (keys_of d)
iterate (str s) = ok (chars_of s)
iterate _ = err type_error

-- `x.items()`
unfoldable pub entries : Json → Result Fields
entries (obj d) = ok d
entries _ = err attribute_error

-- A value in arithmetic.
unfoldable pub number : Json → Result ℕ
number (num n) = ok n
number (bool b) = ok (if b then 1 else 0)
number _ = err type_error

-- A value as a dict key.
unfoldable pub key_text : Json → Result String
key_text (str s) = ok s
key_text _ = err type_error

-- `x[k] = v` with a text for `k`.
unfoldable pub set_item : Json → String → Json → Result Json
unfolding insert
set_item (obj d) k v = ok (obj (insert k v d))
set_item _ k v = err type_error

-- `d.get(k)` with any value for `k`, which a list or a dict cannot be: `none` if it is not there.
unfoldable pub find_value : Json → Fields → Result (Option Json)
unfolding lookup
find_value (str k) d = ok (lookup k d)
find_value (arr _) d = err type_error
find_value (obj _) d = err type_error
find_value _ d = ok none
