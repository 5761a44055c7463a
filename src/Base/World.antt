-- ===== src/Base/World.antt =====
-- What the servers use and do not implement: the clock, the HTTP client, JSON text, SHA-256,
-- tar archives. It is a parameter of every definition that uses it.
use Prim.Native.Nat.{ℕ}
use Prim.Native.String.{String}
use mathlib.Core.List.{List}
use mathlib.Core.Option.{Option}
use noumena_mcp_gateway_poc.Base.Exec.{Exception, Result}
use noumena_mcp_gateway_poc.Base.Json.{Json, Fields}

pub data Method : Type 0 where
  get post put delete : Method

-- The arguments of a call of `requests`; its timeout is the client's own affair. `bearer` is the
-- token of the header `Authorization: Bearer …`, `extra` holds the other headers that are no
-- `Content-Type`, and `payload` the `json=` or `data=` argument.
pub record Request : Type 0 where
  pub method : Method
  pub url : String
  pub bearer : Option Json
  pub extra : List (String × String)
  pub payload : Option Json

-- `json` is what `resp.json()` gives or raises. The names of the headers, which `requests` finds in
-- any case, are in small letters.
pub record Response : Type 0 where
  pub status_code : ℕ
  pub text : String
  pub headers : List (String × String)
  pub json : Result Json

pub record Runtime : Type 1 where
  pub World : Type 0
  pub Bytes : Type 0
  -- `time.time()`, in microseconds since the epoch
  pub time : World → ℕ × World
  -- `strftime("%Y-%m-%dT%H:%M:%SZ")` of such a time
  pub utc_stamp : ℕ → String
  -- `isoformat()` of such a time
  pub iso_stamp : ℕ → String
  -- `int` of a text, where it gives a natural number
  pub int_of : String → Option ℕ
  -- a call of `requests`: it raises, or gives a response of any status
  pub send : Request → World → Result Response × World
  -- `json.dumps` with compact separators and sorted keys
  pub dumps_sorted : Json → String
  -- `json.dumps` with compact separators
  pub dumps : Json → String
  -- `json.dumps` with its own separators
  pub dumps_spaced : Json → String
  -- `json.loads`
  pub loads : String → Result Json
  -- the URL that `requests` makes of a URL and its `params=` argument
  pub with_params : String → Fields → String
  -- `str(x)` of a value that is no text
  pub repr : Json → String
  -- `hashlib.sha256(text.encode("utf-8")).hexdigest()`
  pub sha256_hex : String → String
  -- a `tar.gz` of named texts; the format records the time
  pub tar_gz : List (String × String) → World → Bytes × World
  -- `len` of bytes
  pub byte_length : Bytes → ℕ
  -- `secrets.token_urlsafe(32)`
  pub token_urlsafe : World → String × World
  -- `base64.b64decode` followed by `json.loads`
  pub decode_base64_json : String → Result Json
  -- `str(e)` of an exception
  pub describe : Exception → String
