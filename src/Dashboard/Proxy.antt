-- ===== src/Dashboard/Proxy.antt =====
-- `handle_sse_proxy` of dashboard/server.py: NPL's event stream, written on to the browser.
pub mod Relay
pub mod Keeps
use noumena_mcp_gateway_poc.Base.{
  ℕ, zero, suc, String, ◌<>◌, Bool, true, false, Option, none, some, List, [], ◌∷◌, ◌++◌,
  starts_with, ◌==◌, if◌then◌else◌,
}
use noumena_mcp_gateway_poc.Base.Exec.{
  Exec, Exception, Result, ok, err, attribute_error, type_error, key_error, index_error,
  request_failed, http_error, decode_error, broken_pipe, pure, raise, ◌>>=◌, ◌>>◌,
}
use noumena_mcp_gateway_poc.Base.Text.{drop_chars, strip}
use noumena_mcp_gateway_poc.Base.World.{Runtime, Method, Response}
use noumena_mcp_gateway_poc.Dashboard.State.{Dash, Config, send, get_admin_token}

-- The connection to the browser: whether a head was sent, what was written behind it, and how
-- many more writes succeed before the browser is gone.
pub record Wire : Type 0 where
  pub started : Bool
  pub written : List String
  pub room : ℕ

-- `self.wfile.write(…)`
unfoldable pub write : String → Exec Wire (Unit {0})
write s w = elim w.room [
  | zero ↦ (err broken_pipe, w)
  | suc n ↦ (ok tt, record w { written = w.written ++ s ∷ []; room = n })
]

-- The head of a response with the status 200.
unfoldable pub begin : Exec Wire (Unit {0})
begin w = elim w.room [
  | zero ↦ (err broken_pipe, w)
  | suc n ↦ (ok tt, record w { started = true; room = n })
]

-- `l.split(":", 1)[1].strip()` of each line that starts with `data:`, whose first colon is that one.
unfoldable pub data_parts : List String → List String
data_parts [] = []
data_parts (l ∷ ls) =
    let rest = data_parts ls in
    if starts_with l "data:" then strip (drop_chars 5 l) ∷ rest else rest

unfoldable pub write_all : List String → Exec Wire (Unit {0})
write_all [] = pure tt
write_all (s ∷ ss) = write s >> write_all ss

abbrev pub data_lines : List String → List String
data_lines [] = []
data_lines (d ∷ ds) = ("data: " <> d <> "\n") ∷ data_lines ds

-- The texts written for an event: none if it has no data.
unfoldable pub message : List String → List String
message [] = []
message (d ∷ ds) = data_lines (d ∷ ds) ++ "\n" ∷ []

-- The loop over the lines, with the lines of the current event.
unfoldable pub relay : List (Option String) → List String → Exec Wire (Unit {0})
relay [] buf = pure tt
relay (none ∷ lines) buf = relay lines buf
relay (some line ∷ lines) buf = elim (line == "") [
  | true ↦ write_all (message (data_parts buf)) >> relay lines []
  | false ↦ relay lines (buf ++ line ∷ [])
]

-- What NPL sends: lines, and then the end of the stream or an exception.
pub record Upstream : Type 0 where
  pub lines : List (Option String)
  pub failure : Option Exception

abbrev end_of : Option Exception → Exec Wire (Unit {0})
end_of none = pure tt
end_of (some e) = raise e

-- `except (BrokenPipeError, ConnectionResetError, OSError)`: all that `requests` raises is an
-- `OSError`.
unfoldable pub is_os_error : Exception → Bool
is_os_error request_failed = true
is_os_error http_error = true
is_os_error decode_error = true
is_os_error broken_pipe = true
is_os_error _ = false

pub record Proxy (R : Runtime) : Type 0 where
  pub dash : Dash R
  pub wire : Wire

module _ (R : Runtime) (cfg : Config) where
  abbrev connected : Proxy R → Result Response × Dash R → Result Response × Proxy R
  connected p (r, d) = (r, record p { dash = d })

  -- The request for the stream; the status of the response is not looked at.
  unfoldable pub ask_stream : Exec (Dash R) Response
  ask_stream = do
    token ← get_admin_token R cfg
    send (record {
      method = Method.get;
      url = cfg.npl_url <> "/api/streams/states";
      bearer = some token;
      extra = ("Accept", "text/event-stream") ∷ [];
      payload = none;
    })

  unfoldable pub upstream : Exec (Proxy R) Response
  unfolding ask_stream
  upstream p = connected p (ask_stream p.dash)

  abbrev on_wire : Proxy R → Result (Unit {0}) × Wire → Result (Unit {0}) × Proxy R
  on_wire p (r, w) = (r, record p { wire = w })

  stream : Upstream → Exec (Proxy R) (Unit {0})
  stream u p = on_wire p ((begin >> relay u.lines [] >> end_of u.failure) p.wire)

  -- The answer to an exception of another kind, whose own exceptions are dropped.
  unfoldable pub report : Exception → Wire → Wire
  report e w = ((begin >> write ("data: {\"error\": \"" <> R.describe e <> "\"}\n\n")) w).1

  caught : Result (Unit {0}) × Proxy R → Proxy R
  caught (ok _, p) = p
  caught (err e, p) = if is_os_error e then p else record p { wire = report e p.wire }

  unfoldable pub handle_sse_proxy : Upstream → Proxy R → Proxy R
  unfolding stream caught
  handle_sse_proxy u p = caught ((upstream >>= λ _. stream u) p)
