-- ===== src/Dashboard/Session.antt =====
-- The sessions of dashboard/server.py: `create_session`, `validate_session`, the logout.
pub mod Lifetime
use noumena_mcp_gateway_poc.Base.{ℕ, ◌+◌, ◌*◌, String, Option, none, some, ltb, if◌then◌else◌}
use noumena_mcp_gateway_poc.Base.Json.{Json, null}
use noumena_mcp_gateway_poc.Base.Dict
use noumena_mcp_gateway_poc.Base.Dict.{Dict}

pub record Session : Type 0 where
  pub username : Json
  pub expires : ℕ

abbrev pub Sessions : Type 0
Sessions = Dict Session

-- An hour, in microseconds.
abbrev pub session_ttl : ℕ
session_ttl = 3600 * 1000000

-- The token and the clock's reading are given.
unfoldable pub create_session : String → Json → ℕ → Sessions → Sessions
create_session token username now sessions =
    Dict.insert token (record { username = username; expires = now + session_ttl }) sessions

abbrev validated : String → ℕ → Option Session → Sessions → Json × Sessions
validated token now none sessions = (null, sessions)
validated token now (some session) sessions =
    if ltb session.expires now
    then (null, Dict.erase token sessions)
    else (session.username, sessions)

-- The user of a token, `null` for `None`, and the sessions without it if it has expired.
unfoldable pub validate_session : String → ℕ → Sessions → Json × Sessions
validate_session token now sessions = validated token now (Dict.lookup token sessions) sessions

-- `del _sessions[token]` if it is there.
unfoldable pub end_session : String → Sessions → Sessions
end_session token sessions = Dict.erase token sessions
