-- ===== src/BundleServer/Client.antt =====
-- `TokenManager` and `auth_header` of bundle-server/server.py, and the calls of `requests`.
pub mod Caching
use noumena_mcp_gateway_poc.Base.{
  ℕ, ◌+◌, ◌-◌, ◌*◌, String, ◌<>◌, Bool, ◌&&◌, Option, none, some, List, [], ◌∷◌, ltb, leb,
  if◌then◌else◌,
}
use noumena_mcp_gateway_poc.Base.Exec.{
  Exec, Result, ok, err, pure, raise, lift, http_error, ◌>>=◌, ◌>>◌,
}
use noumena_mcp_gateway_poc.Base.Json.{
  Json, null, num, str, obj, end, field, get, item, truthy, number,
}
use noumena_mcp_gateway_poc.Base.World.{Runtime, Method, Request, Response}

-- The module's configuration constants.
pub record Config : Type 0 where
  pub npl_url : String
  pub keycloak_url : String
  pub keycloak_realm : String
  pub gateway_username : String
  pub gateway_password : String
  -- in seconds
  pub staleness_threshold : ℕ

-- Times are in microseconds.
abbrev pub second : ℕ
second = 1000000

module _ (R : Runtime) where
  -- The fields of the token manager, beside the world that its requests change. `token` is `null`
  -- for `None`.
  pub record Client : Type 0 where
    pub token : Json
    pub expires_at : ℕ
    pub world : R.World

module _ {R : Runtime} where
  abbrev reply : Client R → Result Response × R.World → Result Response × Client R
  reply c (r, w) = (r, record c { world = w })

  unfoldable pub send : Request → Exec (Client R) Response
  send q c = reply c (R.send q c.world)

  abbrev clock : Client R → ℕ × R.World → Result ℕ × Client R
  clock c (t, w) = (ok t, record c { world = w })

  unfoldable pub now : Exec (Client R) ℕ
  now c = clock c (R.time c.world)

  unfoldable pub raise_for_status : Response → Exec (Client R) (Unit {0})
  raise_for_status r =
      if leb 400 r.status_code && ltb r.status_code 600 then raise http_error else pure tt

  unfoldable pub set_token : Json → Exec (Client R) (Unit {0})
  set_token t c = (ok tt, record c { token = t })

  unfoldable pub set_expires_at : ℕ → Exec (Client R) (Unit {0})
  set_expires_at t c = (ok tt, record c { expires_at = t })

-- An f-string's `{x}`.
unfoldable pub format : Runtime → Json → String
format R (str s) = s
format R x = R.repr x

module _ (R : Runtime) (cfg : Config) where
  unfoldable pub token_request : Request
  token_request = record {
    method = Method.post;
    url = cfg.keycloak_url <> "/realms/" <> cfg.keycloak_realm <> "/protocol/openid-connect/token";
    bearer = none;
    extra = [];
    payload = some (
        obj (
          field "grant_type" (str "password") (
            field "client_id" (str "mcpgateway") (
              field "username" (str cfg.gateway_username)
                (field "password" (str cfg.gateway_password) end)))));
  }

  -- The new token is in place before `expires_in` is looked at.
  unfoldable pub refresh : Exec (Client R) (Unit {0})
  unfolding token_request send now raise_for_status set_token set_expires_at item get number
  refresh = do
    resp ← send token_request
    raise_for_status resp
    body ← lift resp.json
    token ← lift (item body "access_token")
    set_token token
    expires_in ← lift (get body "expires_in" (num 60))
    t ← now
    seconds ← lift (number expires_in)
    set_expires_at (t + seconds * second - 10 * second)

  -- The token as it is.
  unfoldable pub held : Exec (Client R) Json
  held c = (ok c.token, c)

  after_clock : ℕ → Exec (Client R) Json
  unfolding refresh held
  after_clock t c = if ltb t c.expires_at then (ok c.token, c) else (refresh >> held) c

  -- The clock is read only if there is a token. The lock makes the call atomic.
  unfoldable pub get_token : Exec (Client R) Json
  unfolding after_clock now truthy
  get_token c = if truthy c.token then (now >>= after_clock) c else (refresh >> held) c
