-- ===== src/Dashboard/State.antt =====
-- The module state of dashboard/server.py, its cached Keycloak tokens, and its replies.
pub mod Keeps
use noumena_mcp_gateway_poc.Base.{
  ℕ, ◌+◌, ◌-◌, ◌*◌, String, ◌<>◌, Option, none, some, [], ◌&&◌, ltb, leb, if◌then◌else◌,
}
use noumena_mcp_gateway_poc.Base.Exec.{Exec, Result, ok, pure, raise, lift, http_error, ◌>>=◌, ◌>>◌}
use noumena_mcp_gateway_poc.Base.Json.{
  Json, bool, num, str, obj, end, field, get, item, truthy, number,
}
use noumena_mcp_gateway_poc.Base.World.{Runtime, Method, Request, Response}
use noumena_mcp_gateway_poc.Dashboard.Session.{Sessions}

pub record Config : Type 0 where
  pub npl_url : String
  pub keycloak_url : String
  pub keycloak_realm : String
  pub admin_username : String
  pub admin_password : String
  pub gateway_url : String
  pub opa_url : String
  pub bundle_server_url : String
  pub envoy_admin_url : String
  pub aigw_admin_url : String
  pub docker_network : String
  pub aigw_container_name : String

abbrev pub second : ℕ
second = 1000000

-- A token and its time of expiry; `null` for `None`.
pub record TokenCache : Type 0 where
  pub token : Json
  pub expires : ℕ

-- The module's variables and the world. `store_id` is `null` for `None`.
pub record Dash (R : Runtime) : Type 0 where
  pub sessions : Sessions
  pub admin : TokenCache
  pub gateway : TokenCache
  pub store_id : Json
  pub world : R.World

-- An answer with a JSON body.
pub record Reply : Type 0 where
  pub status : ℕ
  pub cookie : Option String
  pub body : Json

unfoldable pub send_json : Json → ℕ → Reply
send_json body status = record { status = status; cookie = none; body = body }

unfoldable pub send_error_json : ℕ → String → Reply
unfolding send_json
send_error_json status message = send_json (obj (field "error" (str message) end)) status

-- `self.send_json({"ok": resp.status_code < 400}, resp.status_code if … >= 400 else 200)`
unfoldable pub acknowledge : Response → Reply
unfolding send_json
acknowledge resp =
    send_json (obj (field "ok" (bool (ltb resp.status_code 400)) end))
      (if leb 400 resp.status_code then resp.status_code else 200)

-- An f-string's `{x}`.
unfoldable pub format : Runtime → Json → String
format R (str s) = s
format R x = R.repr x

module _ {R : Runtime} where
  abbrev replied : Dash R → Result Response × R.World → Result Response × Dash R
  replied d (r, w) = (r, record d { world = w })

  unfoldable pub send : Request → Exec (Dash R) Response
  send q d = replied d (R.send q d.world)

  abbrev clocked : Dash R → ℕ × R.World → Result ℕ × Dash R
  clocked d (t, w) = (ok t, record d { world = w })

  -- `time.time()`
  unfoldable pub now : Exec (Dash R) ℕ
  now d = clocked d (R.time d.world)

  unfoldable pub raise_for_status : Response → Exec (Dash R) (Unit {0})
  raise_for_status r =
      if leb 400 r.status_code && ltb r.status_code 600 then raise http_error else pure tt

module _ (R : Runtime) (cfg : Config) where
  -- The password grant of the realm's client `mcpgateway`.
  unfoldable pub password_grant : Json → Json → Request
  password_grant username password = record {
    method = Method.post;
    url = cfg.keycloak_url <> "/realms/" <> cfg.keycloak_realm <> "/protocol/openid-connect/token";
    bearer = none;
    extra = [];
    payload = some (
        obj (
          field "grant_type" (str "password") (
            field "client_id" (str "mcpgateway")
              (field "username" username (field "password" password end)))));
  }

  set_admin_token : Json → Exec (Dash R) (Unit {0})
  set_admin_token t d = (ok tt, record d { admin = record d.admin { token = t } })

  set_admin_expires : ℕ → Exec (Dash R) (Unit {0})
  set_admin_expires t d = (ok tt, record d { admin = record d.admin { expires = t } })

  set_gateway_token : Json → Exec (Dash R) (Unit {0})
  set_gateway_token t d = (ok tt, record d { gateway = record d.gateway { token = t } })

  set_gateway_expires : ℕ → Exec (Dash R) (Unit {0})
  set_gateway_expires t d = (ok tt, record d { gateway = record d.gateway { expires = t } })

  -- The token is kept before the lifetime is looked at.
  renew_admin_token : Exec (Dash R) Json
  unfolding password_grant send raise_for_status set_admin_token set_admin_expires now
  renew_admin_token = do
    resp ← send (password_grant (str cfg.admin_username) (str cfg.admin_password))
    raise_for_status resp
    body ← lift resp.json
    token ← lift (item body "access_token")
    set_admin_token token
    t ← now
    expires_in ← lift (get body "expires_in" (num 300))
    seconds ← lift (number expires_in)
    set_admin_expires (t + seconds * second)
    pure token

  admin_at : ℕ → Exec (Dash R) Json
  unfolding renew_admin_token
  admin_at t d =
      if ltb t (d.admin.expires - 30 * second) then (ok d.admin.token, d) else renew_admin_token d

  -- The clock is read only if there is a token. The lock makes the call atomic.
  unfoldable pub get_admin_token : Exec (Dash R) Json
  unfolding admin_at now truthy
  get_admin_token d = if truthy d.admin.token then (now >>= admin_at) d else renew_admin_token d

  renew_gateway_token : Exec (Dash R) Json
  unfolding password_grant send raise_for_status set_gateway_token set_gateway_expires now
  renew_gateway_token = do
    resp ← send (password_grant (str "gateway") (str cfg.admin_password))
    raise_for_status resp
    body ← lift resp.json
    token ← lift (item body "access_token")
    set_gateway_token token
    t ← now
    expires_in ← lift (get body "expires_in" (num 300))
    seconds ← lift (number expires_in)
    set_gateway_expires (t + seconds * second)
    pure token

  gateway_at : ℕ → Exec (Dash R) Json
  unfolding renew_gateway_token
  gateway_at t d =
      if ltb t (d.gateway.expires - 30 * second)
      then (ok d.gateway.token, d)
      else renew_gateway_token d

  unfoldable pub get_gateway_token : Exec (Dash R) Json
  unfolding gateway_at now truthy
  get_gateway_token d =
      if truthy d.gateway.token then (now >>= gateway_at) d else renew_gateway_token d
