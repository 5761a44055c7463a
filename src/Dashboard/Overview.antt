-- ===== src/Dashboard/Overview.antt =====
-- The handlers of dashboard/server.py that report what other services say: status, metrics and
-- the policy data.
pub mod Keeps
use noumena_mcp_gateway_poc.Base.{String, ◌<>◌, Bool, none, List, [], ◌∷◌, ltb, if◌then◌else◌}
use noumena_mcp_gateway_poc.Base.Exec.{
  Exec, Result, ok, err, timeout_error, pure, lift, try_except, ◌>>=◌, ◌>>◌,
}
use noumena_mcp_gateway_poc.Base.Json.{
  Json, null, str, arr, obj, nil, Fields, end, field, insert, lookup, or_default, truthy, set_item,
}
use noumena_mcp_gateway_poc.Base.Text.{has_part}
use noumena_mcp_gateway_poc.Base.World.{Runtime, Method, Request, Response}
use noumena_mcp_gateway_poc.Dashboard.State.{
  Dash, Config, Reply, send, now, send_json, send_error_json, format, raise_for_status,
  get_gateway_token,
}
use noumena_mcp_gateway_poc.Dashboard.Store.{npl_post_with, get_store_id}
use noumena_mcp_gateway_poc.Dashboard.Users.{header}
use noumena_mcp_gateway_poc.Dashboard.Backends.{erase}
use noumena_mcp_gateway_poc.Dashboard.Envoy.{parse_envoy_stats}

-- `requests.get(url)`
unfoldable pub plain_get : String → Request
plain_get url = record { method = Method.get; url = url; bearer = none; extra = []; payload = none }

module _ (R : Runtime) (cfg : Config) where
  -- `healthy`, `unhealthy` or `unreachable`
  unfoldable pub verdict : Result Response → String
  verdict (ok r) = if ltb r.status_code 400 then "healthy" else "unhealthy"
  verdict (err e) = "unreachable"

  unfoldable pub check : String → Dash R → String × Dash R
  check url d = let (r, d') = send (plain_get url) d in (verdict r, d')

  unfoldable pub check_all : List (String × String) → Fields → Dash R → Fields × Dash R
  check_all [] status d = (status, d)
  check_all ((name, url) ∷ rest) status d =
      let (word, d') = check url d in check_all rest (insert name (str word) status) d'

  -- The services, Keycloak the last.
  unfoldable pub checks : List (String × String)
  checks =
      ("npl_engine", cfg.npl_url <> "/actuator/health")
      ∷ ("gateway", cfg.gateway_url <> "/health")
      ∷ ("opa", cfg.opa_url <> "/health")
      ∷ ("bundle_server", cfg.bundle_server_url <> "/health")
      ∷ ("keycloak", cfg.keycloak_url <> "/realms/" <> cfg.keycloak_realm)
      ∷ []

  status_reply : Fields × Dash R → Result Reply × Dash R
  status_reply (status, d) = (ok (send_json (obj status) 200), d)

  unfoldable pub handle_status : Exec (Dash R) Reply
  unfolding status_reply
  handle_status = do
    t ← now
    (λ d. status_reply (check_all checks (field "timestamp" (str (R.iso_stamp t)) end) d))

  unfoldable pub source_value : Response → Result Json
  source_value r =
      if has_part "text/plain" (header "content-type" r) then ok (str r.text) else r.json

  unfoldable pub error_value : Result Json → Json
  error_value (ok v) = v
  error_value (err e) = obj (field "error" (str (R.describe e)) end)

  unfoldable pub ask_source : String → Exec (Dash R) Json
  ask_source url = do resp ← send (plain_get url); lift (source_value resp)

  unfoldable pub fetch : String → Dash R → Json × Dash R
  unfolding ask_source
  fetch url d = let (r, d') = ask_source url d in (error_value r, d')

  unfoldable pub sources : List (String × String)
  sources =
      ("envoy_stats", cfg.envoy_admin_url <> "/stats?filter=http.mcp_gateway")
      ∷ ("envoy_clusters", cfg.envoy_admin_url <> "/clusters")
      ∷ ("opa", cfg.opa_url <> "/health")
      ∷ ("bundle_server", cfg.bundle_server_url <> "/health")
      ∷ ("aigw", cfg.aigw_admin_url <> "/healthz")
      ∷ ("npl_engine", cfg.npl_url <> "/actuator/health")
      ∷ []

  unfoldable pub fetch_all : List (String × String) → Fields → Dash R → Fields × Dash R
  fetch_all [] results d = (results, d)
  fetch_all ((name, url) ∷ rest) results d =
      let (v, d') = fetch url d in fetch_all rest (insert name v results) d'

  -- `results.pop(k, "")`
  popped : String → Fields → Json
  unfolding lookup
  popped k results = or_default (lookup k results) (str "")

  -- The answer, with Envoy's two sources parsed into one entry.
  unfoldable pub metrics_reply : Fields × Dash R → Result Reply × Dash R
  unfolding popped
  metrics_reply (results, d) =
      let envoy =
        parse_envoy_stats R (popped "envoy_stats" results) (popped "envoy_clusters" results) in
      let others = erase "envoy_clusters" (erase "envoy_stats" results) in
      (ok (send_json (obj (insert "envoy" envoy others)) 200), d)

  -- The sources are asked by a pool of threads: `completed` are those of `sources` that were
  -- done within five seconds, in the order in which they were. If one was not, the exception that
  -- says so ends the handler.
  unfoldable pub handle_metrics : List (String × String) → Bool → Exec (Dash R) Reply
  handle_metrics completed all_done d =
      let (results, d') = fetch_all completed end d in
      if all_done then metrics_reply (results, d') else (err timeout_error, d')

  -- NPL's policy data, with the store's id.
  unfoldable pub bundle_of : Json → Exec (Dash R) Reply
  bundle_of sid =
      try_except
        (do
          token ← get_gateway_token R cfg
          resp ←
              npl_post_with R cfg token
                ("/npl/store/GatewayStore/" <> format R sid <> "/getBundleData") (obj end)
          raise_for_status resp
          body ← lift resp.json
          body' ← lift (set_item body "storeId" sid)
          pure (send_json body' 200))
        (λ e. pure (send_error_json 500 (R.describe e)))

  abbrev no_bundle : Json
  no_bundle = obj (
      field "catalog" (obj end) (
        field "accessRules" (arr nil)
          (field "revokedSubjects" (arr nil) (field "storeId" null end))))

  unfoldable pub handle_bundle : Exec (Dash R) Reply
  handle_bundle = do
    sid ← get_store_id R cfg
    if truthy sid then bundle_of sid else pure (send_json no_bundle 200)
