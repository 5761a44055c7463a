-- ===== src/Dashboard/Store.antt =====
-- `get_store_id`, `ensure_store_id` and `npl_post` of dashboard/server.py.
pub mod Discovery
pub mod Keeps
use noumena_mcp_gateway_poc.Base.{String, ◌<>◌, none, some, [], if◌then◌else◌}
use noumena_mcp_gateway_poc.Base.Exec.{Exec, Result, ok, err, pure, lift, try_except, ◌>>=◌, ◌>>◌}
use noumena_mcp_gateway_poc.Base.Json.{
  Json, null, arr, nil, obj, end, field, get, item, first, truthy,
}
use noumena_mcp_gateway_poc.Base.World.{Runtime, Method, Response}
use noumena_mcp_gateway_poc.Dashboard.State.{Dash, Config, send, raise_for_status, get_admin_token}

module _ (R : Runtime) (cfg : Config) where
  -- `requests.get(f"{NPL_URL}{path}")` with a token
  unfoldable pub npl_get_with : Json → String → Exec (Dash R) Response
  unfolding send
  npl_get_with token path = send (record {
    method = Method.get;
    url = cfg.npl_url <> path;
    bearer = some token;
    extra = [];
    payload = none;
  })

  -- `requests.post(f"{NPL_URL}{path}", json=body)` with a token
  unfoldable pub npl_post_with : Json → String → Json → Exec (Dash R) Response
  unfolding send
  npl_post_with token path body = send (record {
    method = Method.post;
    url = cfg.npl_url <> path;
    bearer = some token;
    extra = [];
    payload = some body;
  })

  -- The method `npl_post`; a falsy body is sent as an empty dict.
  unfoldable pub npl_post : String → Json → Exec (Dash R) Response
  unfolding truthy
  npl_post path body = do
    token ← get_admin_token R cfg
    npl_post_with token path (if truthy body then body else obj end)

  unfoldable pub set_store_id : Json → Exec (Dash R) Json
  set_store_id id d = (ok id, record d { store_id = id })

  -- `if items: _store_id = items[0]["@id"]`
  found_store : Json → Exec (Dash R) Json
  unfolding truthy first item set_store_id
  found_store items =
      if truthy items
      then (do store ← lift (first items); id ← lift (item store "@id"); set_store_id id)
      else pure null

  discover_store : Exec (Dash R) Json
  unfolding found_store get raise_for_status
  discover_store = do
    token ← get_admin_token R cfg
    resp ← npl_get_with token "/npl/store/GatewayStore/"
    raise_for_status resp
    body ← lift resp.json
    items ← lift (get body "items" (arr nil))
    found_store items

  -- It never raises: `null` if the store is not found.
  unfoldable pub get_store_id : Exec (Dash R) Json
  unfolding discover_store truthy
  get_store_id d =
      if truthy d.store_id then (ok d.store_id, d) else try_except discover_store (λ e. pure null) d

  unfoldable pub create_store : Exec (Dash R) Json
  unfolding raise_for_status item set_store_id
  create_store = do
    token ← get_admin_token R cfg
    resp ← npl_post_with token "/npl/store/GatewayStore/" (obj (field "@parties" (obj end) end))
    raise_for_status resp
    body ← lift resp.json
    id ← lift (item body "@id")
    set_store_id id

  unfoldable pub ensure_store_id : Exec (Dash R) Json
  unfolding create_store truthy
  ensure_store_id = do sid ← get_store_id; if truthy sid then pure sid else create_store
