-- ===== src/Dashboard/Catalog.antt =====
-- The handlers of dashboard/server.py for services, tools, access rules and revocations. A
-- handler that raises ends the connection with no answer.
pub mod Answers
pub mod Keeps
use noumena_mcp_gateway_poc.Base.{String, ◌<>◌, true, ltb, if◌then◌else◌}
use noumena_mcp_gateway_poc.Base.Exec.{Exec, Result, ok, err, pure, lift, ◌>>=◌, ◌>>◌}
use noumena_mcp_gateway_poc.Base.Json.{
  Json, bool, str, arr, obj, nil, cons, Fields, end, field, get, item,
}
use noumena_mcp_gateway_poc.Base.World.{Runtime, Response}
use noumena_mcp_gateway_poc.Dashboard.State.{
  Dash, Config, Reply, send_json, send_error_json, acknowledge, format,
}
use noumena_mcp_gateway_poc.Dashboard.Store.{npl_post, ensure_store_id}

module _ (R : Runtime) (cfg : Config) where
  -- `self.npl_post(f"/npl/store/GatewayStore/{sid}/…", {…})`
  unfoldable pub store_post : Json → String → Fields → Exec (Dash R) Response
  store_post sid operation payload =
      npl_post R cfg ("/npl/store/GatewayStore/" <> format R sid <> "/" <> operation) (obj payload)

  -- A dict of one entry of the body.
  unfoldable pub one_field : Json → String → Exec (Dash R) Fields
  one_field body key = do value ← lift (item body key); pure (field key value end)

  -- The answer to a registration; a new service is enabled at once.
  registered : Json → Json → Response → Exec (Dash R) Reply
  registered body sid resp =
      if ltb resp.status_code 400
      then (do
        payload ← one_field body "serviceName"
        store_post sid "enableService" payload
        pure (send_json (obj (field "ok" (bool true) end)) 200))
      else pure (send_error_json resp.status_code resp.text)

  unfoldable pub handle_register_service : Json → Exec (Dash R) Reply
  unfolding registered
  handle_register_service body = do
    sid ← ensure_store_id R cfg
    payload ← one_field body "serviceName"
    resp ← store_post sid "registerService" payload
    registered body sid resp

  -- The shape of the handlers with one entry.
  unfoldable pub store_operation : String → String → Json → Exec (Dash R) Reply
  store_operation operation key body = do
    sid ← ensure_store_id R cfg
    payload ← one_field body key
    resp ← store_post sid operation payload
    pure (acknowledge resp)

  unfoldable pub handle_enable_service : Json → Exec (Dash R) Reply
  unfolding store_operation
  handle_enable_service = store_operation "enableService" "serviceName"

  unfoldable pub handle_disable_service : Json → Exec (Dash R) Reply
  unfolding store_operation
  handle_disable_service = store_operation "disableService" "serviceName"

  unfoldable pub handle_remove_service : Json → Exec (Dash R) Reply
  unfolding store_operation
  handle_remove_service = store_operation "removeService" "serviceName"

  -- The shape of the two handlers for tools.
  unfoldable pub tool_operation : String → Json → Exec (Dash R) Reply
  tool_operation operation body = do
    sid ← ensure_store_id R cfg
    service ← lift (item body "serviceName")
    tool ← lift (item body "toolName")
    resp ← store_post sid operation (field "serviceName" service (field "toolName" tool end))
    pure (acknowledge resp)

  unfoldable pub handle_register_tool : Json → Exec (Dash R) Reply
  unfolding tool_operation
  handle_register_tool = tool_operation "registerTool"

  unfoldable pub handle_remove_tool : Json → Exec (Dash R) Reply
  unfolding tool_operation
  handle_remove_tool = tool_operation "removeTool"

  unfoldable pub handle_add_access_rule : Json → Exec (Dash R) Reply
  handle_add_access_rule body = do
    sid ← ensure_store_id R cfg
    id ← lift (item body "id")
    match_type ← lift (item body "matchType")
    claims ← lift (get body "matchClaims" (obj end))
    identity ← lift (get body "matchIdentity" (str ""))
    services ← lift (get body "allowServices" (arr nil))
    tools ← lift (get body "allowTools" (arr (cons (str "*") nil)))
    resp ← store_post sid "addAccessRule" (
        field "id" id (
          field "matchType" match_type (
            field "matchClaims" claims (
              field "matchIdentity" identity
                (field "allowServices" services (field "allowTools" tools end))))))
    pure (acknowledge resp)

  unfoldable pub handle_remove_access_rule : Json → Exec (Dash R) Reply
  unfolding store_operation
  handle_remove_access_rule = store_operation "removeAccessRule" "id"

  unfoldable pub handle_revoke_subject : Json → Exec (Dash R) Reply
  unfolding store_operation
  handle_revoke_subject = store_operation "revokeSubject" "subjectId"

  unfoldable pub handle_reinstate_subject : Json → Exec (Dash R) Reply
  unfolding store_operation
  handle_reinstate_subject = store_operation "reinstateSubject" "subjectId"
