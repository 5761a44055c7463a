-- ===== src/Dashboard/Tools.antt =====
-- The MCP handshake of dashboard/server.py, and the two handlers that answer with the tools of a
-- backend.
pub mod Framing
pub mod Keeps
use noumena_mcp_gateway_poc.Base.{
  ℕ, String, ◌<>◌, Option, none, some, List, [], ◌∷◌, starts_with, ◌==◌, if◌then◌else◌,
}
use noumena_mcp_gateway_poc.Base.Exec.{
  Exec, Exception, Result, ok, err, pure, lift, try_except, ◌>>=◌, ◌>>◌,
}
use noumena_mcp_gateway_poc.Base.Json.{
  Json, null, num, str, arr, obj, Items, nil, cons, Fields, end, field, get, item, truthy, iterate,
  append, entries,
}
use noumena_mcp_gateway_poc.Base.Text.{split, drop_chars, has_part, remove_suffix}
use noumena_mcp_gateway_poc.Base.World.{Runtime, Method, Request, Response}
use noumena_mcp_gateway_poc.Dashboard.State.{Dash, Reply, send, send_json, send_error_json, format}
use noumena_mcp_gateway_poc.Dashboard.Governance.{lookup_value}
use noumena_mcp_gateway_poc.Dashboard.Users.{header}
use noumena_mcp_gateway_poc.Dashboard.Backends.{File, read_mcp_config}

module _ (R : Runtime) where
  -- The first line `data: …` whose rest is JSON text; an empty dict if there is none.
  unfoldable pub first_data : List String → Json
  first_data [] = obj end
  first_data (line ∷ lines) =
      if starts_with line "data: "
      then elim (R.loads (drop_chars 6 line)) [ ok v ↦ v | err e ↦ first_data lines ]
      else first_data lines

  -- `_parse_mcp_response`
  unfoldable pub parse_mcp_response : Response → Result Json
  parse_mcp_response resp =
      if has_part "text/event-stream" (header "content-type" resp)
      then ok (first_data (split 10 resp.text))
      else resp.json

  abbrev accepts : List (String × String)
  accepts = ("Accept", "application/json, text/event-stream") ∷ []

  -- The headers of the later requests: with the session's id if the first response has one.
  unfoldable pub session_headers : String → List (String × String)
  session_headers id = if id == "" then accepts else ("Mcp-Session-Id", id) ∷ accepts

  unfoldable pub mcp_request : String → List (String × String) → Fields → Request
  mcp_request url headers payload = record {
    method = Method.post;
    url = url;
    bearer = none;
    extra = headers;
    payload = some (obj payload);
  }

  abbrev initialize_payload : Fields
  initialize_payload = field "jsonrpc" (str "2.0") (
      field "id" (num 1) (
        field "method" (str "initialize") (
          field "params"
            (obj (
              field "protocolVersion" (str "2025-03-26") (
                field "clientInfo"
                  (obj (field "name" (str "dashboard") (field "version" (str "1.0") end)))
                  (field "capabilities" (obj end) end))))
            end)))

  abbrev initialized_payload : Fields
  initialized_payload =
      field "jsonrpc" (str "2.0") (field "method" (str "notifications/initialized") end)

  abbrev list_payload : Fields
  list_payload =
      field "jsonrpc" (str "2.0")
        (field "id" (num 2) (field "method" (str "tools/list") (field "params" (obj end) end)))

  unfoldable pub tool_entry : Json → Result Json
  tool_entry t = elim (item t "name") [
    | err e ↦ err e
    | ok name ↦ elim (get t "description" (str "")) [
      | err e ↦ err e
      | ok description ↦ elim (get t "inputSchema" (obj end)) [
        | err e ↦ err e
        | ok schema ↦ ok (
            obj (
              field "name" name (field "description" description (field "inputSchema" schema end))))
      ]
    ]
  ]

  unfoldable pub tool_entries : Items → Result Items
  tool_entries nil = ok nil
  tool_entries (cons t rest) = elim (tool_entry t) [
    | err e ↦ err e
    | ok entry ↦ elim (tool_entries rest) [ err e ↦ err e | ok others ↦ ok (cons entry others) ]
  ]

  unfoldable pub list_tools : String → List (String × String) → Exec (Dash R) Items
  list_tools url headers = do
    send (mcp_request url headers initialized_payload)
    resp ← send (mcp_request url headers list_payload)
    body ← lift (parse_mcp_response resp)
    result ← lift (get body "result" (obj end))
    tools ← lift (get result "tools" (arr nil))
    listed ← lift (iterate tools)
    lift (tool_entries listed)

  -- `_discover_tools`
  unfoldable pub discover_tools : String → Exec (Dash R) Items
  discover_tools backend_url = do
    resp ← send (mcp_request (backend_url <> "/mcp") accepts initialize_payload)
    body ← lift (parse_mcp_response resp)
    result ← lift (get body "result" null)
    if truthy result
        then list_tools (backend_url <> "/mcp") (session_headers (header "mcp-session-id" resp))
        else pure nil

  -- The URL of the body is a text.
  unfoldable pub discover_at : Json → Exec (Dash R) Reply
  discover_at url =
      if truthy url
      then try_except
          (do
            tools ← discover_tools (format R url)
            pure (send_json (obj (field "tools" (arr tools) end)) 200))
          (λ e. pure (send_error_json 500 ("Discovery failed: " <> R.describe e)))
      else pure (send_error_json 400 "url required")

  unfoldable pub handle_docker_discover : Json → Exec (Dash R) Reply
  handle_docker_discover body = do url ← lift (get body "url" (str "")); discover_at url

  -- A URL that is no text has no `removesuffix`.
  unfoldable pub schemas_at : String → Json → Exec (Dash R) Reply
  schemas_at service (str mcp_url) = do
    tools ← discover_tools (remove_suffix "/mcp" mcp_url)
    pure (send_json (obj (field "service" (str service) (field "tools" (arr tools) end))) 200)
  schemas_at service _ = λ d. (err Exception.attribute_error, d)

  unfoldable pub schemas_of : String → File → Exec (Dash R) Reply
  schemas_of service file = do
    servers ← lift (get (read_mcp_config file) "mcpServers" (obj end))
    entry ← lift (get servers service null)
    if truthy entry
        then (do url ← lift (get entry "url" (str "")); schemas_at service url)
        else pure (send_error_json 404 ("No backend for service '" <> service <> "'"))

  -- `service` is the first value of the query's parameter, empty if there is none.
  unfoldable pub handle_tool_schemas : String → File → Exec (Dash R) Reply
  handle_tool_schemas service file =
      if service == ""
      then pure (send_error_json 400 "service parameter required")
      else try_except (schemas_of service file)
          (λ e. pure (send_error_json 500 ("Schema discovery failed: " <> R.describe e)))
