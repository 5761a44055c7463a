-- ===== src/Dashboard/Wiring.antt =====
-- `handle_docker_wire` of dashboard/server.py
pub mod Order
pub mod Keeps
use noumena_mcp_gateway_poc.Base.{
  ℕ, zero, suc, String, ◌<>◌, Bool, true, false, not, ◌&&◌, ◌||◌, Option, none, some, List, [], ◌∷◌,
  starts_with, ◌==◌, if◌then◌else◌, eqb,
}
use Prim.Native.Char.{code}
use noumena_mcp_gateway_poc.Base.Exec.{
  Exec, Exception, Result, ok, err, broken_pipe, not_found, type_error, pure, raise, lift, handle,
  try_except, ◌>>=◌, ◌>>◌,
}
use noumena_mcp_gateway_poc.Base.Json.{
  Json, num, str, obj, arr, Items, nil, cons, Fields, end, field, bool, get, item, truthy, append,
  count, iterate,
}
use noumena_mcp_gateway_poc.Base.Text.{has_part, split, is_space, all_space, drop_chars}
use noumena_mcp_gateway_poc.BundleServer.Build.{take_chars}
use noumena_mcp_gateway_poc.Base.World.{Runtime}
use noumena_mcp_gateway_poc.Dashboard.State.{
  Dash, Config, Reply, send_json, send_error_json, format,
}
use noumena_mcp_gateway_poc.Dashboard.Store.{npl_post, ensure_store_id}
use noumena_mcp_gateway_poc.Dashboard.Backends.{
  Gateway, add_backend_to_config, remove_backend_from_config,
}
use noumena_mcp_gateway_poc.Dashboard.Proxy.{Wire, write, begin}
use noumena_mcp_gateway_poc.Dashboard.Tools.{discover_tools}
use noumena_mcp_gateway_poc.Dashboard.Launch.{emit, launch, pull_step}
use noumena_mcp_gateway_poc.Dashboard.Docker.{
  change_config, Box, Docker, Host, on_dash, on_wire, docker, available, find_supergateway_image,
  remove_boxes,
}

-- A name that is no text cannot be joined.
unfoldable pub text_name : Json → Result String
text_name (str s) = ok s
text_name _ = err type_error

-- `', '.join(names)`
unfoldable pub joined : List String → String
joined [] = ""
joined (name ∷ []) = name
joined (name ∷ next ∷ names) = name <> ", " <> joined (next ∷ names)

module _ {R : Runtime} where
  abbrev outcome : {A : Type 0} → Result A × Host R → Result (Result A) × Host R
  outcome (r, h) = (ok r, h)

  -- How a step ends, as a value.
  abbrev pub attempt : {A : Type 0} → Exec (Host R) A → Exec (Host R) (Result A)
  attempt m h = outcome (m h)

module _ (R : Runtime) (D : Docker R) (cfg : Config) where
  -- Step 6
  unfoldable pub register_backend : String → String → Exec (Host R) (Unit {0})
  register_backend service backend_url = do
    emit R "Registering backend with AI Gateway..." "progress"
    try_except
        (do
          change_config R D cfg (add_backend_to_config service (backend_url <> "/mcp"))
          emit R ("Registered backend: " <> service) "done")
        (λ e. emit R ("Gateway registration failed: " <> R.describe e) "warn")

  unfoldable pub names_of : Items → Result (List String)
  names_of nil = ok []
  names_of (cons t rest) = elim (item t "name") [
    | err e ↦ err e
    | ok name ↦ elim (text_name name) [
      | err e ↦ err e
      | ok text ↦ elim (names_of rest) [ err e ↦ err e | ok others ↦ ok (text ∷ others) ]
    ]
  ]

  -- The tools are kept even if telling the browser of them raises.
  unfoldable pub tell_tools : Result Items → Exec (Host R) Items
  tell_tools (err e) = do
    emit R ("Tool discovery failed (service may need configuration): " <> R.describe e) "warn"
    pure nil
  tell_tools (ok tools) = do
    try_except
        (do
          names ← lift (names_of tools)
          emit R ("Discovered " <> R.repr (num (count tools)) <> " tools: " <> joined names) "done")
        (λ e.
          emit R ("Tool discovery failed (service may need configuration): " <> R.describe e)
            "warn")
    pure tools

  -- Step 7
  unfoldable pub discover_step : String → Exec (Host R) Items
  discover_step backend_url = do
    emit R "Discovering tools via MCP handshake..." "progress"
    found ← attempt (on_dash (discover_tools R backend_url))
    tell_tools found

  unfoldable pub npl : String → Fields → Exec (Host R) (Unit {0})
  npl path payload = on_dash (npl_post R cfg path (obj payload)) >> pure tt

  unfoldable pub register_tools : Json → String → Items → Exec (Host R) (Unit {0})
  register_tools sid service nil = pure tt
  register_tools sid service (cons t rest) = do
    name ← lift (item t "name")
    npl ("/npl/store/GatewayStore/" <> format R sid <> "/registerTool")
        (field "serviceName" (str service) (field "toolName" name end))
    register_tools sid service rest

  -- Step 8: the status of no response is looked at.
  unfoldable pub catalog_step : String → Items → Exec (Host R) (Unit {0})
  catalog_step service tools = do
    emit R "Registering in governance catalog..." "progress"
    sid ← on_dash (ensure_store_id R cfg)
    npl ("/npl/store/GatewayStore/" <> format R sid <> "/registerService")
        (field "serviceName" (str service) end)
    npl ("/npl/store/GatewayStore/" <> format R sid <> "/enableService")
        (field "serviceName" (str service) end)
    register_tools sid service tools
    emit R
        ("Registered " <> service <> " with " <> R.repr (num (count tools)) <> " tools in catalog")
        "done"

  -- Steps 6 to 8, once the container runs.
  unfoldable pub register : String → String → Exec (Host R) (Unit {0})
  register service container_name = do
    box ← docker (D.find (str container_name))
    address ← lift (D.address box cfg.docker_network)
    register_backend service ("http://" <> address <> ":8000")
    tools ← discover_step ("http://" <> address <> ":8000")
    catalog_step service tools
    emit R ("Service \"" <> service <> "\" wired successfully!") "complete"

  unfoldable pub with_image : String → String → Option String → Exec (Host R) (Unit {0})
  with_image image service none =
      emit R "Supergateway image not found. Ensure the gateway stack is running." "error"
  with_image image service (some sg_image) = do
    emit R "Found supergateway image" "done"
    launch R D sg_image ("gateway-" <> service <> "-mcp-1") image
    register service ("gateway-" <> service <> "-mcp-1")

  -- The `try` block.
  unfoldable pub wire_block : String → String → Exec (Host R) (Unit {0})
  wire_block image service = do
    pull_step R D image
    emit R "Finding supergateway image..." "progress"
    sg_image ← find_supergateway_image R D
    with_image image service sg_image

  -- A browser that is gone is no error; another exception is told to the browser, if it is there.
  unfoldable pub wire_failed : Exception → Exec (Host R) (Unit {0})
  wire_failed broken_pipe = pure tt
  wire_failed e = try_except (emit R ("Error: " <> R.describe e) "error") (λ _. pure tt)

  -- `none`: the answer is the stream of events.
  unfoldable pub wired : String → String → Exec (Host R) (Option Reply)
  wired image service = do
    there ← available D
    if there
        then (do on_wire begin; try_except (wire_block image service) wire_failed; pure none)
        else pure (some (send_error_json 503 "Docker not available"))

  -- Both are texts.
  unfoldable pub handle_docker_wire : Json → Exec (Host R) (Option Reply)
  handle_docker_wire body = do
    image ← lift (get body "image" (str ""))
    service ← lift (get body "serviceName" (str ""))
    if truthy image && truthy service
        then wired (format R image) (format R service)
        else pure (some (send_error_json 400 "image and serviceName required"))
