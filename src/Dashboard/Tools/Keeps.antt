-- ===== src/Dashboard/Tools/Keeps.antt =====
-- The sessions beside `_discover_tools` and `handle_docker_discover` of dashboard/server.py.
use noumena_mcp_gateway_poc.Base.{String, List}
use noumena_mcp_gateway_poc.Base.Exec.Keeps.{Keeps, Keeps-raise}
use noumena_mcp_gateway_poc.Base.Json.{Json, str}
use noumena_mcp_gateway_poc.Base.World.{Runtime}
use noumena_mcp_gateway_poc.Dashboard.State.Keeps.{sessions, keeps_sessions}
use noumena_mcp_gateway_poc.Dashboard.Tools.{
  list_tools, discover_tools, discover_at, handle_docker_discover, schemas_at, schemas_of,
  handle_tool_schemas,
}
use noumena_mcp_gateway_poc.Dashboard.Backends.{File}

module _ (R : Runtime) where
  Keeps-list_tools :
      (url : String) (headers : List (String × String)) → Keeps sessions (list_tools R url headers)
  unfolding list_tools
  Keeps-list_tools url headers = search keeps_sessions depth 24

  pub Keeps-discover_tools : (url : String) → Keeps sessions (discover_tools R url)
  unfolding discover_tools
  Keeps-discover_tools url = search (keeps_sessions, Keeps-list_tools) depth 24

  Keeps-discover_at : (url : Json) → Keeps sessions (discover_at R url)
  unfolding discover_at
  Keeps-discover_at url = search (keeps_sessions, Keeps-discover_tools) depth 24

  pub Keeps-docker_discover : (body : Json) → Keeps sessions (handle_docker_discover R body)
  unfolding handle_docker_discover
  Keeps-docker_discover body = search (keeps_sessions, Keeps-discover_at) depth 14

  Keeps-schemas_at : (service : String) (url : Json) → Keeps sessions (schemas_at R service url)
  unfolding schemas_at
  Keeps-schemas_at service (str url) = search (keeps_sessions, Keeps-discover_tools) depth 14
  Keeps-schemas_at service _ = Keeps-raise _

  Keeps-schemas_of :
      (service : String) (config : File) → Keeps sessions (schemas_of R service config)
  unfolding schemas_of
  Keeps-schemas_of service config = search (keeps_sessions, Keeps-schemas_at) depth 14

  pub Keeps-tool_schemas :
      (service : String) (config : File) → Keeps sessions (handle_tool_schemas R service config)
  unfolding handle_tool_schemas
  Keeps-tool_schemas service config = search (keeps_sessions, Keeps-schemas_of) depth 14
