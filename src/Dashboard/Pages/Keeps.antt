-- ===== src/Dashboard/Pages/Keeps.antt =====
-- The sessions beside GET, HEAD and OPTIONS requests of dashboard/server.py.
use noumena_mcp_gateway_poc.Base.{refl, String, Bool}
use noumena_mcp_gateway_poc.Base.Exec.Keeps.{Keeps, Keeps-bind, Keeps-pure, keeps_rules}
use noumena_mcp_gateway_poc.Base.World.{Runtime}
use noumena_mcp_gateway_poc.Dashboard.State.{Config}
use noumena_mcp_gateway_poc.Dashboard.State.Keeps.{sessions, keeps_sessions}
use noumena_mcp_gateway_poc.Dashboard.Backends.{File}
use noumena_mcp_gateway_poc.Dashboard.Overview.Keeps.{Keeps-status, Keeps-metrics, Keeps-bundle}
use noumena_mcp_gateway_poc.Dashboard.Approvals.Keeps.{Keeps-get_approvals}
use noumena_mcp_gateway_poc.Dashboard.Constraints.Keeps.{Keeps-get_constraints}
use noumena_mcp_gateway_poc.Dashboard.UserList.Keeps.{Keeps-get_users}
use noumena_mcp_gateway_poc.Dashboard.Governance.Keeps.{Keeps-get_governance}
use noumena_mcp_gateway_poc.Dashboard.Instances.Keeps.{Keeps-get_protocols}
use noumena_mcp_gateway_poc.Dashboard.Search.Keeps.{Keeps-dockerhub_search, Keeps-registry_search}
use noumena_mcp_gateway_poc.Dashboard.Suggestions.Keeps.{Keeps-suggestions}
use noumena_mcp_gateway_poc.Dashboard.Tools.{handle_tool_schemas}
use noumena_mcp_gateway_poc.Dashboard.Tools.Keeps.{Keeps-tool_schemas}
use noumena_mcp_gateway_poc.Dashboard.Proxy.Keeps.{sessions-sse_proxy}
use noumena_mcp_gateway_poc.Dashboard.Containers.Keeps.{Keeps-docker_containers}
use noumena_mcp_gateway_poc.Dashboard.Docker.{Docker}
use noumena_mcp_gateway_poc.Dashboard.Docker.Keeps.{table}
use noumena_mcp_gateway_poc.Dashboard.Server.Keeps.{Keeps-sent, Keeps-on_reply}
use noumena_mcp_gateway_poc.Dashboard.Route.{GetHandler, GetChoice}
use noumena_mcp_gateway_poc.Dashboard.Pages.{
  Folder, Given, handle_get_backends, send_file, get_handler, got, is_there, contents,
}

module _ (R : Runtime) where
  Keeps-get_backends : (config : File) → Keeps sessions (handle_get_backends R config)
  unfolding handle_get_backends
  Keeps-get_backends config = search keeps_sessions

module _ (R : Runtime) (D : Docker R) (cfg : Config) where
  Keeps-get_handler :
      (param : String → String) (g : Given) (handler : GetHandler)
      → Keeps table (get_handler R D cfg param g handler)
  unfolding get_handler
  Keeps-get_handler param g GetHandler.metrics = Keeps-on_reply _ (Keeps-metrics R cfg _ _)
  Keeps-get_handler param g GetHandler.status = Keeps-on_reply _ (Keeps-status R cfg)
  Keeps-get_handler param g GetHandler.bundle = Keeps-on_reply _ (Keeps-bundle R cfg)
  Keeps-get_handler param g GetHandler.get_approvals = Keeps-on_reply _ (Keeps-get_approvals R cfg)
  Keeps-get_handler param g GetHandler.get_users = Keeps-on_reply _ (Keeps-get_users R cfg)
  Keeps-get_handler param g GetHandler.get_governance =
      Keeps-on_reply _ (Keeps-get_governance R cfg)
  Keeps-get_handler param g GetHandler.get_protocols = Keeps-on_reply _ (Keeps-get_protocols R cfg)
  Keeps-get_handler param g GetHandler.dockerhub_search =
      Keeps-on_reply _ (Keeps-dockerhub_search R _)
  Keeps-get_handler param g GetHandler.registry_search =
      Keeps-on_reply _ (Keeps-registry_search R _)
  Keeps-get_handler param g GetHandler.docker_containers =
      Keeps-sent _ (Keeps-docker_containers R D cfg)
  Keeps-get_handler param g GetHandler.get_backends = record {
    at = λ h. (Keeps-on_reply (handle_get_backends R h.gateway.file) (Keeps-get_backends R _)).at h;
  }
  Keeps-get_handler param g GetHandler.suggestions = Keeps-on_reply _ (Keeps-suggestions R cfg)
  Keeps-get_handler param g GetHandler.tool_schemas = record {
    at = λ h.
        (Keeps-on_reply (handle_tool_schemas R (param "service") h.gateway.file)
            (Keeps-tool_schemas R _ _)).at
          h;
  }
  Keeps-get_handler param g GetHandler.get_constraints =
      Keeps-on_reply _ (Keeps-get_constraints R cfg _)
  Keeps-get_handler param g GetHandler.sse_proxy = record {
    at = λ h. sessions-sse_proxy R cfg g.upstream (record { dash = h.dash; wire = h.wire });
  }

module _ (R : Runtime) (D : Docker R) (F : Folder R) (cfg : Config) where
  Keeps-is_there : (path : String) → Keeps table (is_there R F path)
  Keeps-is_there path = record { at = λ h. refl }

  Keeps-contents : (path : String) → Keeps table (contents R F path)
  Keeps-contents path = record { at = λ h. refl }

  Keeps-send_file : (head : Bool) (path : String) → Keeps table (send_file R F head path)
  unfolding send_file
  Keeps-send_file head path = search (keeps_rules, Keeps-is_there, Keeps-contents)

  pub Keeps-got :
      (head : Bool) (param : String → String) (g : Given) (choice : GetChoice)
      → Keeps table (got R D F cfg head param g choice)
  unfolding got
  Keeps-got head param g (GetChoice.answer reply) = Keeps-pure _
  Keeps-got head param g (GetChoice.run handler) =
      Keeps-bind (get_handler R D cfg param g handler) _ (Keeps-get_handler R D cfg param g handler)
        (λ answer. Keeps-pure _)
  Keeps-got head param g (GetChoice.static path) = Keeps-send_file head path
