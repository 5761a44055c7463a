-- ===== src/Dashboard/Containers/Keeps.antt =====
-- The sessions beside `handle_docker_stop` of dashboard/server.py.
use noumena_mcp_gateway_poc.Base.Exec.Keeps.{Keeps, keeps_rules}
use noumena_mcp_gateway_poc.Base.Json.{Json, str, arr, obj}
use noumena_mcp_gateway_poc.Base.World.{Runtime}
use noumena_mcp_gateway_poc.Dashboard.State.{Config}
use noumena_mcp_gateway_poc.Dashboard.Docker.{Docker}
use noumena_mcp_gateway_poc.Dashboard.Docker.Keeps.{table, steps, Keeps-table, Keeps-change_config}
use noumena_mcp_gateway_poc.Dashboard.Containers.{
  forget_named, forget_backend, stop_block, stopped, handle_docker_stop, handle_docker_containers,
}
use noumena_mcp_gateway_poc.Dashboard.Containers.Stopping.{Keeps-remove_inner}

module _ (R : Runtime) (D : Docker R) (cfg : Config) where
  Keeps-forget_named : (service : Json) → Keeps table (forget_named R D cfg service)
  unfolding forget_named
  Keeps-forget_named (str service) = Keeps-change_config R D cfg _
  Keeps-forget_named (arr _) = search keeps_rules
  Keeps-forget_named (obj _) = search keeps_rules
  Keeps-forget_named _ = search keeps_rules

  Keeps-forget_backend : (service : Json) → Keeps table (forget_backend R D cfg service)
  unfolding forget_backend
  Keeps-forget_backend service = search (keeps_rules, Keeps-forget_named) depth 14

  Keeps-stop_block : (name service : Json) → Keeps table (stop_block R D cfg name service)
  unfolding stop_block
  Keeps-stop_block name service =
      search (keeps_rules, Keeps-table, steps, Keeps-remove_inner, Keeps-forget_backend) depth 24

  Keeps-stopped : (name service : Json) → Keeps table (stopped R D cfg name service)
  unfolding stopped
  Keeps-stopped name service = search (keeps_rules, Keeps-table, steps, Keeps-stop_block) depth 14

  pub Keeps-docker_stop : (body : Json) → Keeps table (handle_docker_stop R D cfg body)
  unfolding handle_docker_stop
  Keeps-docker_stop body = search (keeps_rules, Keeps-stopped) depth 14

  pub Keeps-docker_containers : Keeps table (handle_docker_containers R D cfg)
  unfolding handle_docker_containers
  Keeps-docker_containers = Keeps-table _ (search steps depth 14)
