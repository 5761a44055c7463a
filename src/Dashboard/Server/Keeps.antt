-- ===== src/Dashboard/Server/Keeps.antt =====
-- The sessions beside the handlers of POST requests of dashboard/server.py.
use noumena_mcp_gateway_poc.Base.{some}
use noumena_mcp_gateway_poc.Base.Exec.{Exec, pure}
use noumena_mcp_gateway_poc.Base.Exec.Keeps.{Keeps, Keeps-bind, Keeps-pure}
use noumena_mcp_gateway_poc.Base.Json.{Json}
use noumena_mcp_gateway_poc.Base.World.{Runtime}
use noumena_mcp_gateway_poc.Dashboard.State.{Dash, Config, Reply}
use noumena_mcp_gateway_poc.Dashboard.State.Keeps.{sessions}
use noumena_mcp_gateway_poc.Dashboard.Catalog.{
  handle_enable_service, handle_disable_service, handle_remove_service, handle_remove_access_rule,
  handle_revoke_subject, handle_reinstate_subject, handle_register_tool, handle_remove_tool,
}
use noumena_mcp_gateway_poc.Dashboard.Governance.{
  handle_add_constraint, handle_remove_constraint, handle_clear_constraints, handle_add_allowlist,
  handle_add_allowed_value, handle_add_allowed_pattern, handle_remove_allowed_value,
  handle_remove_allowlist,
}
use noumena_mcp_gateway_poc.Dashboard.Catalog.Keeps.{
  Keeps-register_service, Keeps-store_operation, Keeps-tool_operation, Keeps-add_access_rule,
}
use noumena_mcp_gateway_poc.Dashboard.Governance.Keeps.{
  Keeps-guardrails_operation, Keeps-set_description, Keeps-set_deadline,
  Keeps-set_requires_workflow,
}
use noumena_mcp_gateway_poc.Dashboard.Instances.Keeps.{
  Keeps-create_guardrails, Keeps-create_workflow,
}
use noumena_mcp_gateway_poc.Dashboard.Approvals.Keeps.{Keeps-approve, Keeps-deny}
use noumena_mcp_gateway_poc.Dashboard.Users.Keeps.{
  Keeps-create_user, Keeps-update_user_handler, Keeps-delete_user,
}
use noumena_mcp_gateway_poc.Dashboard.Tools.Keeps.{Keeps-docker_discover}
use noumena_mcp_gateway_poc.Dashboard.Docker.{Docker, Host, on_dash, pulled, handle_docker_pull}
use noumena_mcp_gateway_poc.Dashboard.Docker.Keeps.{table, steps, Keeps-table, Keeps-on_dash}
use noumena_mcp_gateway_poc.Dashboard.Wiring.Keeps.{Keeps-docker_wire}
use noumena_mcp_gateway_poc.Dashboard.Containers.Keeps.{Keeps-docker_stop}
use noumena_mcp_gateway_poc.Dashboard.Route.{PostHandler}
use noumena_mcp_gateway_poc.Dashboard.Server.{on_reply, sent, post_handler}

module _ {R : Runtime} where
  pub Keeps-sent : (m : Exec (Host R) Reply) → Keeps table m → Keeps table (sent m)
  Keeps-sent m km = Keeps-bind m (λ reply. pure (some reply)) km (λ reply. Keeps-pure _)

  pub Keeps-on_reply : (m : Exec (Dash R) Reply) → Keeps sessions m → Keeps table (on_reply m)
  Keeps-on_reply m km = Keeps-sent (on_dash m) (Keeps-table (on_dash m) (Keeps-on_dash m km))

module _ (R : Runtime) (D : Docker R) (cfg : Config) where
  Keeps-docker_pull : (body : Json) → Keeps table (handle_docker_pull R D body)
  unfolding handle_docker_pull pulled
  Keeps-docker_pull body = Keeps-table _ (search steps depth 14)

  pub Keeps-post_handler :
      (handler : PostHandler) (body : Json) → Keeps table (post_handler R D cfg handler body)
  unfolding post_handler handle_enable_service handle_disable_service handle_remove_service
      handle_remove_access_rule handle_revoke_subject handle_reinstate_subject handle_add_constraint
      handle_remove_constraint handle_clear_constraints handle_add_allowlist
      handle_add_allowed_value handle_add_allowed_pattern handle_remove_allowed_value
      handle_remove_allowlist handle_register_tool handle_remove_tool
  Keeps-post_handler PostHandler.register_service body =
      Keeps-on_reply _ (Keeps-register_service R cfg body)
  Keeps-post_handler PostHandler.enable_service body =
      Keeps-on_reply _ (Keeps-store_operation R cfg _ _ body)
  Keeps-post_handler PostHandler.disable_service body =
      Keeps-on_reply _ (Keeps-store_operation R cfg _ _ body)
  Keeps-post_handler PostHandler.remove_service body =
      Keeps-on_reply _ (Keeps-store_operation R cfg _ _ body)
  Keeps-post_handler PostHandler.register_tool body =
      Keeps-on_reply _ (Keeps-tool_operation R cfg _ body)
  Keeps-post_handler PostHandler.remove_tool body =
      Keeps-on_reply _ (Keeps-tool_operation R cfg _ body)
  Keeps-post_handler PostHandler.add_access_rule body =
      Keeps-on_reply _ (Keeps-add_access_rule R cfg body)
  Keeps-post_handler PostHandler.remove_access_rule body =
      Keeps-on_reply _ (Keeps-store_operation R cfg _ _ body)
  Keeps-post_handler PostHandler.revoke_subject body =
      Keeps-on_reply _ (Keeps-store_operation R cfg _ _ body)
  Keeps-post_handler PostHandler.reinstate_subject body =
      Keeps-on_reply _ (Keeps-store_operation R cfg _ _ body)
  Keeps-post_handler PostHandler.approve body = Keeps-on_reply _ (Keeps-approve R cfg body)
  Keeps-post_handler PostHandler.deny body = Keeps-on_reply _ (Keeps-deny R cfg body)
  Keeps-post_handler PostHandler.create_guardrails body =
      Keeps-on_reply _ (Keeps-create_guardrails R cfg body)
  Keeps-post_handler PostHandler.create_workflow body =
      Keeps-on_reply _ (Keeps-create_workflow R cfg body)
  Keeps-post_handler PostHandler.add_allowlist body =
      Keeps-on_reply _ (Keeps-guardrails_operation R cfg _ _ body)
  Keeps-post_handler PostHandler.add_allowed_value body =
      Keeps-on_reply _ (Keeps-guardrails_operation R cfg _ _ body)
  Keeps-post_handler PostHandler.add_allowed_pattern body =
      Keeps-on_reply _ (Keeps-guardrails_operation R cfg _ _ body)
  Keeps-post_handler PostHandler.remove_allowed_value body =
      Keeps-on_reply _ (Keeps-guardrails_operation R cfg _ _ body)
  Keeps-post_handler PostHandler.remove_allowlist body =
      Keeps-on_reply _ (Keeps-guardrails_operation R cfg _ _ body)
  Keeps-post_handler PostHandler.docker_discover body =
      Keeps-on_reply _ (Keeps-docker_discover R body)
  Keeps-post_handler PostHandler.create_user body = Keeps-on_reply _ (Keeps-create_user R cfg body)
  Keeps-post_handler PostHandler.update_user body =
      Keeps-on_reply _ (Keeps-update_user_handler R cfg body)
  Keeps-post_handler PostHandler.delete_user body = Keeps-on_reply _ (Keeps-delete_user R cfg body)
  Keeps-post_handler PostHandler.add_constraint body =
      Keeps-on_reply _ (Keeps-guardrails_operation R cfg _ _ body)
  Keeps-post_handler PostHandler.remove_constraint body =
      Keeps-on_reply _ (Keeps-guardrails_operation R cfg _ _ body)
  Keeps-post_handler PostHandler.clear_constraints body =
      Keeps-on_reply _ (Keeps-guardrails_operation R cfg _ _ body)
  Keeps-post_handler PostHandler.set_requires_workflow body =
      Keeps-on_reply _ (Keeps-set_requires_workflow R cfg body)
  Keeps-post_handler PostHandler.set_deadline body =
      Keeps-on_reply _ (Keeps-set_deadline R cfg body)
  Keeps-post_handler PostHandler.set_description body =
      Keeps-on_reply _ (Keeps-set_description R cfg body)
  Keeps-post_handler PostHandler.docker_pull body = Keeps-sent _ (Keeps-docker_pull body)
  Keeps-post_handler PostHandler.docker_wire body = Keeps-docker_wire R D cfg body
  Keeps-post_handler PostHandler.docker_stop body = Keeps-sent _ (Keeps-docker_stop R D cfg body)
