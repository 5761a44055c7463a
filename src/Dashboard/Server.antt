-- ===== src/Dashboard/Server.antt =====
-- A POST request to dashboard/server.py: `read_body`, the guards, and the handler that its path names.
pub mod Keeps
pub mod Provenance
pub mod Access
use noumena_mcp_gateway_poc.Base.{String, Option, none, some, ◌==◌, if◌then◌else◌}
use noumena_mcp_gateway_poc.Base.Exec.{Exec, Result, ok, pure, lift, ◌>>=◌}
use noumena_mcp_gateway_poc.Base.Json.{Json, obj, end}
use noumena_mcp_gateway_poc.Base.World.{Runtime}
use noumena_mcp_gateway_poc.Dashboard.State.{Dash, Config, Reply}
use noumena_mcp_gateway_poc.Dashboard.Login.{handle_login, handle_logout}
use noumena_mcp_gateway_poc.Dashboard.Catalog.{
  handle_register_service, handle_enable_service, handle_disable_service, handle_remove_service,
  handle_register_tool, handle_remove_tool, handle_add_access_rule, handle_remove_access_rule,
  handle_revoke_subject, handle_reinstate_subject,
}
use noumena_mcp_gateway_poc.Dashboard.Governance.{
  handle_add_constraint, handle_remove_constraint, handle_clear_constraints,
  handle_set_requires_workflow, handle_set_deadline, handle_set_description, handle_add_allowlist,
  handle_add_allowed_value, handle_add_allowed_pattern, handle_remove_allowed_value,
  handle_remove_allowlist,
}
use noumena_mcp_gateway_poc.Dashboard.Instances.{handle_create_guardrails, handle_create_workflow}
use noumena_mcp_gateway_poc.Dashboard.Approvals.{handle_approve, handle_deny}
use noumena_mcp_gateway_poc.Dashboard.Users.{
  handle_create_user, handle_update_user, handle_delete_user,
}
use noumena_mcp_gateway_poc.Dashboard.Tools.{handle_docker_discover}
use noumena_mcp_gateway_poc.Dashboard.Docker.{Docker, Host, on_dash, handle_docker_pull}
use noumena_mcp_gateway_poc.Dashboard.Wiring.{handle_docker_wire}
use noumena_mcp_gateway_poc.Dashboard.Containers.{handle_docker_stop}
use noumena_mcp_gateway_poc.Dashboard.Route
use noumena_mcp_gateway_poc.Dashboard.Route.{PostHandler, PostChoice, do_post}

-- The text that the request has by its `Content-Length`, empty if that is 0.
unfoldable pub read_body : Runtime → String → Result Json
read_body R text = if text == "" then ok (obj end) else R.loads text

module _ {R : Runtime} where
  abbrev pub sent : Exec (Host R) Reply → Exec (Host R) (Option Reply)
  sent m = do reply ← m; pure (some reply)

  abbrev pub on_reply : Exec (Dash R) Reply → Exec (Host R) (Option Reply)
  on_reply m = sent (on_dash m)

module _ (R : Runtime) (D : Docker R) (cfg : Config) where
  -- The handler of an entry of the table of routes; `none`: the handler has sent its answer itself.
  unfoldable pub post_handler : PostHandler → Json → Exec (Host R) (Option Reply)
  post_handler PostHandler.register_service body = on_reply (handle_register_service R cfg body)
  post_handler PostHandler.enable_service body = on_reply (handle_enable_service R cfg body)
  post_handler PostHandler.disable_service body = on_reply (handle_disable_service R cfg body)
  post_handler PostHandler.remove_service body = on_reply (handle_remove_service R cfg body)
  post_handler PostHandler.register_tool body = on_reply (handle_register_tool R cfg body)
  post_handler PostHandler.remove_tool body = on_reply (handle_remove_tool R cfg body)
  post_handler PostHandler.add_access_rule body = on_reply (handle_add_access_rule R cfg body)
  post_handler PostHandler.remove_access_rule body = on_reply (handle_remove_access_rule R cfg body)
  post_handler PostHandler.revoke_subject body = on_reply (handle_revoke_subject R cfg body)
  post_handler PostHandler.reinstate_subject body = on_reply (handle_reinstate_subject R cfg body)
  post_handler PostHandler.approve body = on_reply (handle_approve R cfg body)
  post_handler PostHandler.deny body = on_reply (handle_deny R cfg body)
  post_handler PostHandler.create_guardrails body = on_reply (handle_create_guardrails R cfg body)
  post_handler PostHandler.create_workflow body = on_reply (handle_create_workflow R cfg body)
  post_handler PostHandler.add_allowlist body = on_reply (handle_add_allowlist R cfg body)
  post_handler PostHandler.add_allowed_value body = on_reply (handle_add_allowed_value R cfg body)
  post_handler PostHandler.add_allowed_pattern body =
      on_reply (handle_add_allowed_pattern R cfg body)
  post_handler PostHandler.remove_allowed_value body =
      on_reply (handle_remove_allowed_value R cfg body)
  post_handler PostHandler.remove_allowlist body = on_reply (handle_remove_allowlist R cfg body)
  post_handler PostHandler.docker_discover body = on_reply (handle_docker_discover R body)
  post_handler PostHandler.create_user body = on_reply (handle_create_user R cfg body)
  post_handler PostHandler.update_user body = on_reply (handle_update_user R cfg body)
  post_handler PostHandler.delete_user body = on_reply (handle_delete_user R cfg body)
  post_handler PostHandler.add_constraint body = on_reply (handle_add_constraint R cfg body)
  post_handler PostHandler.remove_constraint body = on_reply (handle_remove_constraint R cfg body)
  post_handler PostHandler.clear_constraints body = on_reply (handle_clear_constraints R cfg body)
  post_handler PostHandler.set_requires_workflow body =
      on_reply (handle_set_requires_workflow R cfg body)
  post_handler PostHandler.set_deadline body = on_reply (handle_set_deadline R cfg body)
  post_handler PostHandler.set_description body = on_reply (handle_set_description R cfg body)
  post_handler PostHandler.docker_pull body = sent (handle_docker_pull R D body)
  post_handler PostHandler.docker_wire body = handle_docker_wire R D cfg body
  post_handler PostHandler.docker_stop body = sent (handle_docker_stop R D cfg body)

  unfoldable pub routed : Option String → Json → PostChoice → Exec (Host R) (Option Reply)
  routed cookie body PostChoice.login = on_reply (handle_login R cfg body)
  routed cookie body PostChoice.logout = on_reply (handle_logout R cfg cookie)
  routed cookie body (PostChoice.answer reply) = pure (some reply)
  routed cookie body (PostChoice.run handler) = post_handler handler body

  -- `do_POST`, given the path of the request, the value of its cookie `session` and its text.
  unfoldable pub serve_post : String → Option String → String → Exec (Host R) (Option Reply)
  serve_post path cookie text = do
    body ← lift (read_body R text)
    choice ← on_dash (do_post R path cookie)
    routed cookie body choice
