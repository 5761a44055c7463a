-- ===== src/Dashboard/Route.antt =====
-- `do_GET` and `do_POST` of dashboard/server.py up to the choice of the handler, once the body has
-- been read.
pub mod Gate
use noumena_mcp_gateway_poc.Base.{
  ℕ, String, ◌<>◌, Bool, true, false, not, ◌||◌, ◌==◌, starts_with, Option, none, some, List, [],
  ◌∷◌, eqb, if◌then◌else◌,
}
use noumena_mcp_gateway_poc.Base.Exec.{Exec, Result, ok, err, pure, ◌>>=◌, ◌>>◌}
use noumena_mcp_gateway_poc.Base.Json.{Json, null, bool, obj, end, field, truthy}
use noumena_mcp_gateway_poc.Base.World.{Runtime}
use noumena_mcp_gateway_poc.Base.Dict
use noumena_mcp_gateway_poc.Base.Dict.{Dict}
use noumena_mcp_gateway_poc.Dashboard.State.{Dash, Reply, send_json, send_error_json}
use noumena_mcp_gateway_poc.Dashboard.Login.{get_session_user}

-- The handlers of GET requests, named as in the source without `handle_`.
pub data GetHandler : Type 0 where
  metrics status bundle get_approvals get_users get_governance get_protocols : GetHandler
  dockerhub_search registry_search docker_containers get_backends suggestions : GetHandler
  tool_schemas get_constraints sse_proxy : GetHandler

pub data PostHandler : Type 0 where
  register_service enable_service disable_service remove_service : PostHandler
  register_tool remove_tool add_access_rule remove_access_rule : PostHandler
  revoke_subject reinstate_subject approve deny : PostHandler
  create_guardrails create_workflow add_allowlist add_allowed_value : PostHandler
  add_allowed_pattern remove_allowed_value remove_allowlist : PostHandler
  docker_pull docker_wire docker_stop docker_discover : PostHandler
  create_user update_user delete_user : PostHandler
  add_constraint remove_constraint clear_constraints : PostHandler
  set_requires_workflow set_deadline set_description : PostHandler

unfoldable pub get_routes : Dict GetHandler
get_routes =
    ("/api/metrics", metrics)
    ∷ ("/api/status", status)
    ∷ ("/api/bundle", bundle)
    ∷ ("/api/approvals", get_approvals)
    ∷ ("/api/users", get_users)
    ∷ ("/api/governance", get_governance)
    ∷ ("/api/governance/protocols", get_protocols)
    ∷ ("/api/dockerhub/search", dockerhub_search)
    ∷ ("/api/registry/search", registry_search)
    ∷ ("/api/docker/containers", docker_containers)
    ∷ ("/api/backends", get_backends)
    ∷ ("/api/suggestions", suggestions)
    ∷ ("/api/tools/schemas", tool_schemas)
    ∷ ("/api/constraints", get_constraints)
    ∷ ("/api/sse/npl", sse_proxy)
    ∷ []

unfoldable pub post_routes : Dict PostHandler
post_routes =
    ("/api/services/register", register_service)
    ∷ ("/api/services/enable", enable_service)
    ∷ ("/api/services/disable", disable_service)
    ∷ ("/api/services/remove", remove_service)
    ∷ ("/api/tools/register", register_tool)
    ∷ ("/api/tools/remove", remove_tool)
    ∷ ("/api/access-rules/add", add_access_rule)
    ∷ ("/api/access-rules/remove", remove_access_rule)
    ∷ ("/api/revoked/add", revoke_subject)
    ∷ ("/api/revoked/remove", reinstate_subject)
    ∷ ("/api/approvals/approve", approve)
    ∷ ("/api/approvals/deny", deny)
    ∷ ("/api/governance/create-guardrails", create_guardrails)
    ∷ ("/api/governance/create-workflow", create_workflow)
    ∷ ("/api/guardrails/add-allowlist", add_allowlist)
    ∷ ("/api/guardrails/add-allowed-value", add_allowed_value)
    ∷ ("/api/guardrails/add-allowed-pattern", add_allowed_pattern)
    ∷ ("/api/guardrails/remove-allowed-value", remove_allowed_value)
    ∷ ("/api/guardrails/remove-allowlist", remove_allowlist)
    ∷ ("/api/docker/pull", docker_pull)
    ∷ ("/api/docker/wire", docker_wire)
    ∷ ("/api/docker/stop", docker_stop)
    ∷ ("/api/docker/discover", docker_discover)
    ∷ ("/api/users/create", create_user)
    ∷ ("/api/users/update", update_user)
    ∷ ("/api/users/delete", delete_user)
    ∷ ("/api/constraints/add", add_constraint)
    ∷ ("/api/constraints/remove", remove_constraint)
    ∷ ("/api/constraints/clear", clear_constraints)
    ∷ ("/api/workflow/set-requires-workflow", set_requires_workflow)
    ∷ ("/api/workflow/set-deadline", set_deadline)
    ∷ ("/api/workflow/set-description", set_description)
    ∷ []

-- What a GET request comes to: an answer, a handler to run, or a file under the static folder.
pub data GetChoice : Type 0 where
  answer : Reply → GetChoice
  run : GetHandler → GetChoice
  static : String → GetChoice

pub data PostChoice : Type 0 where
  login : PostChoice
  logout : PostChoice
  answer : Reply → PostChoice
  run : PostHandler → PostChoice

-- The path of the file, relative to the static folder, before `lstrip("/")`.
unfoldable pub static_path : String → String
static_path path = if path == "/" || path == "" then "/index.html" else path

abbrev get_chosen : Option GetHandler → GetChoice
get_chosen none = answer (send_error_json 404 "Not found")
get_chosen (some h) = run h

abbrev pub post_chosen : Option PostHandler → PostChoice
post_chosen none = answer (send_error_json 404 "Not found")
post_chosen (some h) = run h

abbrev pub unauthorized : Reply
unauthorized = send_error_json 401 "Not authenticated"

module _ (R : Runtime) where
  -- `{"authenticated": user is not None, "username": user}`
  check_reply : Json → Reply
  check_reply null =
      send_json (obj (field "authenticated" (bool false) (field "username" null end))) 200
  check_reply user =
      send_json (obj (field "authenticated" (bool true) (field "username" user end))) 200

  unfoldable pub do_get : String → Option String → Exec (Dash R) GetChoice
  unfolding check_reply
  do_get path cookie =
      if path == "/api/auth/check"
      then (do user ← get_session_user R cookie; pure (answer (check_reply user)))
      else if starts_with path "/api/"
      then (do
        user ← get_session_user R cookie
        pure
            (if truthy user then get_chosen (Dict.lookup path get_routes) else answer unauthorized))
      else pure (static (static_path path))

  unfoldable pub do_post : String → Option String → Exec (Dash R) PostChoice
  do_post path cookie =
      if path == "/api/auth/login"
      then pure login
      else if path == "/api/auth/logout"
      then pure logout
      else (do
        user ← get_session_user R cookie
        pure (
            if truthy user
            then post_chosen (Dict.lookup path post_routes)
            else answer unauthorized))
