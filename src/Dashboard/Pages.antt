-- ===== src/Dashboard/Pages.antt =====
-- A GET, HEAD or OPTIONS request to dashboard/server.py: the handler or the static file that its
-- path names.
pub mod Keeps
pub mod Access
pub mod Head
use noumena_mcp_gateway_poc.Base.{
  ◌<>◌, String, Bool, true, Option, none, some, List, [], ◌∷◌, ℕ, if◌then◌else◌,
}
use noumena_mcp_gateway_poc.Base.Exec.{Exec, Result, ok, pure, lift, try_except, ◌>>=◌}
use noumena_mcp_gateway_poc.Base.Json.{obj}
use noumena_mcp_gateway_poc.Base.Text.{ends_with, strip_slashes}
use noumena_mcp_gateway_poc.Base.World.{Runtime}
use noumena_mcp_gateway_poc.Dashboard.State.{Dash, Config, Reply, send_json, send_error_json}
use noumena_mcp_gateway_poc.Dashboard.Backends.{File, backends}
use noumena_mcp_gateway_poc.Dashboard.Overview.{handle_status, handle_metrics, handle_bundle}
use noumena_mcp_gateway_poc.Dashboard.Approvals.{handle_get_approvals}
use noumena_mcp_gateway_poc.Dashboard.Constraints.{handle_get_constraints}
use noumena_mcp_gateway_poc.Dashboard.UserList.{handle_get_users}
use noumena_mcp_gateway_poc.Dashboard.Governance.{handle_get_governance}
use noumena_mcp_gateway_poc.Dashboard.Instances.{handle_get_protocols}
use noumena_mcp_gateway_poc.Dashboard.Search.{handle_dockerhub_search, handle_registry_search}
use noumena_mcp_gateway_poc.Dashboard.Suggestions.{handle_suggestions}
use noumena_mcp_gateway_poc.Dashboard.Tools.{handle_tool_schemas}
use noumena_mcp_gateway_poc.Dashboard.Proxy.{Upstream, Proxy, handle_sse_proxy}
use noumena_mcp_gateway_poc.Dashboard.Docker.{Docker, Host, on_dash}
use noumena_mcp_gateway_poc.Dashboard.Containers.{handle_docker_containers}
use noumena_mcp_gateway_poc.Dashboard.Server.{sent, on_reply}
use noumena_mcp_gateway_poc.Dashboard.Route.{GetHandler, GetChoice, do_get}

-- The static folder, by paths relative to it.
pub record Folder (R : Runtime) : Type 0 where
  pub is_file : String → R.World → Bool × R.World
  pub read_bytes : String → R.World → Result R.Bytes × R.World

-- What comes from outside while a handler runs: the sources of the metrics that were done in time,
-- in order, and whether all were; NPL's stream.
pub record Given : Type 0 where
  pub completed : List (String × String)
  pub all_done : Bool
  pub upstream : Upstream

-- What the browser gets: an answer with a JSON body, what the handler has written itself, or a
-- file with its content type and its length, and its content unless that is left out.
pub data Page (R : Runtime) : Type 0 where
  json : Reply → Page R
  streamed : Page R
  static_file : String → ℕ → Option R.Bytes → Page R

unfoldable pub content_type : String → String
content_type path =
    if ends_with path ".css"
    then "text/css"
    else if ends_with path ".js"
    then "application/javascript"
    else if ends_with path ".svg"
    then "image/svg+xml"
    else if ends_with path ".png"
    then "image/png"
    else "text/html"

-- The status and the headers of the answer to OPTIONS.
abbrev pub do_options : ℕ × List (String × String)
do_options = (
  204,
  ("Access-Control-Allow-Origin", "*")
      ∷ ("Access-Control-Allow-Methods", "GET, POST, DELETE, OPTIONS")
      ∷ ("Access-Control-Allow-Headers", "Content-Type")
      ∷ ("Content-Length", "0")
      ∷ ("Connection", "close")
      ∷ [],
)

module _ (R : Runtime) where
  abbrev pub page_of : Option Reply → Page R
  page_of none = Page.streamed
  page_of (some reply) = Page.json reply

  -- A file that cannot be read counts as empty.
  unfoldable pub handle_get_backends : File → Exec (Dash R) Reply
  handle_get_backends file =
      try_except (do urls ← lift (backends file); pure (send_json (obj urls) 200))
        (λ e. pure (send_error_json 500 ("Failed to read aigw config: " <> R.describe e)))

module _ (R : Runtime) (F : Folder R) where
  abbrev on_world : {A : Type 0} → Host R → A × R.World → A × Host R
  on_world h (a, w) = (a, record h { dash = record h.dash { world = w } })

  abbrev asked : Host R → Bool × R.World → Result Bool × Host R
  asked h (b, w) = (ok b, record h { dash = record h.dash { world = w } })

  -- `file_path.is_file()`
  abbrev is_there : String → Exec (Host R) Bool
  is_there path h = asked h (F.is_file path h.dash.world)

  -- `file_path.read_bytes()`
  abbrev contents : String → Exec (Host R) R.Bytes
  contents path h = on_world h (F.read_bytes path h.dash.world)

  file_page : Bool → String → R.Bytes → Page R
  file_page head path content =
      Page.static_file (content_type path) (R.byte_length content)
        (if head then none else some content)

  -- The static file of a path; `head` for a HEAD request.
  unfoldable pub send_file : Bool → String → Exec (Host R) (Page R)
  unfolding file_page
  send_file head path = do
    there ← is_there (strip_slashes path)
    if there
        then (do content ← contents (strip_slashes path); pure (file_page head path content))
        else pure (Page.json (send_error_json 404 "Not found"))

module _ (R : Runtime) (D : Docker R) (cfg : Config) where
  abbrev proxied : Host R → Proxy R → Result (Option Reply) × Host R
  proxied h p = (ok none, record h { dash = p.dash; wire = p.wire })

  -- The handler of an entry of the table of routes; `none`: the handler has sent its answer itself.
  -- `param` gives the first value of a parameter of the query, empty if there is none.
  unfoldable pub get_handler : (String → String) → Given → GetHandler → Exec (Host R) (Option Reply)
  get_handler param g GetHandler.metrics = on_reply (handle_metrics R cfg g.completed g.all_done)
  get_handler param g GetHandler.status = on_reply (handle_status R cfg)
  get_handler param g GetHandler.bundle = on_reply (handle_bundle R cfg)
  get_handler param g GetHandler.get_approvals = on_reply (handle_get_approvals R cfg)
  get_handler param g GetHandler.get_users = on_reply (handle_get_users R cfg)
  get_handler param g GetHandler.get_governance = on_reply (handle_get_governance R cfg)
  get_handler param g GetHandler.get_protocols = on_reply (handle_get_protocols R cfg)
  get_handler param g GetHandler.dockerhub_search = on_reply (handle_dockerhub_search R (param "q"))
  get_handler param g GetHandler.registry_search = on_reply (handle_registry_search R (param "q"))
  get_handler param g GetHandler.docker_containers = sent (handle_docker_containers R D cfg)
  get_handler param g GetHandler.get_backends =
      λ h. on_reply (handle_get_backends R h.gateway.file) h
  get_handler param g GetHandler.suggestions = on_reply (handle_suggestions R cfg)
  get_handler param g GetHandler.tool_schemas =
      λ h. on_reply (handle_tool_schemas R (param "service") h.gateway.file) h
  get_handler param g GetHandler.get_constraints =
      on_reply (handle_get_constraints R cfg (param "service"))
  get_handler param g GetHandler.sse_proxy =
      λ h. proxied h (handle_sse_proxy R cfg g.upstream (record { dash = h.dash; wire = h.wire }))

module _ (R : Runtime) (D : Docker R) (F : Folder R) (cfg : Config) where
  unfoldable pub got : Bool → (String → String) → Given → GetChoice → Exec (Host R) (Page R)
  got head param g (GetChoice.answer reply) = pure (Page.json reply)
  got head param g (GetChoice.run handler) = do
    answer ← get_handler R D cfg param g handler
    pure (page_of R answer)
  got head param g (GetChoice.static path) = send_file R F head path

  -- `do_GET`, given the path of the request, the value of its cookie `session` and its parameters.
  unfoldable pub serve_get :
      Bool → String → Option String → (String → String) → Given → Exec (Host R) (Page R)
  serve_get head path cookie param g = do
    choice ← on_dash (do_get R path cookie)
    got head param g choice

  unfoldable pub do_head :
      String → Option String → (String → String) → Given → Exec (Host R) (Page R)
  do_head path cookie param g = serve_get true path cookie param g
