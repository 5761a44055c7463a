-- ===== src/Lib.antt =====
-- The control plane of the NOUMENA MCP gateway.
--
-- Two Python servers stand beside the gateway. bundle-server/server.py fetches the policy data
-- from the NPL engine, packs it into a bundle for OPA and serves it over HTTP; it listens to
-- NPL's event stream and rebuilds the bundle after each state event. dashboard/server.py is the
-- administrators' web application: it logs them in through Keycloak, changes the catalog, the
-- guardrails and the workflows in NPL, keeps the list of backends in the AI gateway's
-- configuration file, and sweeps up containers that have lost their parent.
--
-- Base holds what both share. Base.Json has the values that `json.loads` gives, with the Python
-- operations used on them, the exceptions that these raise included. Base.Exec is code that
-- changes a state and may raise: what was written before an exception stays written. Base.World
-- is the outside, a record `Runtime` that is a parameter of all code: the clock, the HTTP
-- client, JSON text, SHA-256, tar archives, secrets, base64. Nothing is assumed of it.
--
-- BundleServer, for bundle-server/server.py:
--   Client      `TokenManager`: `get_token`, `_refresh`
--   Transform   the loops of `fetch_npl_data` that rewrite what NPL returns
--   Governance  its steps 3 to 5: guardrails, workflows, authorizations
--   Fetch       `fetch_npl_data`
--   Build       `build_bundle`
--   Server      the module's variables and `rebuild`
--   Handler     `BundleHandler`
--   Listener    `sse_listener`
--   Debounce    `rebuild_loop`, statement by statement, beside the threads that signal
--   Overlap     `rebuild` part by part, in the two threads that call it, beside requests
--   System      `main`: turns of the threads, in any order
--
-- Dashboard, for dashboard/server.py:
--   Session     `create_session`, `validate_session`
--   State       the module's variables, `get_admin_token`, `_get_gateway_token`, the replies
--   Store       `get_store_id`, `ensure_store_id`, `npl_post`
--   Catalog     the handlers for services, tools, access rules and revocations
--   Governance  the handlers for guardrails and workflows
--   Login       `handle_login`, `handle_logout`, `get_session_user`
--   Route       `do_GET` and `do_POST` up to the choice of the handler
--   Instances   the handlers that create instances of the protocols or list them
--   Approvals   the handlers for requests that wait for approval
--   Constraints `handle_get_constraints`
--   Users       the handlers that change Keycloak's users
--   UserList    `handle_get_users`
--   Tools       `_discover_tools`, `_parse_mcp_response`, `handle_tool_schemas`
--   Proxy       `handle_sse_proxy`
--   Envoy       `_parse_envoy_stats`
--   Overview    `handle_status`, `handle_metrics`, `handle_bundle`
--   Suggestions `handle_suggestions`
--   Search      `handle_dockerhub_search`, `handle_registry_search`
--   Backends    the configuration file of the AI gateway
--   Docker      Docker as a parameter, `find_supergateway_image`, `handle_docker_pull`
--   Launch      the steps of `handle_docker_wire` up to the container that runs
--   Wiring      its other steps: backend, tools, catalog
--   Containers  `handle_docker_stop`, `handle_docker_containers`
--   Server      `read_body` and `do_POST` with all of its handlers
--   Pages       `do_GET` with all of its handlers and the static files, `do_HEAD`, `do_OPTIONS`
--   Cleanup     which containers `cleanup_orphaned_containers` removes
--   Sweep       its calls of Docker, and the loop of `_start_cleanup_daemon`
--   System      `main`: the first sweep, then requests and sweeps, in any order
--
-- Base.Text has the methods of `str` that the dashboard uses on texts that it parses. The child
-- modules named Keeps say, for each handler, which part of the state it leaves as it is; Server
-- puts them together for whole requests.
--
-- A state is a record of the module's variables with the world, and an operation gives a new
-- one. `None` is `none`, or `null` where the variable holds a value from a JSON text. All loops
-- of the source that end are structural recursions; a loop that runs for ever is a function of
-- the list of its rounds, and no fuel is used.
--
-- JSON numbers are natural numbers: the servers compute with none but lifetimes in whole
-- seconds. Times are natural numbers of microseconds. A subtraction that Python would carry
-- below zero stops at zero: a clock that is set back before a bundle's build time gives the age
-- zero, which is as little stale as a negative one. A key of a dict that is no text raises a
-- type error, where Python takes a number too.
--
-- A turn in System is a whole rebuild, a whole round of the listener or a whole request. Overlap
-- splits a rebuild where another thread can see a difference: after the fetch, after the build,
-- after the assignments under the lock, after the count and after the event; an increment of a
-- count and one thread's fetch are not split further. Debounce splits the rebuild loop into its
-- statements. A call of `get_token` is atomic by its lock. In Dashboard.System too a turn is a whole
-- request or a whole turn of the daemon, although the threads of the dashboard's server may take
-- turns within them.
--
-- Docker's library is a record `Docker`, a parameter: its calls read and change the world and may
-- raise, and nothing is assumed of them but what a theorem's own hypotheses say. A stream of
-- events, to or from the dashboard, is the list of its lines or of the texts written; a write
-- raises once the browser is gone, which is after a given number of writes. The pool of threads
-- of `handle_metrics` asks its sources in a given order of completion. Where the source puts a
-- value that is no text into a set or takes it for a key, the model raises a type error.
--
-- Writing the configuration file succeeds, and reading it gives what was written. The static folder
-- is a record `Folder`, a parameter, by paths relative to it. Headers that only name a content type
-- of JSON, timeouts, logging and the parsing of URLs and cookies are left out: a request comes with
-- its path and the value of its cookie, and a GET request with a function that gives the first value
-- of each parameter. Not modelled are the parts of the repository in other languages.
pub mod Base
pub mod BundleServer
pub mod Dashboard
pub mod Tests
