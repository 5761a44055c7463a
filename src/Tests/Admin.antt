-- ===== src/Tests/Admin.antt =====
-- The dashboard in the test world.
use noumena_mcp_gateway_poc.Base.{
  leb, ◌≢◌, ℕ, ◌+◌, ◌≡◌, refl, String, true, none, some, List, [], ◌∷◌, arith, ◌==◌, eq_iff,
  if◌then◌else◌,
}
use noumena_mcp_gateway_poc.Base.Exec.{ok}
use noumena_mcp_gateway_poc.Base.Json.{
  Json, null, bool, str, obj, Fields, end, field, lookup, get, item, truthy, insert, entries,
}
use noumena_mcp_gateway_poc.Base.World.{Response}
use noumena_mcp_gateway_poc.Base.Dict
use noumena_mcp_gateway_poc.Dashboard.Session.{
  Session, session_ttl, create_session, validate_session, end_session,
}
use noumena_mcp_gateway_poc.Dashboard.Session.Lifetime.{Use, used_all, validate-used_all}
use noumena_mcp_gateway_poc.Dashboard.State.{
  Config, Dash, Reply, send, password_grant, now, send_error_json,
}
use noumena_mcp_gateway_poc.Dashboard.Store.{get_store_id, ensure_store_id}
use noumena_mcp_gateway_poc.Dashboard.Store.Discovery.{ensure_store_id_again}
use noumena_mcp_gateway_poc.Dashboard.Login.{
  get_session_user, handle_login, login_with, token_claims, second_piece, pad, admitted, is_admin,
}
use noumena_mcp_gateway_poc.Dashboard.Login.Admission.{
  IsAdmin, handle_login-IsAdmin, handle_login-refused,
}
use noumena_mcp_gateway_poc.Dashboard.Route.{
  GetChoice, PostChoice, do_get, do_post, get_routes, post_routes,
}
use noumena_mcp_gateway_poc.Dashboard.Route
use noumena_mcp_gateway_poc.Dashboard.Route.Gate.{HasSession, do_get-run, do_post-run}
use noumena_mcp_gateway_poc.Dashboard.Backends.{
  unreadable, holds, read_mcp_config, add_backend_to_config, backends, with_backend,
  write_and_restart, urls,
}
use noumena_mcp_gateway_poc.Dashboard.Backends.Removal.{backends-remove}
use noumena_mcp_gateway_poc.Dashboard.Backends.{remove_backend_from_config, without_backend, erase}
use noumena_mcp_gateway_poc.Dashboard.Backends.Changes.{
  url_of, backends-add, backends-add_unreadable,
}
use noumena_mcp_gateway_poc.Dashboard.Cleanup.{Container, removed_containers, contains}
use noumena_mcp_gateway_poc.Dashboard.Cleanup.Groups.{children}
use noumena_mcp_gateway_poc.Dashboard.Cleanup.Parents.{IsNewestKept, removed_containers-children}
use noumena_mcp_gateway_poc.Base.{◌⊎◌, false}
use noumena_mcp_gateway_poc.Tests.Lab.{lab, at, reply, credentials}
use noumena_mcp_gateway_poc.Base.Exec.{Result}

abbrev pub admin_cfg : Config
admin_cfg = record {
  npl_url = "http://npl";
  keycloak_url = "http://kc";
  keycloak_realm = "r";
  admin_username = "admin";
  admin_password = "p";
  gateway_url = "http://gw";
  opa_url = "http://opa";
  bundle_server_url = "http://bundle";
  envoy_admin_url = "http://envoy";
  aigw_admin_url = "http://aigw";
  docker_network = "net";
  aigw_container_name = "aigw";
}

-- One session, of Ann, until the clock reads 200 seconds; an admin token is held.
abbrev pub ann : Session
ann = record { username = str "ann"; expires = 200000000 }

abbrev pub dash : Json → ℕ → List (Result Response) → Dash lab
dash id clock replies = record {
  sessions = ("t1", ann) ∷ [];
  admin = record { token = str "jwt"; expires = 900000000 };
  gateway = record { token = null; expires = 0 };
  store_id = id;
  world = at clock replies;
}

do_post-run_example :
    HasSession {R = lab} (some "t1") (dash null 100000000 [])
    × (Dict.lookup "/api/users/create" post_routes ≡ some Route.create_user)
unfolding do_post get_session_user validate_session truthy now post_routes Dict.lookup
do_post-run_example =
    do_post-run lab "/api/users/create" (some "t1") (dash null 100000000 []) {h = Route.create_user}
      {d' = dash null 101000000 []} refl

do_get-run_example :
    HasSession {R = lab} (some "t1") (dash null 100000000 [])
    × (Dict.lookup "/api/governance" get_routes ≡ some Route.get_governance)
unfolding do_get get_session_user validate_session truthy now get_routes Dict.lookup
do_get-run_example =
    do_get-run lab "/api/governance" (some "t1") (dash null 100000000 []) {h = Route.get_governance}
      {d' = dash null 101000000 []} refl

abbrev pub token_reply : Result Response
token_reply = reply 200 (obj (field "access_token" (str "h.p.s") end))

abbrev pub bob : Session
bob = record { username = str "bob"; expires = 100000000 + session_ttl }

abbrev bob_reply : Reply
bob_reply = record {
  status = 200;
  cookie = some "session=token; Path=/; HttpOnly; SameSite=Strict; Max-Age=3600";
  body = obj (field "ok" (bool true) (field "username" (str "bob") end));
}

abbrev with_bob : Dash lab
with_bob = record (dash null 101000000 []) { sessions = ("t1", ann) ∷ ("token", bob) ∷ [] }

handle_login-IsAdmin_example :
    (username : Json) × (password : Json) × (get credentials "username" (str "") ≡ ok username)
    × (get credentials "password" (str "") ≡ ok password)
    × ((resp : Response) × (d₁ : Dash lab) × (send
            (password_grant lab admin_cfg username password)
            (dash null 100000000 (token_reply ∷ []))
          ≡ (ok resp, d₁))
        × IsAdmin lab admin_cfg resp)
unfolding handle_login login_with send get item lookup token_claims second_piece pad is_admin
    admitted create_session Dict.insert
handle_login-IsAdmin_example =
    handle_login-IsAdmin lab admin_cfg credentials (dash null 100000000 (token_reply ∷ []))
      {reply = bob_reply} {d' = with_bob} refl refl

-- Keycloak does not know the password.
handle_login-refused_example : (dash null 100000000 []).sessions ≡ ("t1", ann) ∷ []
unfolding handle_login login_with send get lookup send_error_json
handle_login-refused_example =
    handle_login-refused lab admin_cfg credentials (dash null 100000000 (reply 401 null ∷ []))
      {reply = send_error_json 401 "Invalid credentials"} {d' = dash null 100000000 []} refl
      λ e. omega (arith, e)

abbrev uses : List Use
uses = Use.start "t2" (str "eve") 300 ∷ Use.check "t2" 400 ∷ Use.finish "t2" ∷ []

validate-used_all_example :
    let table = used_all uses (create_session "t1" (str "bob") 100 []) in
    ((validate_session "t1" 3600000101 table).0
      ≡ (if leb 3600000101 (100 + session_ttl) then str "bob" else null))
    × ((validate_session "t1" 3600000101 (end_session "t1" table)).0 ≡ null)
validate-used_all_example =
    let apart : ◌≢◌ {A = String} "t2" "t1" = λ e. ground (arith, e, eq_iff "t2" "t1") in
    validate-used_all "t1" (str "bob") 100 3600000101 uses [] (apart, (apart, (apart, tt)))

-- The store is known.
ensure_store_id_again_example :
    ensure_store_id lab admin_cfg (dash (str "s1") 100000000 [])
    ≡ (ok (str "s1"), dash (str "s1") 100000000 [])
unfolding ensure_store_id get_store_id truthy
ensure_store_id_again_example =
    ensure_store_id_again lab admin_cfg (dash (str "s1") 100000000 []) refl refl

abbrev conflict : Response
conflict = record { status_code = 409; text = "no"; headers = []; json = ok null }

abbrev created : Response
created = record { status_code = 200; text = ""; headers = []; json = ok null }

abbrev new_service : Json
new_service = obj (field "serviceName" (str "jira") end)

-- The service is registered, and enabling it fails.
abbrev old_child : Container
old_child = record { name = "x"; parent = "jira"; created = 49 ∷ [] }

abbrev new_child : Container
new_child = record { name = "y"; parent = "jira"; created = 50 ∷ [] }

removed_containers-children_example :
    let removed = children "jira" (removed_containers (old_child ∷ new_child ∷ []) ("jira" ∷ [])) in
    ((contains ("jira" ∷ []) "jira" ≡ false) × (removed ≡ old_child ∷ new_child ∷ []))
    ⊎ ((contains ("jira" ∷ []) "jira" ≡ true) × IsNewestKept (old_child ∷ new_child ∷ []) removed)
removed_containers-children_example =
    removed_containers-children (old_child ∷ new_child ∷ []) ("jira" ∷ []) "jira"
      (λ e. absurd (ground (arith, e, eq_iff "jira" "")))

abbrev url_entry : String → Json
url_entry url = obj (field "url" (str url) end)

abbrev with_servers : Fields → Json
with_servers d = obj (field "mcpServers" (obj d) end)

abbrev one_server : Fields
one_server = field "slack" (url_entry "http://slack") end

abbrev two_servers : Fields
two_servers = field "slack" (url_entry "http://slack") (field "jira" (url_entry "http://jira") end)

backends-add_example :
    lookup "slack" (field "slack" (str "http://slack") (field "jira" (str "http://jira") end))
    ≡ (if "jira" == "slack" then some (str "http://jira") else url_of (lookup "slack" one_server))
unfolding read_mcp_config add_backend_to_config with_backend write_and_restart backends urls get
    lookup insert entries
backends-add_example =
    backends-add "jira" "http://jira" "slack"
      (record { file = holds (with_servers one_server); restarts = 0 })
      {g' = record { file = holds (with_servers two_servers); restarts = 1 }} {servers = one_server}
      {out = field "slack" (str "http://slack") (field "jira" (str "http://jira") end)} refl refl
      refl

backends-remove_example :
    lookup "jira" (field "slack" (str "http://slack") end)
    ≡ (if "jira" == "jira" then none else url_of (lookup "jira" two_servers))
unfolding read_mcp_config remove_backend_from_config without_backend erase write_and_restart
    backends urls get lookup insert entries
backends-remove_example =
    backends-remove "jira" "jira" (record { file = holds (with_servers two_servers); restarts = 0 })
      {g' = record { file = holds (with_servers one_server); restarts = 1 }} {servers = two_servers}
      {out = field "slack" (str "http://slack") end} refl refl refl

backends-add_unreadable_example :
    lookup "slack" (field "jira" (str "http://jira") end)
    ≡ (if "jira" == "slack" then some (str "http://jira") else none)
unfolding read_mcp_config add_backend_to_config with_backend write_and_restart backends urls get
    lookup insert entries
backends-add_unreadable_example =
    backends-add_unreadable "jira" "http://jira" "slack"
      (record { file = unreadable; restarts = 0 })
      {g' = record {
        file = holds (with_servers (field "jira" (url_entry "http://jira") end));
        restarts = 1;
      }}
      {out = field "jira" (str "http://jira") end} refl refl refl
