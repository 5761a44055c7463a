-- ===== src/Dashboard/UserList.antt =====
-- `handle_get_users` of dashboard/server.py
pub mod Keeps
use noumena_mcp_gateway_poc.Base.{String, ◌<>◌, false, none, some, [], if◌then◌else◌}
use noumena_mcp_gateway_poc.Base.Exec.{Exec, Result, ok, err, pure, lift, ◌>>=◌, ◌>>◌}
use noumena_mcp_gateway_poc.Base.Json.{
  Json, null, bool, num, str, arr, obj, Items, nil, cons, end, field, get, item, first, truthy,
  iterate, append,
}
use noumena_mcp_gateway_poc.Base.World.{Runtime, Method, Response}
use noumena_mcp_gateway_poc.Dashboard.State.{Dash, Config, Reply, send, send_json, raise_for_status}
use noumena_mcp_gateway_poc.Dashboard.Users.{or_error, get_kc_admin_token}

module _ (R : Runtime) (cfg : Config) where
  -- `(attrs.get(k) or [""])[0]`
  unfoldable pub first_value : Json → String → Result Json
  first_value attrs k = elim (get attrs k null) [
    | err e ↦ err e
    | ok v ↦ if truthy v then first v else ok (str "")
  ]

  unfoldable pub user_entry : Json → Exec (Dash R) Json
  user_entry u = do
    attrs ← lift (get u "attributes" (obj end))
    id ← lift (item u "id")
    username ← lift (get u "username" (str ""))
    email ← lift (get u "email" (str ""))
    first_name ← lift (get u "firstName" (str ""))
    last_name ← lift (get u "lastName" (str ""))
    enabled ← lift (get u "enabled" (bool false))
    department ← lift (first_value attrs "department")
    organization ← lift (first_value attrs "organization")
    role ← lift (first_value attrs "role")
    pure (
        obj (
          field "id" id (
            field "username" username (
              field "email" email (
                field "firstName" first_name (
                  field "lastName" last_name (
                    field "enabled" enabled (
                      field "department" department
                        (field "organization" organization (field "role" role end))))))))))

  unfoldable pub user_entries : Items → Items → Exec (Dash R) Items
  user_entries users nil = pure users
  user_entries users (cons u rest) = do entry ← user_entry u; user_entries (append users entry) rest

  -- The first hundred users.
  unfoldable pub list_users : Json → Exec (Dash R) Response
  list_users token = send (record {
    method = Method.get;
    url =
        R.with_params (cfg.keycloak_url <> "/admin/realms/" <> cfg.keycloak_realm <> "/users")
          (field "max" (num 100) end);
    bearer = some token;
    extra = [];
    payload = none;
  })

  unfoldable pub handle_get_users : Exec (Dash R) Reply
  handle_get_users = or_error R cfg (do
    token ← get_kc_admin_token R cfg
    resp ← list_users token
    raise_for_status resp
    body ← lift resp.json
    listed ← lift (iterate body)
    users ← user_entries nil listed
    pure (send_json (obj (field "users" (arr users) end)) 200))
