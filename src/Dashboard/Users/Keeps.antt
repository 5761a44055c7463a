-- ===== src/Dashboard/Users/Keeps.antt =====
-- The sessions beside the handlers that change Keycloak's users.
use noumena_mcp_gateway_poc.Base.{Option, none, some}
use noumena_mcp_gateway_poc.Base.Exec.Keeps.{Keeps, Keeps-lift}
use noumena_mcp_gateway_poc.Base.Json.{obj, Json, Fields, lookup}
use noumena_mcp_gateway_poc.Base.World.{Runtime, Response}
use noumena_mcp_gateway_poc.Dashboard.State.{Config}
use noumena_mcp_gateway_poc.Dashboard.State.Keeps.{sessions, keeps_sessions}
use noumena_mcp_gateway_poc.Dashboard.Users.{
  get_kc_admin_token, after_create, handle_create_user, reset_to, reset_password, update_user,
  handle_update_user, handle_delete_user,
}

module _ (R : Runtime) (cfg : Config) where
  pub Keeps-get_kc_admin_token : Keeps sessions (get_kc_admin_token R cfg)
  unfolding get_kc_admin_token
  Keeps-get_kc_admin_token = search keeps_sessions depth 14

  Keeps-after_create : (resp : Response) → Keeps sessions (after_create R cfg resp)
  unfolding after_create
  Keeps-after_create resp = search keeps_sessions depth 14

  pub Keeps-create_user : (body : Json) → Keeps sessions (handle_create_user R cfg body)
  unfolding handle_create_user
  Keeps-create_user body =
      search (keeps_sessions, Keeps-get_kc_admin_token, Keeps-after_create) depth 14

  Keeps-reset_to :
      (token id : Json) (password : Option Json) → Keeps sessions (reset_to R cfg token id password)
  unfolding reset_to
  Keeps-reset_to token id none = search keeps_sessions
  Keeps-reset_to token id (some password) = search keeps_sessions depth 14

  Keeps-reset_password :
      (token id : Json) (d : Fields) → Keeps sessions (reset_password R cfg token id d)
  unfolding reset_password
  Keeps-reset_password token id d = Keeps-reset_to token id (lookup "password" d)

  Keeps-update_user : (token body : Json) → Keeps sessions (update_user R cfg token body)
  unfolding update_user
  Keeps-update_user token (obj d) = search (keeps_sessions, Keeps-reset_password) depth 14
  Keeps-update_user token _ = Keeps-lift _

  pub Keeps-update_user_handler : (body : Json) → Keeps sessions (handle_update_user R cfg body)
  unfolding handle_update_user
  Keeps-update_user_handler body =
      search (keeps_sessions, Keeps-get_kc_admin_token, Keeps-update_user) depth 14

  pub Keeps-delete_user : (body : Json) → Keeps sessions (handle_delete_user R cfg body)
  unfolding handle_delete_user
  Keeps-delete_user body = search (keeps_sessions, Keeps-get_kc_admin_token) depth 24
