-- ===== src/Dashboard/UserList/Keeps.antt =====
-- The sessions beside `handle_get_users` of dashboard/server.py.
use noumena_mcp_gateway_poc.Base.Exec.Keeps.{Keeps, Keeps-bind}
use noumena_mcp_gateway_poc.Base.Json.{Json, Items, nil, cons}
use noumena_mcp_gateway_poc.Base.World.{Runtime}
use noumena_mcp_gateway_poc.Dashboard.State.{Config}
use noumena_mcp_gateway_poc.Dashboard.State.Keeps.{sessions, keeps_sessions}
use noumena_mcp_gateway_poc.Dashboard.Users.Keeps.{Keeps-get_kc_admin_token}
use noumena_mcp_gateway_poc.Dashboard.UserList.{
  user_entry, user_entries, list_users, handle_get_users,
}

module _ (R : Runtime) (cfg : Config) where
  Keeps-user_entry : (u : Json) → Keeps sessions (user_entry R cfg u)
  unfolding user_entry
  Keeps-user_entry u = search keeps_sessions depth 40

  Keeps-user_entries : (its users : Items) → Keeps sessions (user_entries R cfg users its)
  unfolding user_entries
  Keeps-user_entries nil users = search keeps_sessions
  Keeps-user_entries (cons u rest) users =
      Keeps-bind (user_entry R cfg u) _ (Keeps-user_entry u) (λ entry. Keeps-user_entries rest _)

  listed : (users its : Items) → Keeps sessions (user_entries R cfg users its)
  listed users its = Keeps-user_entries its users

  pub Keeps-list_users : (token : Json) → Keeps sessions (list_users R cfg token)
  unfolding list_users
  Keeps-list_users token = search keeps_sessions

  pub Keeps-get_users : Keeps sessions (handle_get_users R cfg)
  unfolding handle_get_users
  Keeps-get_users =
      search (keeps_sessions, Keeps-get_kc_admin_token, Keeps-list_users, listed) depth 24
