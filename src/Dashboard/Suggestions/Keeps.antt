-- ===== src/Dashboard/Suggestions/Keeps.antt =====
-- The sessions beside `handle_suggestions` of dashboard/server.py.
use noumena_mcp_gateway_poc.Base.{◌≡◌, refl, ◌∙◌}
use noumena_mcp_gateway_poc.Base.Exec.{Result, lift, Exec, ◌>>◌}
use noumena_mcp_gateway_poc.Base.Exec.Keeps.{Keeps, Keeps-bind, Keeps-lift, keeps_rules}
use noumena_mcp_gateway_poc.Base.Json.{Json, Items, nil, cons, Fields, end, field}
use noumena_mcp_gateway_poc.Base.World.{Runtime}
use noumena_mcp_gateway_poc.Dashboard.Session.{Sessions}
use noumena_mcp_gateway_poc.Dashboard.State.{Dash, Config}
use noumena_mcp_gateway_poc.Dashboard.State.Keeps.{sessions}
use noumena_mcp_gateway_poc.Dashboard.Store.Keeps.{keeps_store, Keeps-get_store_id}
use noumena_mcp_gateway_poc.Dashboard.Users.Keeps.{Keeps-get_kc_admin_token}
use noumena_mcp_gateway_poc.Dashboard.UserList.Keeps.{Keeps-list_users}
use noumena_mcp_gateway_poc.Dashboard.Suggestions.{
  Sets, Suggested, Form, nothing_yet, on_dash, update, tool_names, add_tools, suggest_catalog,
  bundle_data, suggest_services, suggest_user, suggest_each, suggest_users, answered,
  handle_suggestions,
}

module _ {R : Runtime} where
  abbrev kept : Form R → Sessions
  kept f = f.dash.sessions

  Keeps-on_dash : {A : Type 0} (m : Exec (Dash R) A) → Keeps sessions m → Keeps kept (on_dash m)
  Keeps-on_dash m km = record { at = λ f. km.at f.dash }

  Keeps-update : (g : Suggested → Suggested) → Keeps kept (update {R = R} g)
  Keeps-update g = record { at = λ f. refl }

ruleset keeps_form = (
  keeps_rules, Keeps-on_dash, Keeps-update, Keeps-get_store_id, Keeps-get_kc_admin_token,
  Keeps-list_users,
)

module _ (R : Runtime) (cfg : Config) where
  Keeps-add_tools : (d : Fields) → Keeps kept (add_tools R cfg d)
  unfolding add_tools
  Keeps-add_tools end = search keeps_form
  Keeps-add_tools (field svc info rest) =
      Keeps-bind (lift (tool_names R cfg info)) _ (Keeps-lift _)
        (λ names. Keeps-bind (update _) _ (Keeps-update _) (λ _. Keeps-add_tools rest))

  Keeps-suggest_catalog : (body : Json) → Keeps kept (suggest_catalog R cfg body)
  unfolding suggest_catalog
  Keeps-suggest_catalog body = search (keeps_form, Keeps-add_tools) depth 14

  Keeps-bundle_data : (sid : Json) → Keeps sessions (bundle_data R cfg sid)
  unfolding bundle_data
  Keeps-bundle_data sid = search keeps_store depth 14

  Keeps-suggest_services : Keeps kept (suggest_services R cfg)
  unfolding suggest_services
  Keeps-suggest_services = search (keeps_form, Keeps-bundle_data, Keeps-suggest_catalog) depth 14

  Keeps-suggest_user : (u : Json) (s : Sets) → Keeps kept (suggest_user R cfg u s)
  unfolding suggest_user
  Keeps-suggest_user u s = search keeps_form depth 40

  Keeps-suggest_each : (its : Items) (s : Sets) → Keeps kept (suggest_each R cfg its s)
  unfolding suggest_each
  Keeps-suggest_each nil s = search keeps_form
  Keeps-suggest_each (cons u rest) s =
      Keeps-bind (suggest_user R cfg u s) _ (Keeps-suggest_user u s) (Keeps-suggest_each rest)

  Keeps-suggest_users : Keeps kept (suggest_users R cfg)
  unfolding suggest_users
  Keeps-suggest_users = search (keeps_form, Keeps-suggest_each) depth 20

  sessions-answered : (r : Result (Unit {0}) × Form R) → (answered R cfg r).1.sessions ≡ kept r.1
  unfolding answered
  sessions-answered (r, f) = refl

  pub Keeps-suggestions : Keeps sessions (handle_suggestions R cfg)
  unfolding handle_suggestions
  Keeps-suggestions = record {
    at = λ d.
        let both =
          Keeps-bind (suggest_services R cfg) (λ _. suggest_users R cfg) Keeps-suggest_services
            (λ _. Keeps-suggest_users) in
        sessions-answered (
          (suggest_services R cfg >> suggest_users R cfg)
            (record { dash = d; found = nothing_yet }))
        ∙ both.at (record { dash = d; found = nothing_yet });
  }
