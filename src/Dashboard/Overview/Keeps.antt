-- ===== src/Dashboard/Overview/Keeps.antt =====
-- The sessions beside the reports of dashboard/server.py.
use noumena_mcp_gateway_poc.Base.{◌≡◌, refl, ◌∙◌, String, List, [], ◌∷◌, Bool, true, false}
use noumena_mcp_gateway_poc.Base.Exec.Keeps.{Keeps, Keeps-bind}
use noumena_mcp_gateway_poc.Base.Json.{Json, Fields, end}
use noumena_mcp_gateway_poc.Base.World.{Runtime}
use noumena_mcp_gateway_poc.Dashboard.State.{Dash, Config}
use noumena_mcp_gateway_poc.Dashboard.State.Keeps.{sessions, keeps_sessions}
use noumena_mcp_gateway_poc.Dashboard.Store.Keeps.{keeps_store}
use noumena_mcp_gateway_poc.Dashboard.Overview.{
  check, check_all, checks, status_reply, ask_source, fetch, fetch_all, metrics_reply, plain_get,
  handle_status, handle_metrics, bundle_of, handle_bundle,
}
use noumena_mcp_gateway_poc.Dashboard.State.{now}
use noumena_mcp_gateway_poc.Dashboard.State.Keeps.{Keeps-send, Keeps-now}

module _ (R : Runtime) (cfg : Config) where
  sessions-check_all :
      (services : List (String × String)) (status : Fields) (d : Dash R)
      → (check_all R cfg services status d).1.sessions ≡ d.sessions
  unfolding check_all check
  sessions-check_all [] status d = refl
  sessions-check_all ((name, url) ∷ rest) status d =
      sessions-check_all rest _ _ ∙ (Keeps-send (plain_get url)).at d

  pub Keeps-status : Keeps sessions (handle_status R cfg)
  unfolding handle_status status_reply
  Keeps-status =
      Keeps-bind now _ Keeps-now (λ t. record { at = sessions-check_all (checks R cfg) _ })

  Keeps-ask_source : (url : String) → Keeps sessions (ask_source R cfg url)
  unfolding ask_source
  Keeps-ask_source url = search keeps_sessions

  sessions-fetch_all :
      (sources : List (String × String)) (results : Fields) (d : Dash R)
      → (fetch_all R cfg sources results d).1.sessions ≡ d.sessions
  unfolding fetch_all fetch
  sessions-fetch_all [] results d = refl
  sessions-fetch_all ((name, url) ∷ rest) results d =
      sessions-fetch_all rest _ _ ∙ (Keeps-ask_source url).at d

  pub Keeps-metrics :
      (completed : List (String × String)) (all_done : Bool)
      → Keeps sessions (handle_metrics R cfg completed all_done)
  unfolding handle_metrics metrics_reply
  Keeps-metrics completed true = record { at = sessions-fetch_all completed end }
  Keeps-metrics completed false = record { at = sessions-fetch_all completed end }

  Keeps-bundle_of : (sid : Json) → Keeps sessions (bundle_of R cfg sid)
  unfolding bundle_of
  Keeps-bundle_of sid = search keeps_store depth 24

  pub Keeps-bundle : Keeps sessions (handle_bundle R cfg)
  unfolding handle_bundle
  Keeps-bundle = search (keeps_store, Keeps-bundle_of) depth 14
