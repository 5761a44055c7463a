-- ===== src/Dashboard/Constraints/Keeps.antt =====
-- The sessions beside `handle_get_constraints` of dashboard/server.py.
use noumena_mcp_gateway_poc.Base.{◌≡◌, refl, ◌∙◌, String}
use noumena_mcp_gateway_poc.Base.Exec.{lift}
use noumena_mcp_gateway_poc.Base.Exec.Keeps.{Keeps, Keeps-bind, Keeps-lift, Keeps-if}
use noumena_mcp_gateway_poc.Base.Json.{Json, Fields, end, field, str, truthy}
use noumena_mcp_gateway_poc.Base.World.{Runtime}
use noumena_mcp_gateway_poc.Dashboard.State.{Dash, Config, get_gateway_token}
use noumena_mcp_gateway_poc.Dashboard.State.Keeps.{sessions, Keeps-get_gateway_token}
use noumena_mcp_gateway_poc.Dashboard.Store.Keeps.{keeps_store}
use noumena_mcp_gateway_poc.Dashboard.Governance.{get_guardrails_instances, lookup_value}
use noumena_mcp_gateway_poc.Dashboard.Governance.Keeps.{Keeps-get_guardrails_instances}
use noumena_mcp_gateway_poc.Dashboard.Instances.Keeps.{Keeps-post_empty}
use noumena_mcp_gateway_poc.Dashboard.Constraints.{
  guardrails_data, constraints_of, asked_config, all_configs, handle_get_constraints,
}

module _ (R : Runtime) (cfg : Config) where
  Keeps-guardrails_data : (id : Json) → Keeps sessions (guardrails_data R cfg id)
  unfolding guardrails_data
  Keeps-guardrails_data id = search (keeps_store, Keeps-post_empty) depth 14

  Keeps-constraints_of :
      (service : String) (id : Json) → Keeps sessions (constraints_of R cfg service id)
  unfolding constraints_of
  Keeps-constraints_of service id = search (keeps_store, Keeps-guardrails_data) depth 20

  Keeps-asked_config : (token id : Json) → Keeps sessions (asked_config R cfg token id)
  unfolding asked_config
  Keeps-asked_config token id = search (keeps_store, Keeps-post_empty) depth 14

  sessions-all_configs :
      (token : Json) (instances configs : Fields) (d : Dash R)
      → (all_configs R cfg token instances configs d).1.sessions ≡ d.sessions
  unfolding all_configs
  sessions-all_configs token end configs d = refl
  sessions-all_configs token (field svc id rest) configs d =
      sessions-all_configs token rest _ _ ∙ (Keeps-asked_config token id).at d

  pub Keeps-get_constraints :
      (service : String) → Keeps sessions (handle_get_constraints R cfg service)
  unfolding handle_get_constraints
  Keeps-get_constraints service =
      Keeps-bind (get_guardrails_instances R cfg) _ (Keeps-get_guardrails_instances R cfg)
        (λ instances.
          Keeps-if (truthy (str service)) _ _
            (Keeps-bind (lift (lookup_value (str service) instances)) _ (Keeps-lift _)
              (Keeps-constraints_of service))
            (Keeps-bind (get_gateway_token R cfg) _ (Keeps-get_gateway_token R cfg)
              (λ token. record { at = sessions-all_configs token instances end })))
