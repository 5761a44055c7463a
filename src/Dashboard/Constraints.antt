-- ===== src/Dashboard/Constraints.antt =====
-- `handle_get_constraints` of dashboard/server.py
pub mod Keeps
use noumena_mcp_gateway_poc.Base.{String, ◌<>◌, Option, none, some, ltb, if◌then◌else◌}
use noumena_mcp_gateway_poc.Base.Exec.{Exec, Result, ok, pure, lift, try_except, ◌>>=◌}
use noumena_mcp_gateway_poc.Base.Json.{Json, str, arr, obj, nil, Fields, end, field, truthy, insert}
use noumena_mcp_gateway_poc.Base.World.{Runtime, Response}
use noumena_mcp_gateway_poc.Dashboard.State.{
  Dash, Config, Reply, send_json, send_error_json, format, get_gateway_token,
}
use noumena_mcp_gateway_poc.Dashboard.Governance.{lookup_value, get_guardrails_instances}
use noumena_mcp_gateway_poc.Dashboard.Instances.{post_empty}

module _ (R : Runtime) (cfg : Config) where
  guardrails_data : Json → Exec (Dash R) Response
  guardrails_data id = do
    token ← get_gateway_token R cfg
    post_empty R cfg token ("/npl/governance/Guardrails/" <> format R id <> "/getGuardrailsData")

  abbrev configs_of : String → Json → Reply
  configs_of service configs =
      send_json (obj (field "configs" configs (field "service" (str service) end))) 200

  -- The guardrails of one service.
  unfoldable pub constraints_of : String → Json → Exec (Dash R) Reply
  unfolding guardrails_data
  constraints_of service id =
      if truthy id
      then try_except
          (do
            resp ← guardrails_data id
            if ltb resp.status_code 400
                then (do configs ← lift resp.json; pure (configs_of service configs))
                else pure (configs_of service (arr nil)))
          (λ e. pure (send_error_json 500 (R.describe e)))
      else pure (configs_of service (arr nil))

  unfoldable pub kept_config : String → Fields → Result (Option Json) → Fields
  kept_config svc configs (ok (some v)) = insert svc v configs
  kept_config svc configs _ = configs

  unfoldable pub asked_config : Json → Json → Exec (Dash R) (Option Json)
  asked_config token id = do
    resp ←
        post_empty R cfg token
          ("/npl/governance/Guardrails/" <> format R id <> "/getGuardrailsData")
    if ltb resp.status_code 400 then (do v ← lift resp.json; pure (some v)) else pure none

  -- The loop over all services; one that raises is passed over.
  unfoldable pub all_configs : Json → Fields → Fields → Dash R → Fields × Dash R
  unfolding kept_config asked_config
  all_configs token end configs d = (configs, d)
  all_configs token (field svc id rest) configs d =
      let (r, d') = asked_config token id d in all_configs token rest (kept_config svc configs r) d'

  abbrev configs_reply : Fields × Dash R → Result Reply × Dash R
  configs_reply (configs, d) = (ok (send_json (obj (field "configs" (obj configs) end)) 200), d)

  -- `service` is the first value of the query's parameter, empty if there is none.
  unfoldable pub handle_get_constraints : String → Exec (Dash R) Reply
  handle_get_constraints service = do
    instances ← get_guardrails_instances R cfg
    if truthy (str service)
        then (do id ← lift (lookup_value (str service) instances); constraints_of service id)
        else (do
          token ← get_gateway_token R cfg
          (λ d. configs_reply (all_configs token instances end d)))
