-- ===== src/Dashboard/Approvals/Keeps.antt =====
-- The sessions beside the handlers of requests for approval.
use noumena_mcp_gateway_poc.Base.Exec.Keeps.{Keeps}
use noumena_mcp_gateway_poc.Base.Json.{Json}
use noumena_mcp_gateway_poc.Base.World.{Runtime}
use noumena_mcp_gateway_poc.Dashboard.State.{Config}
use noumena_mcp_gateway_poc.Dashboard.State.Keeps.{sessions}
use noumena_mcp_gateway_poc.Dashboard.Store.Keeps.{keeps_store}
use noumena_mcp_gateway_poc.Dashboard.Approvals.{handle_approve, handle_deny}
use noumena_mcp_gateway_poc.Base.{◌≡◌, refl, ◌∙◌}
use noumena_mcp_gateway_poc.Base.Exec.Keeps.{Keeps-bind}
use noumena_mcp_gateway_poc.Base.Json.{Items, nil, Fields, end, field}
use noumena_mcp_gateway_poc.Dashboard.State.{Dash, get_admin_token}
use noumena_mcp_gateway_poc.Dashboard.State.Keeps.{Keeps-get_admin_token}
use noumena_mcp_gateway_poc.Dashboard.Governance.{get_workflow_instances}
use noumena_mcp_gateway_poc.Dashboard.Governance.Keeps.{Keeps-get_workflow_instances}
use noumena_mcp_gateway_poc.Dashboard.Instances.Keeps.{Keeps-post_empty}
use noumena_mcp_gateway_poc.Dashboard.Approvals.{
  pending_requests, asked_pending, pending_of, handle_get_approvals,
}

module _ (R : Runtime) (cfg : Config) where
  pub Keeps-approve : (body : Json) → Keeps sessions (handle_approve R cfg body)
  unfolding handle_approve
  Keeps-approve body = search keeps_store depth 24

  pub Keeps-deny : (body : Json) → Keeps sessions (handle_deny R cfg body)
  unfolding handle_deny
  Keeps-deny body = search keeps_store depth 24

  Keeps-pending_requests : (token id : Json) → Keeps sessions (pending_requests R cfg token id)
  unfolding pending_requests
  Keeps-pending_requests token id = search (keeps_store, Keeps-post_empty) depth 14

  sessions-pending_of :
      (token : Json) (instances : Fields) (pending : Items) (d : Dash R)
      → (pending_of R cfg token instances pending d).1.sessions ≡ d.sessions
  unfolding pending_of asked_pending
  sessions-pending_of token end pending d = refl
  sessions-pending_of token (field svc id rest) pending d =
      sessions-pending_of token rest _ _ ∙ (Keeps-pending_requests token id).at d

  pub Keeps-get_approvals : Keeps sessions (handle_get_approvals R cfg)
  unfolding handle_get_approvals
  Keeps-get_approvals =
      Keeps-bind (get_workflow_instances R cfg) _ (Keeps-get_workflow_instances R cfg) (λ instances.
        Keeps-bind (get_admin_token R cfg) _ (Keeps-get_admin_token R cfg)
          (λ token. record { at = sessions-pending_of token instances nil }))
