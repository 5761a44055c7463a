-- ===== src/Dashboard/Approvals.antt =====
-- The handlers of dashboard/server.py for requests that wait for approval.
pub mod Pending
pub mod Keeps
use noumena_mcp_gateway_poc.Base.{String, ◌<>◌, true, ◌&&◌, Option, none, some, ltb, if◌then◌else◌}
use noumena_mcp_gateway_poc.Base.Exec.{Exec, Result, ok, err, pure, lift, try_except, ◌>>=◌, ◌>>◌}
use noumena_mcp_gateway_poc.Base.Json.{
  Json, null, bool, str, arr, obj, Items, nil, cons, Fields, end, field, get, item, truthy, iterate,
  insert, append, set_item, find_value,
}
use noumena_mcp_gateway_poc.Base.World.{Runtime, Response}
use noumena_mcp_gateway_poc.Dashboard.State.{
  Dash, Config, Reply, send_json, send_error_json, acknowledge, format, get_admin_token,
  get_gateway_token, raise_for_status,
}
use noumena_mcp_gateway_poc.Dashboard.Store.{npl_get_with, npl_post_with}
use noumena_mcp_gateway_poc.Dashboard.Governance.{
  lookup_value, get_guardrails_instances, get_workflow_instances,
}
use noumena_mcp_gateway_poc.Dashboard.Instances.{post_empty}

module _ (R : Runtime) (cfg : Config) where
  -- A request with the service and the instance that it belongs to.
  unfoldable pub labelled : String → Json → Json → Result Json
  labelled svc id req = elim (set_item req "_serviceName" (str svc)) [
    | err e ↦ err e
    | ok req' ↦ set_item req' "_instanceId" id
  ]

  -- `for req in resp.json(): …`: the first request that is no dict ends it.
  unfoldable pub add_pending : String → Json → Items → Items → Items
  add_pending svc id nil pending = pending
  add_pending svc id (cons req rest) pending = elim (labelled svc id req) [
    | err e ↦ pending
    | ok req' ↦ add_pending svc id rest (append pending req')
  ]

  -- None if NPL refuses.
  unfoldable pub pending_requests : Json → Json → Exec (Dash R) Items
  pending_requests token id = do
    resp ←
        post_empty R cfg token ("/npl/governance/Workflow/" <> format R id <> "/getPendingRequests")
    if ltb resp.status_code 400 then (do body ← lift resp.json; lift (iterate body)) else pure nil

  -- The requests that an instance has; none if asking for them raises.
  unfoldable pub asked_pending : Json → Json → Dash R → Items × Dash R
  unfolding pending_requests
  asked_pending token id d =
      let (r, d') = pending_requests token id d in (elim r [ ok reqs ↦ reqs | err e ↦ nil ], d')

  unfoldable pub pending_of : Json → Fields → Items → Dash R → Items × Dash R
  pending_of token end pending d = (pending, d)
  pending_of token (field svc id rest) pending d =
      let (reqs, d') = asked_pending token id d in
      pending_of token rest (add_pending svc id reqs pending) d'

  abbrev pending_reply : Items × Dash R → Result Reply × Dash R
  pending_reply (pending, d) = (ok (send_json (obj (field "pending" (arr pending) end)) 200), d)

  unfoldable pub handle_get_approvals : Exec (Dash R) Reply
  handle_get_approvals = do
    instances ← get_workflow_instances R cfg
    token ← get_admin_token R cfg
    (λ d. pending_reply (pending_of token instances nil d))

  -- The token is asked for before the body is looked at.
  unfoldable pub handle_approve : Json → Exec (Dash R) Reply
  handle_approve body = do
    token ← get_admin_token R cfg
    id ← lift (item body "instanceId")
    request ← lift (item body "requestId")
    resp ←
        npl_post_with R cfg token ("/npl/governance/Workflow/" <> format R id <> "/approve")
          (obj (field "requestId" request end))
    pure (acknowledge resp)

  unfoldable pub handle_deny : Json → Exec (Dash R) Reply
  handle_deny body = do
    token ← get_admin_token R cfg
    id ← lift (item body "instanceId")
    request ← lift (item body "requestId")
    reason ← lift (get body "reason" (str "Denied by admin"))
    resp ←
        npl_post_with R cfg token ("/npl/governance/Workflow/" <> format R id <> "/deny")
          (obj (field "requestId" request (field "reason" reason end)))
    pure (acknowledge resp)
