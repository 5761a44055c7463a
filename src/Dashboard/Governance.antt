-- ===== src/Dashboard/Governance.antt =====
-- The instances of the governance protocols, and the handlers of dashboard/server.py that change
-- guardrails and workflows.
pub mod Keeps
use noumena_mcp_gateway_poc.Base.{String, ◌<>◌, true, ◌&&◌, List, [], ◌∷◌, if◌then◌else◌}
use noumena_mcp_gateway_poc.Base.Exec.{
  Exec, Result, ok, err, type_error, pure, lift, try_except, ◌>>=◌, ◌>>◌,
}
use noumena_mcp_gateway_poc.Base.Json.{
  Json, null, bool, num, str, arr, obj, Items, nil, cons, Fields, end, field, get, truthy, iterate,
  insert, lookup, key_text, or_default,
}
use noumena_mcp_gateway_poc.Base.World.{Runtime}
use noumena_mcp_gateway_poc.Dashboard.State.{
  Dash, Config, Reply, send_json, send_error_json, acknowledge, format, get_admin_token,
  raise_for_status,
}
use noumena_mcp_gateway_poc.Dashboard.Store.{npl_get_with, npl_post_with}

-- `d.get(k)` of a key that may be any value: a list or a dict cannot be looked up.
unfoldable pub lookup_value : Json → Fields → Result Json
unfolding lookup
lookup_value (str k) d = ok (or_default (lookup k d) null)
lookup_value (arr _) d = err type_error
lookup_value (obj _) d = err type_error
lookup_value _ d = ok null

module _ (R : Runtime) (cfg : Config) where
  -- One item: `if svc and iid: result[svc] = iid`
  instance_entry : Json → Fields → Exec (Dash R) Fields
  instance_entry it result = do
    svc ← lift (get it "serviceName" (str ""))
    id ← lift (get it "@id" (str ""))
    if truthy svc && truthy id
        then (do name ← lift (key_text svc); pure (insert name id result))
        else pure result

  unfoldable pub instance_entries : Items → Fields → Exec (Dash R) Fields
  unfolding instance_entry
  instance_entries nil result = pure result
  instance_entries (cons it rest) result = do
    result' ← instance_entry it result
    instance_entries rest result'

  -- The `try` block: nothing if any step of it raises.
  unfoldable pub get_instances : String → Exec (Dash R) Fields
  get_instances path =
      try_except
        (do
          token ← get_admin_token R cfg
          resp ← npl_get_with R cfg token path
          raise_for_status resp
          body ← lift resp.json
          items ← lift (get body "items" (arr nil))
          listed ← lift (iterate items)
          instance_entries listed end)
        (λ e. pure end)

  unfoldable pub get_guardrails_instances : Exec (Dash R) Fields
  unfolding get_instances
  get_guardrails_instances = get_instances "/npl/governance/Guardrails/"

  unfoldable pub get_workflow_instances : Exec (Dash R) Fields
  unfolding get_instances
  get_workflow_instances = get_instances "/npl/governance/Workflow/"

  unfoldable pub handle_get_governance : Exec (Dash R) Reply
  unfolding get_guardrails_instances get_workflow_instances
  handle_get_governance = do
    guardrails ← get_guardrails_instances
    workflow ← get_workflow_instances
    pure (
        send_json (obj (field "guardrails" (obj guardrails) (field "workflow" (obj workflow) end)))
          200)

  -- `body.get(k, default)` for each entry.
  unfoldable pub pick : Json → List (String × Json) → Exec (Dash R) Fields
  pick body [] = pure end
  pick body ((k, default) ∷ rest) = do
    value ← lift (get body k default)
    others ← pick body rest
    pure (field k value others)

  -- The shape of the handlers that change an instance of the protocol `path`; `kind` names it in
  -- the error message.
  instance_operation :
      Exec (Dash R) Fields
      → String
      → String
      → String
      → (Json → Exec (Dash R) Fields)
      → Json
      → Exec (Dash R) Reply
  instance_operation instances path kind operation payload body = do
    service ← lift (get body "serviceName" (str ""))
    known ← instances
    id ← lift (lookup_value service known)
    if truthy id
        then (do
          token ← get_admin_token R cfg
          payload' ← payload body
          resp ← npl_post_with R cfg token (path <> format R id <> "/" <> operation) (obj payload')
          pure (acknowledge resp))
        else pure
            (send_error_json 404 ("No " <> kind <> " instance for '" <> format R service <> "'"))

  unfoldable pub guardrails_operation : String → List (String × Json) → Json → Exec (Dash R) Reply
  unfolding instance_operation
  guardrails_operation operation entries =
      instance_operation get_guardrails_instances "/npl/governance/Guardrails/" "guardrails"
        operation (λ body. pick body entries)

  unfoldable pub workflow_operation :
      String → (Json → Exec (Dash R) Fields) → Json → Exec (Dash R) Reply
  unfolding instance_operation
  workflow_operation =
      instance_operation get_workflow_instances "/npl/governance/Workflow/" "workflow"

  unfoldable pub handle_add_constraint : Json → Exec (Dash R) Reply
  handle_add_constraint = guardrails_operation "addConstraint" (
      ("toolName", str "")
      ∷ ("paramName", str "")
      ∷ ("operator", str "")
      ∷ ("values", arr nil)
      ∷ ("description", str "")
      ∷ [])

  unfoldable pub handle_remove_constraint : Json → Exec (Dash R) Reply
  handle_remove_constraint =
      guardrails_operation "removeConstraint" (("toolName", str "") ∷ ("paramName", str "") ∷ [])

  unfoldable pub handle_clear_constraints : Json → Exec (Dash R) Reply
  handle_clear_constraints = guardrails_operation "clearConstraints" (("toolName", str "") ∷ [])

  unfoldable pub handle_set_requires_workflow : Json → Exec (Dash R) Reply
  handle_set_requires_workflow =
      workflow_operation "setRequiresWorkflow"
        (λ body. pick body (("toolName", str "") ∷ ("required", bool true) ∷ []))

  unfoldable pub handle_set_deadline : Json → Exec (Dash R) Reply
  handle_set_deadline =
      workflow_operation "setWorkflowDeadline" (λ body. pick body (("deadlineHours", num 168) ∷ []))

  -- The protocol's name for the entry is `desc`.
  described : Json → Exec (Dash R) Fields
  described body = do text ← lift (get body "description" (str "")); pure (field "desc" text end)

  unfoldable pub handle_set_description : Json → Exec (Dash R) Reply
  unfolding described
  handle_set_description = workflow_operation "setWorkflowDescription" described

  unfoldable pub handle_add_allowlist : Json → Exec (Dash R) Reply
  handle_add_allowlist = guardrails_operation "addAllowlist" (
      ("toolName", str "")
      ∷ ("paramName", str "")
      ∷ ("matchMode", str "exact")
      ∷ ("callerScope", str "")
      ∷ ("description", str "")
      ∷ [])

  unfoldable pub handle_add_allowed_value : Json → Exec (Dash R) Reply
  handle_add_allowed_value =
      guardrails_operation "addAllowedValue"
        (("toolName", str "") ∷ ("paramName", str "") ∷ ("value", str "") ∷ [])

  unfoldable pub handle_add_allowed_pattern : Json → Exec (Dash R) Reply
  handle_add_allowed_pattern =
      guardrails_operation "addAllowedPattern"
        (("toolName", str "") ∷ ("paramName", str "") ∷ ("pattern", str "") ∷ [])

  unfoldable pub handle_remove_allowed_value : Json → Exec (Dash R) Reply
  handle_remove_allowed_value =
      guardrails_operation "removeAllowedValue"
        (("toolName", str "") ∷ ("paramName", str "") ∷ ("value", str "") ∷ [])

  unfoldable pub handle_remove_allowlist : Json → Exec (Dash R) Reply
  handle_remove_allowlist =
      guardrails_operation "removeAllowlist" (("toolName", str "") ∷ ("paramName", str "") ∷ [])
