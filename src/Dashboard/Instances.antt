-- ===== src/Dashboard/Instances.antt =====
-- The handlers of dashboard/server.py that list the governance instances with their data and
-- create instances.
pub mod Keeps
use noumena_mcp_gateway_poc.Base.{String, ◌<>◌, true, ◌&&◌, Option, none, some, ltb, if◌then◌else◌}
use noumena_mcp_gateway_poc.Base.Exec.{Exec, Result, ok, err, pure, lift, try_except, ◌>>=◌, ◌>>◌}
use noumena_mcp_gateway_poc.Base.Json.{
  Json, null, bool, str, arr, obj, Items, nil, cons, Fields, end, field, get, item, truthy, iterate,
  insert, append, set_item, find_value,
}
use noumena_mcp_gateway_poc.Base.World.{Runtime, Response}
use noumena_mcp_gateway_poc.Dashboard.State.{
  Dash, Config, Reply, send_json, send_error_json, acknowledge, format, get_admin_token,
  get_gateway_token, raise_for_status,
}
use noumena_mcp_gateway_poc.Dashboard.Store.{npl_get_with, npl_post_with}
use noumena_mcp_gateway_poc.Dashboard.Governance.{
  lookup_value, get_guardrails_instances, get_workflow_instances,
}

abbrev created : Json → Reply
created id = send_json (obj (field "ok" (bool true) (field "instanceId" id end))) 200

module _ (R : Runtime) (cfg : Config) where
  -- A POST with an empty dict.
  unfoldable pub post_empty : Json → String → Exec (Dash R) Response
  post_empty token path = npl_post_with R cfg token path (obj end)

  -- A new instance is set up with the service's name; the status of the setup is not looked at.
  unfoldable pub new_instance : String → Json → Exec (Dash R) Reply
  new_instance path svc = do
    token ← get_admin_token R cfg
    resp ← npl_post_with R cfg token path (obj (field "@parties" (obj end) end))
    raise_for_status resp
    body ← lift resp.json
    id ← lift (item body "@id")
    npl_post_with R cfg token (path <> format R id <> "/setup") (obj (field "name" svc end))
    pure (created id)

  unfoldable pub instance_of : String → Json → Option Json → Exec (Dash R) Reply
  instance_of path svc (some id) = pure (created id)
  instance_of path svc none = new_instance path svc

  -- The shape of the two handlers that create instances.
  unfoldable pub create_instance : Exec (Dash R) Fields → String → Json → Exec (Dash R) Reply
  create_instance instances path body = do
    svc ← lift (item body "serviceName")
    known ← instances
    found ← lift (find_value svc known)
    instance_of path svc found

  unfoldable pub handle_create_guardrails : Json → Exec (Dash R) Reply
  unfolding create_instance
  handle_create_guardrails =
      create_instance (get_guardrails_instances R cfg) "/npl/governance/Guardrails/"

  unfoldable pub handle_create_workflow : Json → Exec (Dash R) Reply
  unfolding create_instance
  handle_create_workflow =
      create_instance (get_workflow_instances R cfg) "/npl/governance/Workflow/"

  -- What `resp.json() if resp.status_code < 400 else default` gives, `default` if it raises.
  detail : Json → Result Json → Json
  detail default (ok v) = v
  detail default (err e) = default

  unfoldable pub ask_data : Json → String → Json → Exec (Dash R) Json
  ask_data token path default = do
    resp ← post_empty token path
    if ltb resp.status_code 400 then lift resp.json else pure default

  unfoldable pub instance_data : Json → String → Json → Dash R → Json × Dash R
  unfolding detail ask_data
  instance_data token path default d =
      let (r, d') = ask_data token path default d in (detail default r, d')

  -- The four texts by which the two listings differ, and what stands for missing data.
  pub record Protocol : Type 0 where
    pub type_name : String
    pub path : String
    pub operation : String
    pub key : String
    pub default : Json

  abbrev pub guardrails_protocol : Protocol
  guardrails_protocol = record {
    type_name = "Guardrails";
    path = "/npl/governance/Guardrails/";
    operation = "getGuardrailsData";
    key = "guardrailsData";
    default = arr nil;
  }

  abbrev pub workflow_protocol : Protocol
  workflow_protocol = record {
    type_name = "Workflow";
    path = "/npl/governance/Workflow/";
    operation = "getWorkflowConfig";
    key = "workflowConfig";
    default = obj end;
  }

  -- One entry; an item with no service or no id is passed over.
  unfoldable pub protocol_entry : Protocol → Json → Json → Json → Items → Dash R → Items × Dash R
  protocol_entry p gw_token svc id protocols d =
      if truthy svc && truthy id
      then (let (value, d') =
            instance_data gw_token (p.path <> format R id <> "/" <> p.operation) p.default d in
          (
            append protocols (
                obj (
                  field "type" (str p.type_name)
                    (field "instanceId" id (field "serviceName" svc (field p.key value end))))),
            d',
          ))
      else (protocols, d)

  names_of : Json → Result (Json × Json)
  names_of it = elim (get it "serviceName" (str "")) [
    | err e ↦ err e
    | ok svc ↦ elim (get it "@id" (str "")) [ err e ↦ err e | ok id ↦ ok (svc, id) ]
  ]

  -- The loop. An item that is no dict ends it, and what was collected stays.
  unfoldable pub protocol_entries : Protocol → Json → Items → Items → Dash R → Items × Dash R
  unfolding names_of
  protocol_entries p gw_token nil protocols d = (protocols, d)
  protocol_entries p gw_token (cons it rest) protocols d = elim (names_of it) [
    | err e ↦ (protocols, d)
    | ok names ↦
        let (protocols', d') = protocol_entry p gw_token names.0 names.1 protocols d in
        protocol_entries p gw_token rest protocols' d'
  ]

  -- What a listing has under `items`; nothing if the status is an error.
  unfoldable pub listing : Json → String → Exec (Dash R) Items
  listing token path = do
    resp ← npl_get_with R cfg token path
    if ltb resp.status_code 400
        then (do
          body ← lift resp.json
          items ← lift (get body "items" (arr nil))
          lift (iterate items))
        else pure nil

  listed : Protocol → Json → Items → Result Items × Dash R → Items × Dash R
  listed p gw_token protocols (ok items, d) = protocol_entries p gw_token items protocols d
  listed p gw_token protocols (err e, d) = (protocols, d)

  -- One of the two `try` blocks.
  unfoldable pub list_protocol : Protocol → Json → Json → Items → Dash R → Items × Dash R
  unfolding listed
  list_protocol p token gw_token protocols d = listed p gw_token protocols (listing token p.path d)

  abbrev protocols_reply : Items × Dash R → Result Reply × Dash R
  protocols_reply (protocols, d) =
      (ok (send_json (obj (field "protocols" (arr protocols) end)) 200), d)

  list_both : Json → Json → Exec (Dash R) Reply
  list_both token gw_token d =
      let (protocols, d₁) = list_protocol guardrails_protocol token gw_token nil d in
      protocols_reply (list_protocol workflow_protocol token gw_token protocols d₁)

  unfoldable pub handle_get_protocols : Exec (Dash R) Reply
  unfolding list_both
  handle_get_protocols = do
    token ← get_admin_token R cfg
    gw_token ← get_gateway_token R cfg
    list_both token gw_token
