-- ===== src/BundleServer/Governance.antt =====
-- `fetch_npl_data` of bundle-server/server.py, steps 3 to 5: the guardrails, the workflows and
-- the authorizations. Their `try` blocks never let an exception out; what a dict held when the
-- exception came stays in it.
pub mod Isolation
use noumena_mcp_gateway_poc.Base.{
  ℕ, String, ◌<>◌, Bool, true, false, not, ◌&&◌, ◌||◌, Option, none, some, List, [], ◌∷◌, ltb, leb,
  if◌then◌else◌,
}
use noumena_mcp_gateway_poc.Base.Exec.{Exec, Result, ok, err, pure, raise, lift, ◌>>=◌, ◌>>◌}
use noumena_mcp_gateway_poc.Base.Json.{
  Json, null, num, str, arr, obj, Items, nil, cons, end, Fields, field, get, item, truthy, number,
  insert, iterate, key_text,
}
use noumena_mcp_gateway_poc.Base.World.{Runtime, Method, Request, Response}
use noumena_mcp_gateway_poc.BundleServer.Client.{Client, Config, send, format}
use noumena_mcp_gateway_poc.BundleServer.Transform.{
  instance_names, service_guardrails, authorizations,
}

module _ (R : Runtime) (cfg : Config) where
  -- `requests.get(f"{NPL_URL}{path}", headers=headers)`
  unfoldable pub npl_get : Json → String → Exec (Client R) Response
  unfolding send
  npl_get token path = send (record {
    method = Method.get;
    url = cfg.npl_url <> path;
    bearer = some token;
    extra = [];
    payload = none;
  })

  -- `requests.post(f"{NPL_URL}{path}", headers=…, json={})`
  unfoldable pub npl_post : Json → String → Exec (Client R) Response
  unfolding send
  npl_post token path = send (record {
    method = Method.post;
    url = cfg.npl_url <> path;
    bearer = some token;
    extra = [];
    payload = some (obj end);
  })

  -- What a listing has under `items`; nothing if the status is an error.
  unfoldable pub listed_items : Response → Exec (Client R) Items
  unfolding get iterate
  listed_items resp =
      if ltb resp.status_code 400
      then (do
        body ← lift resp.json
        items ← lift (get body "items" (arr nil))
        lift (iterate items))
      else pure nil

  list_instances : Json → String → Exec (Client R) Items
  list_instances token path = do resp ← npl_get token path; listed_items resp

  -- A result that stays what it was when the block raises.
  abbrev keep_on_error {ℓ} : {A : Type ℓ} → A → Result A × Client R → A × Client R
  keep_on_error old (ok new, c) = (new, c)
  keep_on_error old (err e, c) = (old, c)

  -- `if svc_guardrails: guardrails[svc_name] = svc_guardrails`
  store_guardrails : Json → Fields → Fields → Result Fields
  unfolding key_text insert
  store_guardrails svc guardrails end = ok guardrails
  store_guardrails svc guardrails (field k v d) = elim (key_text svc) [
    | ok name ↦ ok (insert name (obj (field k v d)) guardrails)
    | err e ↦ err e
  ]

  -- The inner `try` block.
  guardrails_block : Json → Json → Json → Fields → Exec (Client R) Fields
  unfolding store_guardrails
  guardrails_block token id svc guardrails = do
    resp ← npl_post token ("/npl/governance/Guardrails/" <> format R id <> "/getGuardrailsData")
    if ltb resp.status_code 400
        then (do
          body ← lift resp.json
          tools ← lift (iterate body)
          found ← lift (service_guardrails end tools)
          lift (store_guardrails svc guardrails found))
        else pure guardrails

  -- One instance of the loop; an instance with no id or no service is skipped.
  unfoldable pub guardrails_instance : Json → Json × Json → Fields → Client R → Fields × Client R
  unfolding guardrails_block truthy
  guardrails_instance token (id, svc) guardrails c =
      if not (truthy svc) || not (truthy id)
      then (guardrails, c)
      else keep_on_error guardrails (guardrails_block token id svc guardrails c)

  -- The loop. An item that is no dict ends it: the outer `except` is past the loop.
  unfoldable pub guardrails_loop : Json → Items → Fields → Client R → Fields × Client R
  guardrails_loop token nil guardrails c = (guardrails, c)
  guardrails_loop token (cons it rest) guardrails c = elim (instance_names it) [
    | err e ↦ (guardrails, c)
    | ok names ↦
        let (guardrails', c') = guardrails_instance token names guardrails c in
        guardrails_loop token rest guardrails' c'
  ]

  guardrails_from : Json → Result Items × Client R → Fields × Client R
  guardrails_from token (ok items, c) = guardrails_loop token items end c
  guardrails_from token (err e, c) = (end, c)

  unfoldable pub fetch_guardrails : Json → Client R → Fields × Client R
  unfolding list_instances guardrails_from
  fetch_guardrails token c =
      guardrails_from token (list_instances token "/npl/governance/Guardrails/" c)

  -- `workflow_config` and `workflow_instances`
  pub record Workflows : Type 0 where
    pub config : Fields
    pub instances : Fields

  -- `if wf_tools: workflow_config[svc_name] = wf_tools`, in the inner `try` block.
  workflow_block : Json → Json → String → Fields → Exec (Client R) Fields
  workflow_block token id name config = do
    resp ← npl_post token ("/npl/governance/Workflow/" <> format R id <> "/getWorkflowConfig")
    if ltb resp.status_code 400
        then (do
          tools ← lift resp.json
          pure (if truthy tools then insert name tools config else config))
        else pure config

  workflow_named : Json → Json → String → Workflows → Client R → Workflows × Client R
  unfolding workflow_block insert
  workflow_named token id name w c =
      let (config, c') = keep_on_error w.config (workflow_block token id name w.config c) in
      (record { config = config; instances = insert name id w.instances }, c')

  -- `none` if the loop is left by an exception.
  unfoldable pub workflow_instance :
      Json → Json × Json → Workflows → Client R → Option (Workflows × Client R)
  unfolding workflow_named truthy key_text
  workflow_instance token (id, svc) w c =
      if not (truthy svc) || not (truthy id)
      then some (w, c)
      else elim (key_text svc) [ ok name ↦ some (workflow_named token id name w c) | err e ↦ none ]

  unfoldable pub workflow_loop : Json → Items → Workflows → Client R → Workflows × Client R
  workflow_loop token nil w c = (w, c)
  workflow_loop token (cons it rest) w c = elim (instance_names it) [
    | err e ↦ (w, c)
    | ok names ↦ elim (workflow_instance token names w c) [
      | none ↦ (w, c)
      | some (w', c') ↦ workflow_loop token rest w' c'
    ]
  ]

  abbrev pub no_workflows : Workflows
  no_workflows = record { config = end; instances = end }

  workflows_from : Json → Result Items × Client R → Workflows × Client R
  workflows_from token (ok items, c) = workflow_loop token items no_workflows c
  workflows_from token (err e, c) = (no_workflows, c)

  unfoldable pub fetch_workflows : Json → Client R → Workflows × Client R
  unfolding list_instances workflows_from
  fetch_workflows token c =
      workflows_from token (list_instances token "/npl/governance/Workflow/" c)

  authorizations_block : Json → Exec (Client R) Items
  unfolding list_instances authorizations
  authorizations_block token = do
    items ← list_instances token "/npl/governance/ToolAuthorization/"
    lift (authorizations items)

  unfoldable pub fetch_authorizations : Json → Client R → Items × Client R
  unfolding authorizations_block
  fetch_authorizations token c = keep_on_error nil (authorizations_block token c)
