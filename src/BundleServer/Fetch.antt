-- ===== src/BundleServer/Fetch.antt =====
-- `fetch_npl_data` of bundle-server/server.py: the store's data first, where every failure is an
-- exception, and then the governance data, where none is.
use noumena_mcp_gateway_poc.Base.{String, ◌<>◌, if◌then◌else◌}
use noumena_mcp_gateway_poc.Base.Exec.{Exec, ok, pure, lift, ◌>>=◌, ◌>>◌}
use noumena_mcp_gateway_poc.Base.Json.{Json, arr, Items, nil, Fields, end, get, item, first, truthy}
use noumena_mcp_gateway_poc.Base.World.{Runtime}
use noumena_mcp_gateway_poc.BundleServer.Client.{
  Client, Config, format, get_token, raise_for_status,
}
use noumena_mcp_gateway_poc.BundleServer.Transform.{StoreData, transform_store}
use noumena_mcp_gateway_poc.BundleServer.Governance.{
  npl_get, npl_post, fetch_guardrails, fetch_workflows, fetch_authorizations,
}

-- The dict that `fetch_npl_data` returns.
pub record PolicyData : Type 0 where
  pub catalog : Fields
  pub access_rules : Items
  pub revoked_subjects : Items
  pub guardrails : Fields
  pub workflow_config : Fields
  pub workflow_instances : Fields
  pub tool_authorizations : Items
  pub npl_url : String
  pub gateway_token : Json

module _ (R : Runtime) (cfg : Config) where
  -- `items[0]["@id"]`
  store_id : Json → Exec (Client R) Json
  unfolding first item
  store_id items = do store ← lift (first items); lift (item store "@id")

  unfoldable pub store_data : Json → Json → Exec (Client R) StoreData
  store_data token id = do
    resp ← npl_post R cfg token ("/npl/store/GatewayStore/" <> format R id <> "/getBundleData")
    raise_for_status resp
    bundle_data ← lift resp.json
    lift (transform_store bundle_data)

  unfoldable pub empty_policy : Exec (Client R) PolicyData
  empty_policy = do
    gateway_token ← get_token R cfg
    pure (record {
      catalog = end;
      access_rules = nil;
      revoked_subjects = nil;
      guardrails = end;
      workflow_config = end;
      workflow_instances = end;
      tool_authorizations = nil;
      npl_url = cfg.npl_url;
      gateway_token = gateway_token;
    })

  -- A part that never raises, as a step of a block.
  abbrev total {ℓ} : {A : Type ℓ} → (Client R → A × Client R) → Exec (Client R) A
  total f c = let (a, c') = f c in (ok a, c')

  unfoldable pub governed : Json → StoreData → Exec (Client R) PolicyData
  governed token store = do
    guardrails ← total (fetch_guardrails R cfg token)
    workflows ← total (fetch_workflows R cfg token)
    tool_authorizations ← total (fetch_authorizations R cfg token)
    gateway_token ← get_token R cfg
    pure (record {
      catalog = store.catalog;
      access_rules = store.access_rules;
      revoked_subjects = store.revoked_subjects;
      guardrails = guardrails;
      workflow_config = workflows.config;
      workflow_instances = workflows.instances;
      tool_authorizations = tool_authorizations;
      npl_url = cfg.npl_url;
      gateway_token = gateway_token;
    })

  unfoldable pub policy_from : Json → Json → Exec (Client R) PolicyData
  unfolding store_id
  policy_from token items =
      if truthy items
      then (do id ← store_id items; store ← store_data token id; governed token store)
      else empty_policy

  -- The token read first serves every request of the fetch.
  unfoldable pub fetch_npl_data : Exec (Client R) PolicyData
  fetch_npl_data = do
    token ← get_token R cfg
    resp ← npl_get R cfg token "/npl/store/GatewayStore/"
    raise_for_status resp
    body ← lift resp.json
    items ← lift (get body "items" (arr nil))
    policy_from token items
