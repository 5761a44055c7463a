-- ===== src/BundleServer/Transform.antt =====
-- `fetch_npl_data` of bundle-server/server.py: the rewriting of the store's data, which is pure.
pub mod Catalog
pub mod Lists
use noumena_mcp_gateway_poc.Base.{ℕ, String, Bool, true, false, not, ◌&&◌, ◌==◌, if◌then◌else◌}
use noumena_mcp_gateway_poc.Base.Exec.{Result, ok, err}
use noumena_mcp_gateway_poc.Base.Result.{◌>>=◌}
use noumena_mcp_gateway_poc.Base.Json.{
  Json, null, bool, num, str, arr, obj, Items, nil, cons, Fields, end, field, insert, append, get,
  item, truthy, is_text, iterate, entries, key_text,
}

-- `for tool_name, tool_entry in …: tools[tool_name] = {}`
unfoldable pub strip_tools : Fields → Fields → Fields
unfolding insert
strip_tools tools end = tools
strip_tools tools (field name _ rest) = strip_tools (insert name (obj end) tools) rest

unfoldable pub catalog_entry : Json → Result Json
catalog_entry entry = do
  tools ← get entry "tools" (obj end)
  listed ← entries tools
  enabled ← get entry "enabled" (bool false)
  ok (obj (field "enabled" enabled (field "tools" (obj (strip_tools end listed)) end)))

unfoldable pub transform_catalog : Fields → Fields → Result Fields
transform_catalog catalog end = ok catalog
transform_catalog catalog (field svc_name entry rest) = do
  entry' ← catalog_entry entry
  transform_catalog (insert svc_name entry' catalog) rest

-- `x.get(outer, {}).get(inner, default)`
unfoldable pub get_in : Json → String → String → Json → Result Json
unfolding get
get_in x outer inner default = do o ← get x outer (obj end); get o inner default

unfoldable pub transform_rule : Json → Result Json
unfolding get get_in
transform_rule rule = do
  id ← get rule "id" (str "")
  match_type ← get_in rule "matcher" "matchType" (str "claims")
  claims ← get_in rule "matcher" "claims" (obj end)
  identity ← get_in rule "matcher" "identity" (str "")
  services ← get_in rule "allow" "services" (arr nil)
  tools ← get_in rule "allow" "tools" (arr nil)
  ok (
      obj (
        field "id" id (
          field "matcher"
            (obj (
              field "matchType" match_type (field "claims" claims (field "identity" identity end))))
            (field "allow" (obj (field "services" services (field "tools" tools end))) end))))

unfoldable pub transform_rules : Items → Items → Result Items
transform_rules access_rules nil = ok access_rules
transform_rules access_rules (cons rule rest) = do
  rule' ← transform_rule rule
  transform_rules (append access_rules rule') rest

-- The three parts of the store that `getBundleData` returns, rewritten.
pub record StoreData : Type 0 where
  pub catalog : Fields
  pub access_rules : Items
  pub revoked_subjects : Items

unfoldable pub transform_store : Json → Result StoreData
transform_store bundle_data = do
  catalog ← get bundle_data "catalog" (obj end)
  services ← entries catalog
  catalog' ← transform_catalog end services
  rules ← get bundle_data "accessRules" (arr nil)
  listed ← iterate rules
  access_rules ← transform_rules nil listed
  revoked ← get bundle_data "revokedSubjects" (arr nil)
  revoked_subjects ← iterate revoked
  ok (record {
    catalog = catalog';
    access_rules = access_rules;
    revoked_subjects = revoked_subjects;
  })

-- `(item.get("@id", ""), item.get("serviceName", ""))`
unfoldable pub instance_names : Json → Result (Json × Json)
unfolding get
instance_names it = do id ← get it "@id" (str ""); svc ← get it "serviceName" (str ""); ok (id, svc)

-- `svc_guardrails[t_name] = {…}` for the tools of one service.
unfoldable pub tool_guardrails : Fields → Json → Json → Result Fields
unfolding get truthy insert key_text
tool_guardrails svc_guardrails tg t_name =
    if truthy t_name
    then (do
      constraints ← get tg "constraints" (arr nil)
      allowlists ← get tg "allowlists" (arr nil)
      name ← key_text t_name
      ok (
          insert name (obj (field "constraints" constraints (field "allowlists" allowlists end)))
            svc_guardrails))
    else ok svc_guardrails

unfoldable pub service_guardrails : Fields → Items → Result Fields
unfolding get tool_guardrails
service_guardrails svc_guardrails nil = ok svc_guardrails
service_guardrails svc_guardrails (cons tg rest) = do
  t_name ← get tg "toolName" (str "")
  svc_guardrails' ← tool_guardrails svc_guardrails tg t_name
  service_guardrails svc_guardrails' rest

-- `a.get("serviceName", "") != ""`
names_service : Json → Result Bool
unfolding get is_text
names_service a = do svc ← get a "serviceName" (str ""); ok (not (is_text svc ""))

-- The filter of the comprehension: the second test runs only if the first passes.
unfoldable pub is_active : Json → Result Bool
unfolding names_service get is_text
is_active a = do
  state ← get a "@state" null
  if is_text state "authorized" then names_service a else ok false

unfoldable pub authorization : Json → Result Json
unfolding item get
authorization a = do
  id ← item a "@id"
  svc ← get a "serviceName" (str "")
  tool ← get a "toolName" (str "")
  agent ← get a "agentIdentity" (str "")
  scope ← get a "scope" (str "")
  ok (
      obj (
        field "instanceId" id (
          field "serviceName" svc
            (field "toolName" tool (field "agentIdentity" agent (field "scope" scope end))))))

-- The comprehension over the ToolAuthorization instances.
unfoldable pub authorizations : Items → Result Items
authorizations nil = ok nil
authorizations (cons a rest) = do
  active ← is_active a
  let others = authorizations rest
  if active then (do entry ← authorization a; entries ← others; ok (cons entry entries)) else others
