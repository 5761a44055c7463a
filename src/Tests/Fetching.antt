-- ===== src/Tests/Fetching.antt =====
-- The fetch, the build and what is served from them, in the test world.
use noumena_mcp_gateway_poc.Base.{◌≡◌, ◌↔◌, refl, true, some, [], ◌∷◌, arith, eq_iff}
use noumena_mcp_gateway_poc.Base.Json.{
  Json, bool, str, arr, obj, nil, cons, Fields, end, field, lookup, get, truthy, insert, item,
  is_text, entries,
}
use noumena_mcp_gateway_poc.BundleServer.Client.{get_token, now, send, raise_for_status}
use noumena_mcp_gateway_poc.BundleServer.Transform.{
  strip_tools, catalog_entry, transform_catalog, instance_names, is_active, authorization,
  authorizations,
}
use noumena_mcp_gateway_poc.BundleServer.Transform.Catalog.{Carried, lookup-transform_catalog}
use noumena_mcp_gateway_poc.BundleServer.Transform.Lists.{Lists, authorizations_lem}
use noumena_mcp_gateway_poc.BundleServer.Governance.{npl_get, guardrails_loop}
use noumena_mcp_gateway_poc.BundleServer.Governance.Isolation.{guardrails_loop-lookup}
use noumena_mcp_gateway_poc.BundleServer.Fetch.{
  PolicyData, policy_from, empty_policy, fetch_npl_data,
}
use noumena_mcp_gateway_poc.BundleServer.Build.{etag_of, revision_of}
use noumena_mcp_gateway_poc.BundleServer.Server.{Server, initial, rebuild}
use noumena_mcp_gateway_poc.BundleServer.Handler.{serve_bundle}
use noumena_mcp_gateway_poc.BundleServer.Handler.Conditional.{serve_bundle-rebuild}
use noumena_mcp_gateway_poc.Tests.Lab.{lab, at, reply, cfg, held_client, store_listing}

abbrev answering : Server lab
answering = initial lab (held_client (reply 200 store_listing ∷ []))

-- The policy data when there is no store yet.
abbrev policy : PolicyData
policy = record {
  catalog = end;
  access_rules = nil;
  revoked_subjects = nil;
  guardrails = end;
  workflow_config = end;
  workflow_instances = end;
  tool_authorizations = nil;
  npl_url = "http://npl";
  gateway_token = str "jwt";
}

serve_bundle-rebuild_example :
    ((serve_bundle lab
        (rebuild lab cfg answering)
        (some (etag_of lab (revision_of lab policy)))).status
      ≡ 304)
    ↔ (revision_of lab policy ≡ revision_of lab policy)
unfolding fetch_npl_data get_token truthy now send npl_get raise_for_status get lookup policy_from
    empty_policy
serve_bundle-rebuild_example =
    serve_bundle-rebuild lab cfg answering {p = policy}
      {c = record (held_client []) { world = at 102000000 [] }} refl policy

abbrev tools : Fields
tools = field "search" (obj (field "tag" (str "read") end)) (field "comment" (obj end) end)

abbrev entry : Json
entry = obj (field "enabled" (bool true) (field "tools" (obj tools) end))

abbrev plain_entry : Json
plain_entry = obj (
    field "enabled" (bool true)
      (field "tools" (obj (field "search" (obj end) (field "comment" (obj end) end))) end))

lookup-transform_catalog_example :
    Carried (lookup "jira" (field "jira" entry end)) (lookup "jira" (field "jira" plain_entry end))
unfolding transform_catalog catalog_entry strip_tools insert get lookup entries
lookup-transform_catalog_example =
    lookup-transform_catalog "jira" (field "jira" entry end) {out = field "jira" plain_entry end}
      (refl, tt) refl

abbrev waiting : Json
waiting = obj (field "@id" (str "1") (field "@state" (str "requested") end))

abbrev approved : Json
approved = obj (
    field "@id" (str "2")
      (field "@state" (str "authorized") (field "serviceName" (str "jira") end)))

abbrev approved_entry : Json
approved_entry = obj (
    field "instanceId" (str "2") (
      field "serviceName" (str "jira")
        (field "toolName" (str "") (field "agentIdentity" (str "") (field "scope" (str "") end)))))

authorizations_lem_example : Lists (cons waiting (cons approved nil)) (cons approved_entry nil)
unfolding authorizations authorization is_active get item lookup is_text
authorizations_lem_example =
    authorizations_lem (cons waiting (cons approved nil)) {out = cons approved_entry nil} refl

abbrev rule : Json
rule = obj (field "id" (str "r1") end)

abbrev plain_rule : Json
plain_rule = obj (
    field "id" (str "r1") (
      field "matcher"
        (obj (
          field "matchType" (str "claims")
            (field "claims" (obj end) (field "identity" (str "") end))))
        (field "allow" (obj (field "services" (arr nil) (field "tools" (arr nil) end))) end)))

abbrev slack : Json
slack = obj (field "@id" (str "1") (field "serviceName" (str "slack") end))

abbrev jira_guardrails : Fields
jira_guardrails = field "jira" (obj end) end

-- Slack's guardrails do not come; those of Jira stay.
guardrails_loop-lookup_example :
    lookup "jira"
      (guardrails_loop lab cfg (str "jwt") (cons slack nil) jira_guardrails (held_client [])).0
    ≡ lookup "jira" jira_guardrails
unfolding instance_names get lookup
guardrails_loop-lookup_example =
    guardrails_loop-lookup lab cfg "jira" (str "jwt") (cons slack nil) jira_guardrails
      (held_client []) (λ id e. ground (arith, e, eq_iff "slack" "jira"), tt)
