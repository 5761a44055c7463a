-- ===== src/Tests/Overlapping.antt =====
-- Overlapping rebuilds in the test world.
use noumena_mcp_gateway_poc.BundleServer.Overlap.{advance, after_fetch, after_build, store}
use noumena_mcp_gateway_poc.Base.{◌≡◌, ◌≢◌, refl, none, List, [], ◌∷◌}
use noumena_mcp_gateway_poc.Base.Json.{str, nil, end, truthy, get, lookup}
use noumena_mcp_gateway_poc.BundleServer.Client.{get_token, now, send, raise_for_status}
use noumena_mcp_gateway_poc.BundleServer.Governance.{npl_get}
use noumena_mcp_gateway_poc.BundleServer.Fetch.{
  PolicyData, fetch_npl_data, policy_from, empty_policy,
}
use noumena_mcp_gateway_poc.BundleServer.Build.{build_bundle}
use noumena_mcp_gateway_poc.BundleServer.Server.{Server, initial}
use noumena_mcp_gateway_poc.BundleServer.Server.Consistency.{IsConsistent}
use noumena_mcp_gateway_poc.BundleServer.Handler.{serve_health, serve_bundle, do_get}
use noumena_mcp_gateway_poc.BundleServer.Overlap.{
  Move, rebuilder, reconciler, request, Overlap, moves, at_rest,
}
use noumena_mcp_gateway_poc.BundleServer.Overlap.Safety.{health-moves, IsConsistent-moves}
use noumena_mcp_gateway_poc.BundleServer.Overlap.{move}
use noumena_mcp_gateway_poc.BundleServer.Overlap.Safety.{moves-health}
use noumena_mcp_gateway_poc.Base.{◌↔◌}
use noumena_mcp_gateway_poc.Tests.Lab.{lab, reply, cfg, held_client, store_listing}

-- The reconciler fetches and publishes while the rebuilder builds; a request comes before the
-- reconciler has set `data_ready`.
abbrev crossing : List (Move lab cfg)
crossing =
    rebuilder
    ∷ reconciler
    ∷ rebuilder
    ∷ reconciler
    ∷ reconciler
    ∷ request "/health" none
    ∷ reconciler
    ∷ reconciler
    ∷ rebuilder
    ∷ rebuilder
    ∷ rebuilder
    ∷ []

abbrev crossed : Overlap lab
crossed = moves lab cfg crossing (
    at_rest lab
      (initial lab (held_client (reply 200 store_listing ∷ reply 200 store_listing ∷ []))))

health-moves_example : (serve_bundle lab crossed.server none).status ≢ 503
unfolding moves fetch_npl_data get_token truthy now send npl_get raise_for_status get lookup
    policy_from empty_policy build_bundle serve_health do_get
health-moves_example =
    health-moves lab cfg (held_client (reply 200 store_listing ∷ reply 200 store_listing ∷ []))
      crossing none refl

IsConsistent-moves_example : IsConsistent crossed.server
unfolding moves fetch_npl_data get_token truthy now send npl_get raise_for_status get lookup
    policy_from empty_policy build_bundle do_get
IsConsistent-moves_example =
    IsConsistent-moves lab cfg
      (held_client (reply 200 store_listing ∷ reply 200 store_listing ∷ [])) crossing refl refl

abbrev answering : Server lab
answering = initial lab (held_client (reply 200 store_listing ∷ []))

abbrev policy : PolicyData
policy = record {
  catalog = end;
  access_rules = nil;
  revoked_subjects = nil;
  guardrails = end;
  workflow_config = end;
  workflow_instances = end;
  tool_authorizations = nil;
  npl_url = "http://npl";
  gateway_token = str "jwt";
}

-- A whole rebuild of the reconciler.
abbrev whole : List (Move lab cfg)
whole = reconciler ∷ reconciler ∷ reconciler ∷ reconciler ∷ reconciler ∷ []

moves-health_example :
    (let s = (moves lab cfg whole (at_rest lab answering)).server in
      ((serve_health lab cfg s).0.status ≡ 503) ↔ ((serve_bundle lab s none).status ≡ 503))
unfolding fetch_npl_data get_token truthy now send npl_get raise_for_status get lookup policy_from
    empty_policy moves move advance after_fetch after_build store
moves-health_example = moves-health lab cfg answering.client whole none refl refl
