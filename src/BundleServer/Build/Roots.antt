-- ===== src/BundleServer/Build/Roots.antt =====
-- The roots that the manifest names.
use noumena_mcp_gateway_poc.Base.{String, ◌≡◌, refl, List, [], ◌∷◌}
use noumena_mcp_gateway_poc.Base.Json.{Json, Fields, end, field}
use noumena_mcp_gateway_poc.BundleServer.Fetch.{PolicyData}
use noumena_mcp_gateway_poc.BundleServer.Build.{policy_fields, manifest_roots}

abbrev pub field_names : Fields → List String
field_names end = []
field_names (field k _ d) = k ∷ field_names d

-- The manifest's roots are the top-level keys of `data.json`, in order.
pub roots-field_names :
    (p : PolicyData) (metadata : Json)
    → field_names (policy_fields p (field "_bundle_metadata" metadata end)) ≡ manifest_roots
unfolding policy_fields manifest_roots
roots-field_names p metadata = refl
