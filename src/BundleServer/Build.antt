-- ===== src/BundleServer/Build.antt =====
-- `build_bundle` of bundle-server/server.py
pub mod Roots
use noumena_mcp_gateway_poc.Base.{ℕ, zero, suc, String, ◌<>◌, Option, none, some, List, [], ◌∷◌}
use noumena_mcp_gateway_poc.Base.Exec.{Exec, ok}
use noumena_mcp_gateway_poc.Base.Json.{
  Json, null, str, arr, obj, Items, nil, cons, Fields, end, field,
}
use noumena_mcp_gateway_poc.Base.World.{Runtime}
use noumena_mcp_gateway_poc.BundleServer.Client.{Client}
use noumena_mcp_gateway_poc.BundleServer.Fetch.{PolicyData}

-- `s[:n]`
unfoldable pub take_chars : ℕ → String → String
take_chars zero s = String.[]
take_chars (suc n) String.[] = String.[]
take_chars (suc n) (String.◌∷◌ c s) = String.◌∷◌ c (take_chars n s)

abbrev pub or_null : Option String → Json
or_null none = null
or_null (some s) = str s

-- The entries of the policy data, before those of `rest`.
unfoldable pub policy_fields : PolicyData → Fields → Fields
policy_fields p rest = field "catalog" (obj p.catalog) (
    field "access_rules" (arr p.access_rules) (
      field "revoked_subjects" (arr p.revoked_subjects) (
        field "guardrails" (obj p.guardrails) (
          field "workflow_config" (obj p.workflow_config) (
            field "workflow_instances" (obj p.workflow_instances) (
              field "tool_authorizations" (arr p.tool_authorizations)
                (field "npl_url" (str p.npl_url) (field "gateway_token" p.gateway_token rest))))))))

unfoldable pub bundle_metadata : String → String → Option String → Json
bundle_metadata built_at revision sse_event_id = obj (
    field "version" (str "5.0") (
      field "built_at" (str built_at)
        (field "revision" (str revision) (field "sse_event_id" (or_null sse_event_id) end))))

abbrev texts : List String → Items
texts [] = nil
texts (s ∷ ss) = cons (str s) (texts ss)

unfoldable pub manifest_roots : List String
manifest_roots =
    "catalog" ∷ "access_rules" ∷ "revoked_subjects" ∷ "guardrails" ∷ "workflow_config"
    ∷ "workflow_instances" ∷ "tool_authorizations" ∷ "npl_url" ∷ "gateway_token"
    ∷ "_bundle_metadata" ∷ []

unfoldable pub manifest : String → String → Json
unfolding manifest_roots
manifest built_at revision = obj (
    field "revision" (str revision) (
      field "roots" (arr (texts manifest_roots))
        (field "metadata" (obj (field "built_at" (str built_at) end)) end)))

module _ (R : Runtime) where
  -- A name that depends on the policy data alone: the metadata is added later.
  unfoldable pub revision_of : PolicyData → String
  unfolding take_chars policy_fields
  revision_of p = take_chars 16 (R.sha256_hex (R.dumps_sorted (obj (policy_fields p end))))

  unfoldable pub etag_of : String → String
  etag_of revision = "\"" <> revision <> "\""

  -- The two members of the archive.
  unfoldable pub bundle_files : PolicyData → Option String → String → List (String × String)
  unfolding policy_fields bundle_metadata manifest revision_of
  bundle_files p sse_event_id built_at =
      let revision = revision_of p in
      let metadata = bundle_metadata built_at revision sse_event_id in
      ("data.json", R.dumps_sorted (obj (policy_fields p (field "_bundle_metadata" metadata end))))
      ∷ (".manifest", R.dumps (manifest built_at revision))
      ∷ []

  -- What `build_bundle` returns.
  pub record Built : Type 0 where
    pub bytes : R.Bytes
    pub etag : String
    pub revision : String

  packed : String → Client R → R.Bytes × R.World → Built × Client R
  unfolding etag_of
  packed revision c (bytes, w) = (
    record { bytes = bytes; etag = etag_of revision; revision = revision },
    record c { world = w },
  )

  built_now : PolicyData → Option String → Client R → ℕ × R.World → Built × Client R
  unfolding bundle_files packed revision_of
  built_now p sse_event_id c (t, w) =
      packed (revision_of p) c (R.tar_gz (bundle_files p sse_event_id (R.utc_stamp t)) w)

  unfoldable pub build_bundle : PolicyData → Option String → Client R → Built × Client R
  unfolding built_now
  build_bundle p sse_event_id c = built_now p sse_event_id c (R.time c.world)
