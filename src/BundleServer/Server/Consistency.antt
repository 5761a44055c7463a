-- ===== src/BundleServer/Server/Consistency.antt =====
-- The published bundle, its tag, its revision and its time belong together at all times.
use noumena_mcp_gateway_poc.Base.{ℕ, ◌≡◌, refl, String, Option, none, some, arith, is_some, ltb}
use noumena_mcp_gateway_poc.Base.Exec.{Result, ok, err}
use noumena_mcp_gateway_poc.Base.World.{Runtime}
use noumena_mcp_gateway_poc.BundleServer.Client.{Client, Config}
use noumena_mcp_gateway_poc.BundleServer.Fetch.{PolicyData, fetch_npl_data}
use noumena_mcp_gateway_poc.BundleServer.Build.{Built, build_bundle, etag_of, revision_of}
use noumena_mcp_gateway_poc.BundleServer.Server.{Server, initial, publish, rebuild, rebuild_from}

-- `current_etag` quotes `current_revision`.
abbrev pub Tagged : (R : Runtime) → Option String → Option String → Type 0
Tagged R none none = Unit
Tagged R (some etag) (some revision) = etag ≡ etag_of R revision
Tagged R _ _ = ⊥

pub record IsConsistent {R : Runtime} (s : Server R) : Type 0 where
  pub tagged : Tagged R s.current_etag s.current_revision
  pub has_etag : is_some s.current_bundle ≡ is_some s.current_etag
  pub has_time : is_some s.current_bundle ≡ is_some s.current_built_at
  pub ready : s.data_ready ≡ is_some s.current_bundle
  pub counted : ltb 0 s.rebuild_count ≡ is_some s.current_bundle

pub initial-IsConsistent : (R : Runtime) (c : Client R) → IsConsistent (initial R c)
initial-IsConsistent R c = ground arith

module _ (R : Runtime) where
  -- The tag of a build quotes its revision, which depends on the policy data alone.
  pub build_bundle_lem :
      (p : PolicyData) (event : Option String) (c : Client R)
      → ((build_bundle R p event c).0.revision ≡ revision_of R p)
        × ((build_bundle R p event c).0.etag ≡ etag_of R (revision_of R p))
  unfolding build_bundle
  build_bundle_lem p event c = (refl, refl)

  publish-IsConsistent :
      (b : Built R) (t : ℕ) (s : Server R)
      → b.etag ≡ etag_of R b.revision
      → IsConsistent (publish R b t s)
  unfolding publish
  publish-IsConsistent b t s h = ground arith

  rebuild_from-IsConsistent :
      (s : Server R) (r : Result PolicyData × Client R)
      → IsConsistent s
      → IsConsistent (rebuild_from R s r)
  unfolding rebuild_from
  rebuild_from-IsConsistent s (ok p, c) h =
      ground (arith, build_bundle_lem p s.current_sse_event_id c)
  rebuild_from-IsConsistent s (err e, c) h = ground arith

module _ (R : Runtime) (cfg : Config) where
  pub rebuild-IsConsistent : (s : Server R) → IsConsistent s → IsConsistent (rebuild R cfg s)
  unfolding rebuild
  rebuild-IsConsistent s h = rebuild_from-IsConsistent R s (fetch_npl_data R cfg s.client) h
