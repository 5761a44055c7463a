-- ===== src/BundleServer/Handler/Conditional.antt =====
-- Conditional requests for the bundle.
use text.Mathlib.TextLemmas.{
  append_cancel_left, append_cancel_right, append-eq-nil_iff, cons-ne-nil,
}
use noumena_mcp_gateway_poc.Base.{◌≡◌, ◌≢◌, ◌↔◌, String, ◌<>◌, some, arith, eq_iff}
use noumena_mcp_gateway_poc.Base.Exec.{ok}
use noumena_mcp_gateway_poc.Base.World.{Runtime}
use noumena_mcp_gateway_poc.BundleServer.Client.{Client, Config}
use noumena_mcp_gateway_poc.BundleServer.Fetch.{PolicyData, fetch_npl_data}
use noumena_mcp_gateway_poc.BundleServer.Build.{etag_of, revision_of}
use noumena_mcp_gateway_poc.BundleServer.Server.{Server, rebuild}
use noumena_mcp_gateway_poc.BundleServer.Server.Consistency.{build_bundle_lem}
use noumena_mcp_gateway_poc.BundleServer.Handler.{serve_bundle}

etag_of-injective : (R : Runtime) (r q : String) → etag_of R r ≡ etag_of R q → r ≡ q
unfolding etag_of
etag_of-injective R r q h =
    append_cancel_right r q "\"" (append_cancel_left "\"" (r <> "\"") (q <> "\"") h)

etag_of-ne-nil : (R : Runtime) (r : String) → etag_of R r ≢ ""
unfolding etag_of
etag_of-ne-nil R r h = cons-ne-nil _ _ (append-eq-nil_iff.0 h).0

module _ (R : Runtime) (cfg : Config) (s : Server R) {p : PolicyData} {c : Client R} where
  -- After a rebuild from the policy data `p`, a client with the tag of the data `q` is told that
  -- nothing has changed exactly when both have the same revision.
  pub serve_bundle-rebuild :
      fetch_npl_data R cfg s.client ≡ (ok p, c)
      → (q : PolicyData)
      → ((serve_bundle R (rebuild R cfg s) (some (etag_of R (revision_of R q)))).status ≡ 304)
        ↔ (revision_of R q ≡ revision_of R p)
  unfolding rebuild serve_bundle
  serve_bundle-rebuild h q = rw h (
      ground (
        arith,
        build_bundle_lem R p s.current_sse_event_id c,
        eq_iff (etag_of R (revision_of R q)) (etag_of R (revision_of R p)),
        eq_iff (etag_of R (revision_of R q)) "",
        etag_of-ne-nil R (revision_of R q),
        etag_of-injective R (revision_of R q) (revision_of R p),
      ))
