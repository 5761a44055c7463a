-- ===== src/BundleServer/Handler/Health.antt =====
-- What `/health` reports.
use noumena_mcp_gateway_poc.Base.{
  ℕ, ◌+◌, ◌-◌, ◌*◌, ◌<◌, ◌≡◌, ◌≢◌, ◌↔◌, refl, String, Bool, true, false, Option, some, arith, ◌==◌,
  ◌||◌, if◌then◌else◌,
}
use noumena_mcp_gateway_poc.Base.World.{Runtime}
use noumena_mcp_gateway_poc.BundleServer.Client.{Config}
use noumena_mcp_gateway_poc.BundleServer.Server.{Server}
use noumena_mcp_gateway_poc.BundleServer.Server.Consistency.{IsConsistent}
use noumena_mcp_gateway_poc.BundleServer.Handler.{
  round_tenths, bundle_age, is_stale, health_status, health_at, serve_bundle, serve_health,
  bundle_reply,
}

round_tenths-lt : (k us : ℕ) → (k * 10 < round_tenths us) ↔ (k * 1000000 + 50000 < us)
unfolding round_tenths
round_tenths-lt k us = ground arith

-- A bundle with a build time other than zero counts as stale exactly when more than the threshold
-- and 50 milliseconds have passed since it was built.
pub stale_iff :
    (built_at now threshold : ℕ)
    → built_at ≢ 0
    → (is_stale (bundle_age (some built_at) now) threshold ≡ true)
      ↔ (threshold * 1000000 + 50000 < now - built_at)
unfolding bundle_age is_stale
stale_iff built_at now threshold h = ground (arith, round_tenths-lt threshold (now - built_at))

pub health_status-http :
    (ready stale : Bool)
    → ◌≡◌ {A = ℕ}
        (let status = health_status ready stale in
          if status == "healthy" || status == "degraded" then 200 else 503)
        (if ready then 200 else 503)
unfolding health_status
health_status-http false stale = refl
health_status-http true false = refl
health_status-http true true = refl

module _ (R : Runtime) (cfg : Config) where
  -- In a consistent state `/health` answers 503 exactly when the bundle endpoint does, whatever
  -- tag the client holds.
  pub health-serve_bundle :
      (s : Server R) (if_none_match : Option String)
      → IsConsistent s
      → ((serve_health R cfg s).0.status ≡ 503) ↔ ((serve_bundle R s if_none_match).status ≡ 503)
  unfolding serve_health serve_bundle bundle_reply health_at
  health-serve_bundle s m h = ground (
    arith,
    health_status-http s.data_ready (
        is_stale (bundle_age s.current_built_at (R.time s.client.world).0) cfg.staleness_threshold),
  )
