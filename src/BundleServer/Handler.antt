-- ===== src/BundleServer/Handler.antt =====
-- `BundleHandler` of bundle-server/server.py
pub mod Conditional
pub mod Health
use Prim.Native.Nat.{◌/◌, ◌%◌}
use noumena_mcp_gateway_poc.Base.{
  ℕ, ◌+◌, ◌-◌, ◌*◌, String, Bool, true, false, not, ◌&&◌, ◌||◌, Option, none, some, List, [], ◌∷◌,
  ltb, eqb, ◌==◌, if◌then◌else◌,
}
use noumena_mcp_gateway_poc.Base.Json.{Json, null, bool, num, str, obj, end, field}
use noumena_mcp_gateway_poc.Base.World.{Runtime}
use noumena_mcp_gateway_poc.BundleServer.Client.{Client, Config}
use noumena_mcp_gateway_poc.BundleServer.Build.{or_null}
use noumena_mcp_gateway_poc.BundleServer.Server.{Server}

-- The text of a JSON body and its length are the library's.
pub data Body (R : Runtime) : Type 0 where
  no_body : Body R
  json_body : Json → Body R
  bytes_body : R.Bytes → Body R

pub record Reply (R : Runtime) : Type 0 where
  pub status : ℕ
  pub etag : Option String
  pub content_type : Option String
  pub content_length : Option ℕ
  pub body : Body R

-- `round(x, 1)` of a number of microseconds, in tenths of a second; a tie goes to the even side.
unfoldable pub round_tenths : ℕ → ℕ
round_tenths us =
    let q = us / 100000 in
    let r = us % 100000 in if ltb r 50000 then q else if ltb 50000 r then q + 1 else q + q % 2

module _ (R : Runtime) where
  unfoldable pub send_error : ℕ → Reply R
  send_error status = record {
    status = status;
    etag = none;
    content_type = none;
    content_length = none;
    body = no_body;
  }

  -- `if_none_match and if_none_match == etag`
  unfoldable pub matches : Option String → Option String → Bool
  matches none etag = false
  matches (some m) none = false
  matches (some m) (some etag) = not (m == "") && m == etag

  -- What is served for the bundle and its tag, as the lock showed them.
  unfoldable pub bundle_reply : Option R.Bytes → Option String → Option String → Reply R
  unfolding matches send_error
  bundle_reply none etag if_none_match = send_error 503
  bundle_reply (some bundle) etag if_none_match =
      if matches if_none_match etag
      then record {
        status = 304;
        etag = etag;
        content_type = none;
        content_length = none;
        body = no_body;
      }
      else record {
        status = 200;
        etag = etag;
        content_type = some "application/gzip";
        content_length = some (R.byte_length bundle);
        body = bytes_body bundle;
      }

  unfoldable pub serve_bundle : Server R → Option String → Reply R
  unfolding bundle_reply
  serve_bundle s if_none_match = bundle_reply s.current_bundle s.current_etag if_none_match

-- `round(now - current_built_at, 1) if current_built_at else None`
unfoldable pub bundle_age : Option ℕ → ℕ → Option ℕ
unfolding round_tenths
bundle_age none now = none
bundle_age (some built_at) now =
    if eqb built_at 0 then none else some (round_tenths (now - built_at))

unfoldable pub is_stale : Option ℕ → ℕ → Bool
is_stale none threshold = false
is_stale (some age) threshold = ltb (threshold * 10) age

unfoldable pub health_status : Bool → Bool → String
health_status ready stale =
    if not ready then "initializing" else if stale then "degraded" else "healthy"

abbrev or_null_number : Option ℕ → Json
or_null_number none = null
or_null_number (some n) = num n

abbrev or_null_time : (R : Runtime) → Option ℕ → Json
or_null_time R none = null
or_null_time R (some t) = str (R.utc_stamp t)

module _ (R : Runtime) (cfg : Config) where
  -- The age is in tenths of a second.
  unfoldable pub health_body : Server R → String → Option ℕ → Json
  health_body s status age = obj (
      field "status" (str status) (
        field "revision" (or_null s.current_revision) (
          field "bundle_age_seconds" (or_null_number age) (
            field "sse_connected" (bool s.sse_connected) (
              field "last_sse_event_at" (or_null_time R s.last_sse_event_at) (
                field "rebuild_count" (num s.rebuild_count) (
                  field "rebuild_error_count" (num s.rebuild_error_count)
                    (field "staleness_threshold_seconds" (num cfg.staleness_threshold) end))))))))

  unfoldable pub health_at : Server R → ℕ → Reply R
  unfolding bundle_age is_stale health_status health_body
  health_at s now =
      let age = bundle_age s.current_built_at now in
      let status = health_status s.data_ready (is_stale age cfg.staleness_threshold) in
      record {
        status = if status == "healthy" || status == "degraded" then 200 else 503;
        etag = none;
        content_type = some "application/json";
        content_length = none;
        body = json_body (health_body s status age);
      }

  after_clock : Server R → ℕ × R.World → Reply R × Server R
  unfolding health_at
  after_clock s (now, w) = (health_at s now, record s { client = record s.client { world = w } })

  unfoldable pub serve_health : Server R → Reply R × Server R
  unfolding after_clock
  serve_health s = after_clock s (R.time s.client.world)

  unfoldable pub do_get : String → Option String → Server R → Reply R × Server R
  unfolding serve_bundle serve_health send_error
  do_get path if_none_match s =
      if path == "/bundles/mcp/data.tar.gz"
      then (serve_bundle R s if_none_match, s)
      else if path == "/health"
      then serve_health s
      else (send_error R 404, s)
