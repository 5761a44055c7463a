-- ===== src/BundleServer/Server.antt =====
-- The shared state of bundle-server/server.py and `rebuild`.
pub mod Consistency
use noumena_mcp_gateway_poc.Base.{ℕ, ◌+◌, String, Bool, true, false, Option, none, some}
use noumena_mcp_gateway_poc.Base.Exec.{Exec, Exception, Result, ok, err}
use noumena_mcp_gateway_poc.Base.World.{Runtime}
use noumena_mcp_gateway_poc.BundleServer.Client.{Client, Config}
use noumena_mcp_gateway_poc.BundleServer.Fetch.{PolicyData, fetch_npl_data}
use noumena_mcp_gateway_poc.BundleServer.Build.{Built, build_bundle}

-- The module's variables, the token manager among them. `data_ready` and `rebuild_signal` are
-- the events; `client.world` is the outside.
pub record Server (R : Runtime) : Type 0 where
  pub client : Client R
  pub current_bundle : Option R.Bytes
  pub current_etag : Option String
  pub current_revision : Option String
  pub current_built_at : Option ℕ
  pub current_sse_event_id : Option String
  pub sse_connected : Bool
  pub last_sse_event_at : Option ℕ
  pub rebuild_count : ℕ
  pub rebuild_error_count : ℕ
  pub data_ready : Bool
  pub rebuild_signal : Bool

abbrev pub initial : (R : Runtime) → Client R → Server R
initial R c = record {
  client = c;
  current_bundle = none;
  current_etag = none;
  current_revision = none;
  current_built_at = none;
  current_sse_event_id = none;
  sse_connected = false;
  last_sse_event_at = none;
  rebuild_count = 0;
  rebuild_error_count = 0;
  data_ready = false;
  rebuild_signal = false;
}

module _ (R : Runtime) where
  abbrev with_world : Client R → R.World → Client R
  with_world c w = record c { world = w }

  -- The assignments after a build, at the clock's `t`: those under the lock, the count and the
  -- event.
  unfoldable pub publish : Built R → ℕ → Server R → Server R
  publish b t s = record s {
    current_bundle = some b.bytes;
    current_etag = some b.etag;
    current_revision = some b.revision;
    current_built_at = some t;
    rebuild_count = s.rebuild_count + 1;
    data_ready = true;
  }

  -- The clock is read twice, for `built_at` and for the log.
  published : Server R → Built R → Client R → ℕ × R.World → Server R
  unfolding publish
  published s b c (t, w) = publish b t (record s { client = with_world c (R.time w).1 })

  built : Server R → Built R × Client R → Server R
  unfolding published
  built s (b, c) = published s b c (R.time c.world)

module _ (R : Runtime) where
  unfoldable pub rebuild_from : Server R → Result PolicyData × Client R → Server R
  unfolding built
  rebuild_from s (ok p, c) = built R s (build_bundle R p s.current_sse_event_id c)
  rebuild_from s (err e, c) = record s {
    client = c;
    rebuild_error_count = s.rebuild_error_count + 1;
  }

module _ (R : Runtime) (cfg : Config) where
  unfoldable pub rebuild : Server R → Server R
  unfolding rebuild_from
  rebuild s = rebuild_from R s (fetch_npl_data R cfg s.client)
