-- ===== src/BundleServer/Overlap.antt =====
-- `rebuild` of bundle-server/server.py in the two threads that call it, `rebuild_loop` and
-- `reconciliation_loop`, beside the HTTP server: any interleaving of the parts of two rebuilds.
-- A part ends where another thread can see a difference; the assignments under the lock are one.
pub mod Safety
pub mod Overtaken
use noumena_mcp_gateway_poc.Base.{ℕ, ◌+◌, String, true, Option, some, List, [], ◌∷◌}
use noumena_mcp_gateway_poc.Base.Exec.{Result, ok, err}
use noumena_mcp_gateway_poc.Base.World.{Runtime}
use noumena_mcp_gateway_poc.BundleServer.Client.{Client, Config}
use noumena_mcp_gateway_poc.BundleServer.Fetch.{PolicyData, fetch_npl_data}
use noumena_mcp_gateway_poc.BundleServer.Build.{Built, build_bundle}
use noumena_mcp_gateway_poc.BundleServer.Server.{Server}
use noumena_mcp_gateway_poc.BundleServer.Handler.{do_get}

-- How far a thread's rebuild has come, with its local variables.
pub data Stage (R : Runtime) : Type 0 where
  idle : Stage R
  fetched : PolicyData → Stage R
  packed : Built R → ℕ → Stage R
  stored : Stage R
  counted : Stage R

-- The shared state, and the stages of the two threads.
pub record Overlap (R : Runtime) : Type 0 where
  pub server : Server R
  pub rebuilder : Stage R
  pub reconciler : Stage R

module _ (R : Runtime) where
  abbrev with_client : Server R → Client R → Server R
  with_client s c = record s { client = c }

  -- The fetch has ended; an exception ends the rebuild.
  unfoldable pub after_fetch : Server R → Result PolicyData × Client R → Stage R × Server R
  after_fetch s (ok p, c) = (fetched p, with_client s c)
  after_fetch s (err e, c) =
      (idle, record s { client = c; rebuild_error_count = s.rebuild_error_count + 1 })

  -- The clock is read for `built_at` and for the log.
  timed : Server R → Built R → Client R → ℕ × R.World → Stage R × Server R
  timed s b c (t, w) = (packed b t, with_client s (record c { world = (R.time w).1 }))

  -- The build has ended, in the state that it found.
  unfoldable pub after_build : Server R → Built R × Client R → Stage R × Server R
  unfolding timed
  after_build s (b, c) = timed s b c (R.time c.world)

  -- The assignments under the lock.
  unfoldable pub store : Built R → ℕ → Server R → Server R
  store b t s = record s {
    current_bundle = some b.bytes;
    current_etag = some b.etag;
    current_revision = some b.revision;
    current_built_at = some t;
  }

module _ (R : Runtime) (cfg : Config) where
  -- The next part of a rebuild.
  unfoldable pub advance : Stage R → Server R → Stage R × Server R
  unfolding after_fetch after_build store
  advance idle s = after_fetch R s (fetch_npl_data R cfg s.client)
  advance (fetched p) s = after_build R s (build_bundle R p s.current_sse_event_id s.client)
  advance (packed b t) s = (stored, store R b t s)
  advance stored s = (counted, record s { rebuild_count = s.rebuild_count + 1 })
  advance counted s = (idle, record s { data_ready = true })

  pub data Move : Type 0 where
    rebuilder reconciler : Move
    request : String → Option String → Move

  unfoldable pub move : Move → Overlap R → Overlap R
  unfolding advance
  move rebuilder o =
      let (next, s) = advance o.rebuilder o.server in record o { server = s; rebuilder = next }
  move reconciler o =
      let (next, s) = advance o.reconciler o.server in record o { server = s; reconciler = next }
  move (request path m) o = record o { server = (do_get R cfg path m o.server).1 }

  unfoldable pub moves : List Move → Overlap R → Overlap R
  unfolding move
  moves [] o = o
  moves (x ∷ xs) o = moves xs (move x o)

abbrev pub at_rest : (R : Runtime) → Server R → Overlap R
at_rest R s = record { server = s; rebuilder = idle; reconciler = idle }
