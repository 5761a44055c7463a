-- ===== src/BundleServer/System.antt =====
-- `main` of bundle-server/server.py: a first rebuild, and then the turns of its threads in any
-- order. A turn is a whole rebuild, a whole round of the listener or a whole request.
pub mod Counts
pub mod Served
use noumena_mcp_gateway_poc.Base.{◌≡◌, ◌↔◌, String, Option, none, List, [], ◌∷◌, arith}
use noumena_mcp_gateway_poc.Base.Exec.{Result, ok, err}
use noumena_mcp_gateway_poc.Base.World.{Runtime}
use noumena_mcp_gateway_poc.BundleServer.Client.{Client, Config}
use noumena_mcp_gateway_poc.BundleServer.Server.{Server, initial, rebuild}
use noumena_mcp_gateway_poc.BundleServer.Server.Consistency.{
  IsConsistent, initial-IsConsistent, rebuild-IsConsistent,
}
use noumena_mcp_gateway_poc.BundleServer.Handler.{do_get, serve_health, serve_bundle}
use noumena_mcp_gateway_poc.BundleServer.Handler.Health.{health-serve_bundle}
use noumena_mcp_gateway_poc.BundleServer.Listener.{
  Listener, Stream, Event, Ending, closed, lost, connect, listen, listen_open, on_event, on_events,
  on_ending, on_open,
}

-- What a thread does next. `rebuilding` stands for a turn of `rebuild_loop` or of
-- `reconciliation_loop`.
pub data Act : Type 0 where
  rebuilding : Act
  listening : Stream → Act
  requested : String → Option String → Act

module _ (R : Runtime) (cfg : Config) where
  abbrev with_server : Listener R → Server R → Listener R
  with_server l s = record l { server = s }

  unfoldable pub act : Act → Listener R → Listener R
  act rebuilding l = with_server l (rebuild R cfg l.server)
  act (listening x) l = listen R cfg x l
  act (requested path m) l = with_server l (do_get R cfg path m l.server).1

  unfoldable pub acts : List Act → Listener R → Listener R
  acts [] l = l
  acts (a ∷ turns) l = acts turns (act a l)

  -- `main`, from the token manager's first state.
  unfoldable pub main : Client R → List Act → Listener R
  main c turns = acts turns (record {
    server = rebuild R cfg (initial R c);
    last_event_id = none;
    backoff = 1;
    sleeps = [];
  })

  on_events-IsConsistent :
      (es : List Event) (l : Listener R)
      → IsConsistent l.server
      → IsConsistent (on_events R cfg es l).server
  unfolding on_events on_event
  on_events-IsConsistent [] l h = h
  on_events-IsConsistent (e ∷ es) l h =
      on_events-IsConsistent es (on_event R cfg e l) (ground arith)

  on_ending-IsConsistent :
      (e : Ending) (l : Listener R)
      → IsConsistent l.server
      → IsConsistent (on_ending R cfg e l).server
  unfolding on_ending
  on_ending-IsConsistent closed l h = h
  on_ending-IsConsistent (lost e) l h = ground arith

  listen_open-IsConsistent :
      (x : Stream) (l : Listener R) (r : Result (Unit {0}) × Client R)
      → IsConsistent l.server
      → IsConsistent (listen_open R cfg x l r).server
  unfolding listen_open on_open
  listen_open-IsConsistent x l (ok _, c) h =
      on_ending-IsConsistent x.ending _ (on_events-IsConsistent x.events _ (ground arith))
  listen_open-IsConsistent x l (err e, c) h = ground arith

  do_get-IsConsistent :
      (path : String) (m : Option String) (s : Server R)
      → IsConsistent s
      → IsConsistent (do_get R cfg path m s).1
  unfolding do_get serve_health
  do_get-IsConsistent path m s h = ground arith

  act-IsConsistent :
      (a : Act) (l : Listener R) → IsConsistent l.server → IsConsistent (act a l).server
  unfolding act listen
  act-IsConsistent rebuilding l h = rebuild-IsConsistent R cfg l.server h
  act-IsConsistent (listening x) l h =
      listen_open-IsConsistent x l (connect R cfg l.last_event_id l.server.client) h
  act-IsConsistent (requested path m) l h = do_get-IsConsistent path m l.server h

  acts-IsConsistent :
      (turns : List Act) (l : Listener R)
      → IsConsistent l.server
      → IsConsistent (acts turns l).server
  unfolding acts
  acts-IsConsistent [] l h = h
  acts-IsConsistent (a ∷ turns) l h = acts-IsConsistent turns (act a l) (act-IsConsistent a l h)

  -- Whatever turns the threads take after the start and whatever their requests bring: the tag
  -- quotes the revision, the bundle, the tag, the revision and the build time are all there or none
  -- is, and `data_ready` is set and the count of rebuilds is positive exactly if they are there.
  pub main-IsConsistent : (c : Client R) (turns : List Act) → IsConsistent (main c turns).server
  unfolding main
  main-IsConsistent c turns =
      acts-IsConsistent turns _
        (rebuild-IsConsistent R cfg (initial R c) (initial-IsConsistent R c))
