-- ===== src/BundleServer/System/Counts.antt =====
-- The counts of rebuilds over all that the threads do.
use noumena_mcp_gateway_poc.Base.{ℕ, ◌+◌, ◌≡◌, refl, ◌∙◌, String, Option, List, [], ◌∷◌, arith}
use noumena_mcp_gateway_poc.Base.Exec.{Result, ok, err}
use noumena_mcp_gateway_poc.Base.World.{Runtime}
use noumena_mcp_gateway_poc.BundleServer.Client.{Client, Config}
use noumena_mcp_gateway_poc.BundleServer.Fetch.{PolicyData, fetch_npl_data}
use noumena_mcp_gateway_poc.BundleServer.Server.{Server, initial, rebuild, rebuild_from, publish}
use noumena_mcp_gateway_poc.BundleServer.Handler.{do_get, serve_health}
use noumena_mcp_gateway_poc.BundleServer.Listener.{
  Listener, Stream, Event, Ending, closed, lost, connect, listen, listen_open, on_event, on_events,
  on_ending, on_open,
}
use noumena_mcp_gateway_poc.BundleServer.System.{
  Act, rebuilding, listening, requested, act, acts, main,
}

-- How many of the turns are rebuilds.
abbrev pub rebuilds : List Act → ℕ
rebuilds [] = 0
rebuilds (rebuilding ∷ turns) = rebuilds turns + 1
rebuilds (_ ∷ turns) = rebuilds turns

module _ (R : Runtime) (cfg : Config) where
  abbrev pub counted : Server R → ℕ
  counted s = s.rebuild_count + s.rebuild_error_count

  counted-rebuild_from :
      (s : Server R) (r : Result PolicyData × Client R)
      → counted (rebuild_from R s r) ≡ counted s + 1
  unfolding rebuild_from publish
  counted-rebuild_from s (ok p, c) = omega arith
  counted-rebuild_from s (err e, c) = omega arith

  counted-rebuild : (s : Server R) → counted (rebuild R cfg s) ≡ counted s + 1
  unfolding rebuild
  counted-rebuild s = counted-rebuild_from s (fetch_npl_data R cfg s.client)

  counted-on_events :
      (es : List Event) (l : Listener R) → counted (on_events R cfg es l).server ≡ counted l.server
  unfolding on_events on_event
  counted-on_events [] l = refl
  counted-on_events (e ∷ es) l = counted-on_events es (on_event R cfg e l) ∙ ground arith

  counted-on_ending :
      (e : Ending) (l : Listener R) → counted (on_ending R cfg e l).server ≡ counted l.server
  unfolding on_ending
  counted-on_ending closed l = refl
  counted-on_ending (lost e) l = refl

  counted-listen_open :
      (x : Stream) (l : Listener R) (r : Result (Unit {0}) × Client R)
      → counted (listen_open R cfg x l r).server ≡ counted l.server
  unfolding listen_open on_open
  counted-listen_open x l (ok _, c) = counted-on_ending x.ending _ ∙ counted-on_events x.events _
  counted-listen_open x l (err e, c) = refl

  counted-do_get :
      (path : String) (m : Option String) (s : Server R)
      → counted (do_get R cfg path m s).1 ≡ counted s
  unfolding do_get serve_health
  counted-do_get path m s = ground arith

  counted-acts :
      (turns : List Act) (l : Listener R)
      → counted (acts R cfg turns l).server ≡ counted l.server + rebuilds turns
  unfolding acts act listen
  counted-acts [] l = omega arith
  counted-acts (rebuilding ∷ turns) l =
      counted-acts turns _ ∙ omega (arith, counted-rebuild l.server)
  counted-acts (listening x ∷ turns) l =
      counted-acts turns _
      ∙ omega (arith, counted-listen_open x l (connect R cfg l.last_event_id l.server.client))
  counted-acts (requested path m ∷ turns) l =
      counted-acts turns _ ∙ omega (arith, counted-do_get path m l.server)

  -- After the first rebuild and any sequence of turns, of which a rebuild is one: each rebuild has
  -- been counted once, as a success or as an error, and no other turn has been counted.
  pub main-counted :
      (c : Client R) (turns : List Act) → counted (main R cfg c turns).server ≡ rebuilds turns + 1
  unfolding main
  main-counted c turns = counted-acts turns _ ∙ omega (arith, counted-rebuild (initial R c))
