-- ===== src/BundleServer/System/Served.antt =====
-- What the bundle endpoint answers while rebuilds fail.
use noumena_mcp_gateway_poc.Base.{
  ◌<◌, ◌≡◌, ◌⊎◌, inl, inr, refl, ◌∙◌, ap, String, Option, List, [], ◌∷◌, arith,
}
use noumena_mcp_gateway_poc.Base.Exec.{Result, ok, err}
use noumena_mcp_gateway_poc.Base.World.{Runtime}
use noumena_mcp_gateway_poc.BundleServer.Client.{Client, Config}
use noumena_mcp_gateway_poc.BundleServer.Fetch.{PolicyData, fetch_npl_data}
use noumena_mcp_gateway_poc.BundleServer.Server.{Server, rebuild, rebuild_from, publish}
use noumena_mcp_gateway_poc.BundleServer.Handler.{do_get, serve_health}
use noumena_mcp_gateway_poc.BundleServer.Listener.{
  Listener, Stream, Event, Ending, closed, lost, connect, listen, listen_open, on_event, on_events,
  on_ending, on_open,
}
use noumena_mcp_gateway_poc.BundleServer.System.{Act, rebuilding, listening, requested, act, acts}
use noumena_mcp_gateway_poc.BundleServer.Handler.{serve_bundle, bundle_reply}

module _ (R : Runtime) (cfg : Config) where
  abbrev shown : Server R → Option R.Bytes × Option String
  shown s = (s.current_bundle, s.current_etag)

  -- The published bundle and its tag are the same, or more rebuilds have been counted as successes.
  abbrev Goes : Server R → Server R → Type 0
  Goes s s' =
      ((shown s' ≡ shown s) × (s'.rebuild_count ≡ s.rebuild_count))
      ⊎ (s.rebuild_count < s'.rebuild_count)

  Goes-trans : (s s' s'' : Server R) → Goes s s' → Goes s' s'' → Goes s s''
  Goes-trans s s' s'' (inl (e, n)) (inl (f, k)) = inl (f ∙ e, k ∙ n)
  Goes-trans s s' s'' (inl (e, n)) (inr k) = inr (omega arith)
  Goes-trans s s' s'' (inr n) (inl (f, k)) = inr (omega arith)
  Goes-trans s s' s'' (inr n) (inr k) = inr (omega arith)

  rebuild_from-Goes :
      (s : Server R) (r : Result PolicyData × Client R) → Goes s (rebuild_from R s r)
  unfolding rebuild_from publish
  rebuild_from-Goes s (ok p, c) = inr (omega arith)
  rebuild_from-Goes s (err e, c) = inl (refl, refl)

  on_event-Goes : (e : Event) (l : Listener R) → Goes l.server (on_event R cfg e l).server
  unfolding on_event
  on_event-Goes e l = inl (ground arith, ground arith)

  on_events-Goes : (es : List Event) (l : Listener R) → Goes l.server (on_events R cfg es l).server
  unfolding on_events
  on_events-Goes [] l = inl (refl, refl)
  on_events-Goes (e ∷ es) l =
      Goes-trans l.server (on_event R cfg e l).server
        (on_events R cfg es (on_event R cfg e l)).server (on_event-Goes e l)
        (on_events-Goes es (on_event R cfg e l))

  on_ending-Goes : (e : Ending) (l : Listener R) → Goes l.server (on_ending R cfg e l).server
  unfolding on_ending
  on_ending-Goes closed l = inl (refl, refl)
  on_ending-Goes (lost e) l = inl (refl, refl)

  stream-Goes :
      (x : Stream) (l : Listener R)
      → Goes l.server (on_ending R cfg x.ending (on_events R cfg x.events l)).server
  stream-Goes x l =
      Goes-trans l.server (on_events R cfg x.events l).server
        (on_ending R cfg x.ending (on_events R cfg x.events l)).server (on_events-Goes x.events l)
        (on_ending-Goes x.ending (on_events R cfg x.events l))

  listen_open-Goes :
      (x : Stream) (l : Listener R) (r : Result (Unit {0}) × Client R)
      → Goes l.server (listen_open R cfg x l r).server
  unfolding listen_open on_open
  listen_open-Goes x l (ok _, c) =
      stream-Goes x (on_open R cfg (record l { server = record l.server { client = c } }))
  listen_open-Goes x l (err e, c) = inl (refl, refl)

  do_get-Goes :
      (path : String) (m : Option String) (s : Server R) → Goes s (do_get R cfg path m s).1
  unfolding do_get serve_health
  do_get-Goes path m s = inl (ground arith, ground arith)

  act-Goes : (a : Act) (l : Listener R) → Goes l.server (act R cfg a l).server
  unfolding act listen rebuild
  act-Goes rebuilding l = rebuild_from-Goes l.server (fetch_npl_data R cfg l.server.client)
  act-Goes (listening x) l = listen_open-Goes x l (connect R cfg l.last_event_id l.server.client)
  act-Goes (requested path m) l = do_get-Goes path m l.server

  acts-Goes : (turns : List Act) (l : Listener R) → Goes l.server (acts R cfg turns l).server
  unfolding acts
  acts-Goes [] l = inl (refl, refl)
  acts-Goes (a ∷ turns) l =
      Goes-trans l.server (act R cfg a l).server (acts R cfg turns (act R cfg a l)).server
        (act-Goes a l) (acts-Goes turns (act R cfg a l))

  answer_of_shown :
      (s s' : Server R) (m : Option String)
      → Goes s s'
      → s'.rebuild_count ≡ s.rebuild_count
      → serve_bundle R s' m ≡ serve_bundle R s m
  unfolding serve_bundle bundle_reply
  answer_of_shown s s' m (inl (e, n)) same = ap (λ p. bundle_reply R p.0 p.1 m) e
  answer_of_shown s s' m (inr n) same = absurd (omega arith)

  -- Whatever turns the threads take in whatever state, failed rebuilds among them: if no rebuild is
  -- counted as a success, a client with any tag gets the answer for the bundle that it would have got
  -- before.
  pub acts-serve_bundle :
      (turns : List Act) (l : Listener R) (m : Option String)
      → (acts R cfg turns l).server.rebuild_count ≡ l.server.rebuild_count
      → serve_bundle R (acts R cfg turns l).server m ≡ serve_bundle R l.server m
  acts-serve_bundle turns l m same =
      answer_of_shown l.server (acts R cfg turns l).server m (acts-Goes turns l) same
