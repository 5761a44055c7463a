-- ===== src/BundleServer/Overlap/Safety.antt =====
-- What other threads see of two rebuilds.
use noumena_mcp_gateway_poc.Base.{
  ◌≡◌, ◌↔◌, ◌≢◌, refl, String, Bool, true, false, ◌||◌, Option, List, [], ◌∷◌, is_some, ltb, arith,
}
use noumena_mcp_gateway_poc.Base.Exec.{Result, ok, err}
use noumena_mcp_gateway_poc.Base.World.{Runtime}
use noumena_mcp_gateway_poc.BundleServer.Client.{Client, Config}
use noumena_mcp_gateway_poc.BundleServer.Fetch.{PolicyData, fetch_npl_data}
use noumena_mcp_gateway_poc.BundleServer.Build.{etag_of}
use noumena_mcp_gateway_poc.BundleServer.Server.{Server, initial}
use noumena_mcp_gateway_poc.BundleServer.Server.Consistency.{Tagged, IsConsistent, build_bundle_lem}
use noumena_mcp_gateway_poc.BundleServer.Handler.{
  do_get, serve_health, serve_bundle, bundle_reply, health_at, is_stale, bundle_age,
}
use noumena_mcp_gateway_poc.BundleServer.Handler.Health.{health_status-http, health-serve_bundle}
use noumena_mcp_gateway_poc.BundleServer.Overlap.{
  Stage, idle, fetched, packed, stored, counted, Overlap, after_fetch, after_build, store, advance,
  Move, move, moves, rebuilder, reconciler, request, at_rest,
}

-- The stage has stored a bundle and not yet counted it.
abbrev uncounted : {R : Runtime} → Stage R → Bool
uncounted stored = true
uncounted _ = false

-- The stage has stored a bundle and not yet set `data_ready`.
abbrev unready : {R : Runtime} → Stage R → Bool
unready stored = true
unready counted = true
unready _ = false

-- What a stage knows of the shared state and of its own build.
abbrev Knows : (R : Runtime) → Stage R → Bool → Type 0
Knows R (packed b t) there = b.etag ≡ etag_of R b.revision
Knows R stored there = there ≡ true
Knows R counted there = there ≡ true
Knows R _ there = Unit

-- The state beside the stages `x` of a thread and `y` of the other.
pub record IsTidy (R : Runtime) (s : Server R) (x y : Stage R) : Type 0 where
  pub tagged : Tagged R s.current_etag s.current_revision
  pub has_etag : is_some s.current_bundle ≡ is_some s.current_etag
  pub has_time : is_some s.current_bundle ≡ is_some s.current_built_at
  pub ready_there : s.data_ready ≡ true → is_some s.current_bundle ≡ true
  pub count_there : ltb 0 s.rebuild_count ≡ true → is_some s.current_bundle ≡ true
  pub made_ready : is_some s.current_bundle ≡ true → s.data_ready || (unready x || unready y) ≡ true
  pub made_count :
      is_some s.current_bundle ≡ true → ltb 0 s.rebuild_count || (uncounted x || uncounted y) ≡ true
  pub knows : Knows R x (is_some s.current_bundle)
  pub other_knows : Knows R y (is_some s.current_bundle)

module _ (R : Runtime) (cfg : Config) where
  IsTidy-swap : (s : Server R) (x y : Stage R) → IsTidy R s x y → IsTidy R s y x
  IsTidy-swap s x y h = ground arith

  Knows-stored : (y : Stage R) (there : Bool) → Knows R y there → Knows R y true
  Knows-stored idle there k = tt
  Knows-stored (fetched p) there k = tt
  Knows-stored (packed b t) there k = k
  Knows-stored stored there k = refl
  Knows-stored counted there k = refl

  after_fetch-IsTidy :
      (s : Server R) (y : Stage R) (r : Result PolicyData × Client R)
      → IsTidy R s idle y
      → IsTidy R (after_fetch R s r).1 (after_fetch R s r).0 y
  unfolding after_fetch
  after_fetch-IsTidy s y (ok p, c) h = ground arith
  after_fetch-IsTidy s y (err e, c) h = ground arith

  advance-IsTidy :
      (x y : Stage R) (s : Server R)
      → IsTidy R s x y
      → IsTidy R (advance R cfg x s).1 (advance R cfg x s).0 y
  unfolding advance after_build store
  advance-IsTidy idle y s h = after_fetch-IsTidy s y (fetch_npl_data R cfg s.client) h
  advance-IsTidy (fetched p) y s h =
      ground (arith, build_bundle_lem R p s.current_sse_event_id s.client)
  advance-IsTidy (packed b t) y s h =
      ground (arith, Knows-stored y (is_some s.current_bundle) h.other_knows)
  advance-IsTidy stored y s h = ground arith
  advance-IsTidy counted y s h = ground arith

  move-IsTidy :
      (m : Move R cfg) (o : Overlap R)
      → IsTidy R o.server o.rebuilder o.reconciler
      → (let o' = move R cfg m o in IsTidy R o'.server o'.rebuilder o'.reconciler)
  unfolding move do_get serve_health
  move-IsTidy rebuilder o h = advance-IsTidy o.rebuilder o.reconciler o.server h
  move-IsTidy reconciler o h = IsTidy-swap _ _ _ (
      advance-IsTidy o.reconciler o.rebuilder o.server
        (IsTidy-swap o.server o.rebuilder o.reconciler h))
  move-IsTidy (request path m) o h = ground arith

  moves-IsTidy :
      (xs : List (Move R cfg)) (o : Overlap R)
      → IsTidy R o.server o.rebuilder o.reconciler
      → (let o' = moves R cfg xs o in IsTidy R o'.server o'.rebuilder o'.reconciler)
  unfolding moves
  moves-IsTidy [] o h = h
  moves-IsTidy (x ∷ xs) o h = moves-IsTidy xs (move R cfg x o) (move-IsTidy x o h)

  IsTidy-from_start :
      (c : Client R) (xs : List (Move R cfg))
      → (let o = moves R cfg xs (at_rest R (initial R c)) in
          IsTidy R o.server o.rebuilder o.reconciler)
  IsTidy-from_start c xs = moves-IsTidy xs (at_rest R (initial R c)) (ground arith)

  served_when_healthy :
      (s : Server R) (m : Option String)
      → (s.data_ready ≡ true → is_some s.current_bundle ≡ true)
      → (serve_health R cfg s).0.status ≡ 200
      → (serve_bundle R s m).status ≢ 503
  unfolding serve_health serve_bundle bundle_reply health_at
  served_when_healthy s m h = ground (
    arith,
    h,
    health_status-http s.data_ready (
        is_stale (bundle_age s.current_built_at (R.time s.client.world).0) cfg.staleness_threshold),
  )

  IsConsistent-at_rest :
      (s : Server R) (x y : Stage R) → x ≡ idle → y ≡ idle → IsTidy R s x y → IsConsistent s
  IsConsistent-at_rest s idle idle e e' h = ground arith
  IsConsistent-at_rest s _ _ e e' h = absurd (ground arith)

  -- However the parts of two rebuilds and the requests interleave, the tag quotes the revision,
  -- and the bundle, the tag and the build time are all there or none is.
  pub Tagged-moves :
      (c : Client R) (xs : List (Move R cfg))
      → (let s = (moves R cfg xs (at_rest R (initial R c))).server in
          Tagged R s.current_etag s.current_revision
          × (is_some s.current_bundle ≡ is_some s.current_etag)
          × (is_some s.current_bundle ≡ is_some s.current_built_at))
  Tagged-moves c xs = let h = IsTidy-from_start c xs in (h.tagged, h.has_etag, h.has_time)

  -- However the parts of two rebuilds and the requests interleave, when `/health` answers 200 the
  -- bundle endpoint does not answer 503.
  pub health-moves :
      (c : Client R) (xs : List (Move R cfg)) (m : Option String)
      → (serve_health R cfg (moves R cfg xs (at_rest R (initial R c))).server).0.status ≡ 200
      → (serve_bundle R (moves R cfg xs (at_rest R (initial R c))).server m).status ≢ 503
  health-moves c xs m = served_when_healthy _ m (IsTidy-from_start c xs).ready_there

  -- However the parts of two rebuilds and the requests interleave from the first state on, the
  -- state is consistent whenever neither thread is in a rebuild.
  pub IsConsistent-moves :
      (c : Client R) (xs : List (Move R cfg))
      → (moves R cfg xs (at_rest R (initial R c))).rebuilder ≡ idle
      → (moves R cfg xs (at_rest R (initial R c))).reconciler ≡ idle
      → IsConsistent (moves R cfg xs (at_rest R (initial R c))).server
  IsConsistent-moves c xs e e' =
      let o = moves R cfg xs (at_rest R (initial R c)) in
      IsConsistent-at_rest o.server o.rebuilder o.reconciler e e' (IsTidy-from_start c xs)

  -- However the parts of two rebuilds and the requests interleave from the first state on, whenever
  -- neither thread is in a rebuild, `/health` answers 503 exactly when the bundle endpoint does.
  pub moves-health :
      (c : Client R) (xs : List (Move R cfg)) (m : Option String)
      → (moves R cfg xs (at_rest R (initial R c))).rebuilder ≡ idle
      → (moves R cfg xs (at_rest R (initial R c))).reconciler ≡ idle
      → (let s = (moves R cfg xs (at_rest R (initial R c))).server in
          ((serve_health R cfg s).0.status ≡ 503) ↔ ((serve_bundle R s m).status ≡ 503))
  moves-health c xs m e e' =
      health-serve_bundle R cfg (moves R cfg xs (at_rest R (initial R c))).server m
        (IsConsistent-moves c xs e e')
