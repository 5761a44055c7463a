-- ===== src/Tests/Bundle.antt =====
-- The bundle server in the test world.
use noumena_mcp_gateway_poc.Base.{
  ◌+◌, ◌≡◌, refl, true, false, none, some, List, [], ◌∷◌, arith, if◌then◌else◌, ltb, inl, inr,
}
use noumena_mcp_gateway_poc.Base.Exec.{Result, Exec-cases, ok, err, request_failed, ◌>>◌}
use noumena_mcp_gateway_poc.Base.Json.{null, num, str, truthy, item, get, number, lookup}
use noumena_mcp_gateway_poc.Base.World.{Runtime, Response}
use noumena_mcp_gateway_poc.BundleServer.Client.{
  Client, get_token, refresh, held, send, now, raise_for_status,
}
use noumena_mcp_gateway_poc.BundleServer.Fetch.{fetch_npl_data}
use noumena_mcp_gateway_poc.BundleServer.Governance.{npl_get}
use noumena_mcp_gateway_poc.BundleServer.Client.Caching.{Granted, get_token-lifetime}
use noumena_mcp_gateway_poc.BundleServer.Server.{initial, rebuild, rebuild_from}
use noumena_mcp_gateway_poc.BundleServer.Server.Consistency.{IsConsistent}
use noumena_mcp_gateway_poc.BundleServer.Listener.{
  Listener, Stream, closed, lost, connect, listen, listen_all,
}
use noumena_mcp_gateway_poc.BundleServer.Listener.Backoff.{IsPaced, IsDown, listen_all-IsPaced}
use noumena_mcp_gateway_poc.BundleServer.Listener.Resume.{listen-closed}
use noumena_mcp_gateway_poc.BundleServer.Debounce.{Turn, signaller, loop, run, start, wait}
use noumena_mcp_gateway_poc.BundleServer.Debounce.Settling.{loop_turns, run_seen, run_settles}
use noumena_mcp_gateway_poc.BundleServer.System.{
  Act, rebuilding, listening, requested, act, acts, main, main-IsConsistent,
}
use noumena_mcp_gateway_poc.BundleServer.System.Served.{acts-serve_bundle}
use noumena_mcp_gateway_poc.BundleServer.Handler.{do_get, serve_bundle, serve_health}
use noumena_mcp_gateway_poc.BundleServer.System.Counts.{counted, rebuilds, main-counted}
use noumena_mcp_gateway_poc.Tests.Lab.{
  lab, at, reply, grant, cfg, fresh_client, held_client, store_listing,
}

abbrev granted : Granted lab cfg (fresh_client (reply 200 (grant 60) ∷ []))
unfolding truthy item get number lookup
granted = record {
  resp = record { status_code = 200; text = ""; headers = []; json = ok (grant 60) };
  sent_world = at 100000000 [];
  body = grant 60;
  token = str "jwt";
  expires_in = num 60;
  seconds = 60;
  no_token = refl;
  sent = refl;
  accepted = omega arith;
  parsed = refl;
  has_token = refl;
  is_token = refl;
  has_lifetime = refl;
  is_lifetime = refl;
}

-- The deadline is at 150 seconds.
get_token-lifetime_example :
    (let c' = record (get_token lab cfg (fresh_client (reply 200 (grant 60) ∷ []))).1 {
      world = at 120000000 [];
    } in
      get_token lab cfg c' ≡ (
        if ltb 120000000 150000000
        then (ok (str "jwt"), record c' { world = at 121000000 [] })
        else (refresh lab cfg >> held lab cfg) (record c' { world = at 121000000 [] })))
unfolding granted
get_token-lifetime_example =
    get_token-lifetime lab cfg (fresh_client (reply 200 (grant 60) ∷ [])) granted (at 120000000 [])

-- A store that answers, then one that does not, with a state event in between.
abbrev turns : List Act
turns =
    listening
      (record { events = record { event = "state"; id = "7" } ∷ []; ending = lost request_failed })
    ∷ rebuilding
    ∷ requested "/bundles/mcp/data.tar.gz" (some "\"x\"")
    ∷ []

abbrev first_client : Client lab
first_client =
    fresh_client
      (reply 200 (grant 60) ∷ reply 200 store_listing ∷ reply 200 null ∷ reply 500 null ∷ [])

main-IsConsistent_example : IsConsistent (main lab cfg first_client turns).server
main-IsConsistent_example = main-IsConsistent lab cfg first_client turns

main-counted_example : counted lab cfg (main lab cfg first_client turns).server ≡ rebuilds turns + 1
main-counted_example = main-counted lab cfg first_client turns

-- A bundle is served, and the store can no longer be listed.
abbrev serving : Listener lab
serving = record {
  server = record (initial lab (held_client (reply 500 null ∷ []))) {
    current_bundle = some [];
    current_etag = some "\"5\"";
    current_revision = some "5";
    rebuild_count = 1;
    data_ready = true;
  };
  last_event_id = none;
  backoff = 1;
  sleeps = [];
}

abbrev failing : List Act
failing = rebuilding ∷ requested "/health" none ∷ []

acts-serve_bundle_example :
    serve_bundle lab (acts lab cfg failing serving).server none
    ≡ serve_bundle lab serving.server none
unfolding acts act do_get serve_health rebuild rebuild_from fetch_npl_data get_token truthy now send
    npl_get raise_for_status
acts-serve_bundle_example = acts-serve_bundle lab cfg failing serving none refl

abbrev burst : List Turn
burst = signaller ∷ loop ∷ loop ∷ signaller ∷ loop ∷ loop ∷ loop ∷ loop ∷ []

run_seen_example : (run burst start).seen ≡ (run burst start).signals
unfolding run
run_seen_example = run_seen burst refl refl

run_settles_example :
    (let l = run (loop_turns 8) (run (signaller ∷ loop ∷ signaller ∷ []) start) in
      (l.next ≡ wait)
      × (l.signal ≡ false)
      × (l.seen ≡ (run (signaller ∷ loop ∷ signaller ∷ []) start).signals))
run_settles_example = run_settles (signaller ∷ loop ∷ signaller ∷ [])

abbrev listener : List (Result Response) → Listener lab
listener replies = record {
  server = initial lab (held_client replies);
  last_event_id = some "6";
  backoff = 4;
  sleeps = [];
}

abbrev one_event : Stream
one_event = record { events = record { event = "state"; id = "7" } ∷ []; ending = closed }

abbrev open_client : Client lab
open_client = record (held_client []) { world = at 101000000 [] }

listen-closed_example :
    (let l = listen lab cfg one_event (listener (reply 200 null ∷ [])) in
      (l.server.sse_connected ≡ true) × (l.sleeps ≡ []))
unfolding connect get_token truthy now send raise_for_status
listen-closed_example =
    listen-closed lab cfg one_event (listener (reply 200 null ∷ [])) {c = open_client} refl refl

abbrev two_streams : List Stream
two_streams = one_event ∷ record { events = []; ending = lost request_failed } ∷ []

listen_all-IsPaced_example : IsPaced (listen_all lab cfg two_streams (listener []))
listen_all-IsPaced_example =
    listen_all-IsPaced lab cfg two_streams (listener [])
      (record { at_least = omega arith; at_most = omega arith; slept = tt })

-- No request gets through.
abbrev down_lab : Runtime
down_lab = record lab { send = λ q w. (err request_failed, w) }

down : IsDown down_lab cfg
unfolding connect get_token refresh send
down id c = elim (Exec-cases (connect down_lab cfg id c)) [
  | inl (u, c', p) ↦ absurd (ground (arith, p))
  | inr (e, c', p) ↦ (e, c', p)
]

abbrev down_listener : Listener down_lab
down_listener = record {
  server = initial down_lab (record { token = null; expires_at = 0; world = at 0 [] });
  last_event_id = none;
  backoff = 1;
  sleeps = [];
}
