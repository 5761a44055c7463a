-- ===== src/BundleServer/Listener/Resume.antt =====
-- Where `sse_listener` resumes, and what it signals.
use noumena_mcp_gateway_poc.Base.{
  ◌≡◌, refl, String, ◌==◌, Bool, ◌||◌, ◌&&◌, not, Option, List, [], ◌∷◌, arith, true, false,
  if◌then◌else◌, some,
}
use noumena_mcp_gateway_poc.Base.Exec.{ok}
use noumena_mcp_gateway_poc.Base.World.{Runtime}
use noumena_mcp_gateway_poc.BundleServer.Client.{Client, Config}
use noumena_mcp_gateway_poc.BundleServer.Listener.{
  Ending, Listener, Stream, Event, closed, connect, listen, on_event, on_events, on_ending, on_open,
}

-- The id of the last state event that has one.
abbrev pub last_id : List Event → Option String → Option String
last_id [] id = id
last_id (e ∷ es) id = last_id es (if e.event == "state" && not (e.id == "") then some e.id else id)

abbrev pub has_state : List Event → Bool
has_state [] = false
has_state (e ∷ es) = e.event == "state" || has_state es

module _ (R : Runtime) (cfg : Config) where
  on_events_lem :
      (es : List Event) (l : Listener R)
      → ((on_events R cfg es l).last_event_id ≡ last_id es l.last_event_id)
        × ((on_events R cfg es l).server.current_sse_event_id
            ≡ last_id es l.server.current_sse_event_id)
        × ((on_events R cfg es l).server.rebuild_signal ≡ (has_state es || l.server.rebuild_signal))
        × ((on_events R cfg es l).server.sse_connected ≡ l.server.sse_connected)
        × ((on_events R cfg es l).sleeps ≡ l.sleeps)
  unfolding on_events on_event
  on_events_lem [] l = (refl, refl, refl, refl, refl)
  on_events_lem (e ∷ es) l = ground (arith, on_events_lem es (on_event R cfg e l))

  abbrev opened : Listener R → Client R → Listener R
  opened l c = on_open R cfg (record l { server = record l.server { client = c } })

  -- How a stream ends moves no id and no signal.
  on_ending_lem :
      (e : Ending) (l : Listener R)
      → ((on_ending R cfg e l).last_event_id ≡ l.last_event_id)
        × ((on_ending R cfg e l).server.current_sse_event_id ≡ l.server.current_sse_event_id)
        × ((on_ending R cfg e l).server.rebuild_signal ≡ l.server.rebuild_signal)
  unfolding on_ending
  on_ending_lem e l = ground arith

module _ (R : Runtime) (cfg : Config) (x : Stream) (l : Listener R) {c : Client R} where
  -- A round that opens the stream moves both ids to the last state event that carries one, however
  -- the stream ends, and leaves the rebuild signal set if it was set or there was a state event.
  pub listen-opened :
      connect R cfg l.last_event_id l.server.client ≡ (ok tt, c)
      → ((listen R cfg x l).last_event_id ≡ last_id x.events l.last_event_id)
        × ((listen R cfg x l).server.current_sse_event_id
            ≡ last_id x.events l.server.current_sse_event_id)
        × ((listen R cfg x l).server.rebuild_signal
            ≡ (has_state x.events || l.server.rebuild_signal))
  unfolding listen on_open on_ending
  listen-opened h = rw h (
      ground (
        arith,
        on_events_lem R cfg x.events (opened R cfg l c),
        on_ending_lem R cfg x.ending (on_events R cfg x.events (opened R cfg l c)),
      ))

  -- When the server closes the stream that a round opened, the round ends with no wait, and the
  -- state still reports a connection.
  pub listen-closed :
      connect R cfg l.last_event_id l.server.client ≡ (ok tt, c)
      → x.ending ≡ closed
      → ((listen R cfg x l).server.sse_connected ≡ true) × ((listen R cfg x l).sleeps ≡ l.sleeps)
  unfolding listen on_open on_ending
  listen-closed h k = rw (h, k) (ground (arith, on_events_lem R cfg x.events (opened R cfg l c)))
