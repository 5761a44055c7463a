-- ===== src/BundleServer/Listener.antt =====
-- `sse_listener` of bundle-server/server.py: one round of its loop after another.
pub mod Backoff
pub mod Resume
use noumena_mcp_gateway_poc.Base.{
  ℕ, ◌*◌, String, ◌<>◌, true, false, Option, none, some, List, [], ◌∷◌, min, ◌==◌, if◌then◌else◌,
}
use noumena_mcp_gateway_poc.Base.Exec.{Exec, Exception, Result, ok, err, pure, raise, ◌>>=◌, ◌>>◌}
use noumena_mcp_gateway_poc.Base.World.{Runtime, Method}
use noumena_mcp_gateway_poc.BundleServer.Client.{Client, Config, get_token, send, raise_for_status}
use noumena_mcp_gateway_poc.BundleServer.Server.{Server}

-- An event of the stream; `id` is empty if it has none.
pub record Event : Type 0 where
  pub event : String
  pub id : String

-- How a stream ends: the server closes it, or reading it raises.
pub data Ending : Type 0 where
  closed : Ending
  lost : Exception → Ending

-- What the environment does in one round: the events that a stream, once open, delivers.
pub record Stream : Type 0 where
  pub events : List Event
  pub ending : Ending

-- The listener's own variables, beside the shared state. `sleeps` holds the seconds of its
-- sleeps, the latest first.
pub record Listener (R : Runtime) : Type 0 where
  pub server : Server R
  pub last_event_id : Option String
  pub backoff : ℕ
  pub sleeps : List ℕ

abbrev last_event_header : Option String → List (String × String)
last_event_header none = []
last_event_header (some id) = ("Last-Event-ID", id) ∷ []

module _ (R : Runtime) (cfg : Config) where
  -- The request for the stream, and its status.
  unfoldable pub connect : Option String → Exec (Client R) (Unit {0})
  unfolding get_token send raise_for_status
  connect last_event_id = do
    token ← get_token R cfg
    resp ← send (record {
      method = Method.get;
      url = cfg.npl_url <> "/api/streams/states";
      bearer = some token;
      extra = last_event_header last_event_id;
      payload = none;
    })
    raise_for_status resp

  at_time : Event → Listener R → ℕ × R.World → Listener R
  at_time e l (t, w) = record l {
    server = record l.server {
      client = record l.server.client { world = w };
      last_sse_event_at = some t;
      current_sse_event_id = if e.id == "" then l.server.current_sse_event_id else some e.id;
      rebuild_signal = true;
    };
    last_event_id = if e.id == "" then l.last_event_id else some e.id;
  }

  unfoldable pub on_event : Event → Listener R → Listener R
  unfolding at_time
  on_event e l = if e.event == "state" then at_time e l (R.time l.server.client.world) else l

  unfoldable pub on_events : List Event → Listener R → Listener R
  on_events [] l = l
  on_events (e ∷ es) l = on_events es (on_event e l)

  -- The `except` block, its sleep included.
  unfoldable pub on_exception : Listener R → Listener R
  on_exception l = record l {
    server = record l.server { sse_connected = false };
    backoff = min (l.backoff * 2) 30;
    sleeps = l.backoff ∷ l.sleeps;
  }

  unfoldable pub on_ending : Ending → Listener R → Listener R
  unfolding on_exception
  on_ending closed l = l
  on_ending (lost e) l = on_exception l

  unfoldable pub on_open : Listener R → Listener R
  on_open l = record l { server = record l.server { sse_connected = true }; backoff = 1 }

  unfoldable pub listen_open : Stream → Listener R → Result (Unit {0}) × Client R → Listener R
  unfolding on_open on_ending on_exception
  listen_open stream l (ok _, c) =
      on_ending stream.ending
        (on_events stream.events (on_open (record l { server = record l.server { client = c } })))
  listen_open stream l (err e, c) =
      on_exception (record l { server = record l.server { client = c } })

  -- One round of `while True`.
  unfoldable pub listen : Stream → Listener R → Listener R
  unfolding listen_open
  listen stream l = listen_open stream l (connect l.last_event_id l.server.client)

  unfoldable pub listen_all : List Stream → Listener R → Listener R
  listen_all [] l = l
  listen_all (x ∷ xs) l = listen_all xs (listen x l)
