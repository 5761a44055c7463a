-- ===== src/Dashboard/System.antt =====
-- `main` of dashboard/server.py: a sweep, and then requests and sweeps in any order.
pub mod Sessions
pub mod Locked
use noumena_mcp_gateway_poc.Base.{ℕ, String, Bool, true, false, Option, none, some, List, [], ◌∷◌}
use noumena_mcp_gateway_poc.Base.Json.{Json, null}
use noumena_mcp_gateway_poc.Base.World.{Runtime}
use noumena_mcp_gateway_poc.Dashboard.State.{Dash, Config, TokenCache}
use noumena_mcp_gateway_poc.Dashboard.Backends.{Gateway}
use noumena_mcp_gateway_poc.Dashboard.Docker.{Docker, Host}
use noumena_mcp_gateway_poc.Dashboard.Server.{serve_post}
use noumena_mcp_gateway_poc.Dashboard.Pages.{Folder, Given, serve_get, do_head}
use noumena_mcp_gateway_poc.Dashboard.Sweep.{cleanup_orphaned_containers, daemon_turn}

-- A request with the number of writes that its connection takes, its path, the value of its cookie
-- `session`, and its text or its parameters; or a turn of the daemon that sweeps.
pub data Act : Type 0 where
  post : ℕ → String → Option String → String → Act
  get : ℕ → String → Option String → (String → String) → Given → Act
  head : ℕ → String → Option String → (String → String) → Given → Act
  options : Act
  sweep : Act

abbrev no_token : TokenCache
no_token = record { token = null; expires = 0 }

module _ {R : Runtime} where
  -- A new connection.
  abbrev pub new_connection : ℕ → Host R → Host R
  new_connection room h = record h { wire = record { started = false; written = []; room = room } }

  -- The module's variables when it is loaded, and the gateway's file.
  abbrev pub loaded : R.World → Gateway → Host R
  loaded w gateway = record {
    dash = record {
      sessions = [];
      admin = no_token;
      gateway = no_token;
      store_id = null;
      world = w;
    };
    gateway = gateway;
    wire = record { started = false; written = []; room = 0 };
  }

module _ (R : Runtime) (D : Docker R) (F : Folder R) (cfg : Config) where
  -- The state after an act, whether or not a request was answered.
  unfoldable pub act : Act → Host R → Host R
  act (Act.post room path cookie text) h =
      (serve_post R D cfg path cookie text (new_connection room h)).1
  act (Act.get room path cookie param g) h =
      (serve_get R D F cfg false path cookie param g (new_connection room h)).1
  act (Act.head room path cookie param g) h =
      (do_head R D F cfg path cookie param g (new_connection room h)).1
  act Act.options h = h
  act Act.sweep h = (daemon_turn R D h).1

  unfoldable pub acts : List Act → Host R → Host R
  acts [] h = h
  acts (a ∷ rest) h = acts rest (act a h)

  unfoldable pub main : List Act → R.World → Gateway → Host R
  main todo w gateway = acts todo (cleanup_orphaned_containers R D (loaded w gateway)).1
