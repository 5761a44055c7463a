-- ===== src/Dashboard/Sweep.antt =====
-- The sweeps of dashboard/server.py: `cleanup_orphaned_containers` with its calls of Docker, and the
-- loop of `_start_cleanup_daemon`.
pub mod Attempts
pub mod Keeps
use noumena_mcp_gateway_poc.Base.{ℕ, String, List, [], ◌∷◌, if◌then◌else◌}
use noumena_mcp_gateway_poc.Base.Exec.{Exec, Result, ok, pure, try_except, ◌>>=◌, ◌>>◌}
use noumena_mcp_gateway_poc.Base.World.{Runtime}
use noumena_mcp_gateway_poc.Dashboard.Cleanup.{Container, removed_containers}
use noumena_mcp_gateway_poc.Dashboard.Docker.{Docker, Host, Box, docker, available}

abbrev pub names_of : List Box → List String
names_of [] = []
names_of (c ∷ cs) = c.name ∷ names_of cs

-- `CLEANUP_INTERVAL`, in seconds.
abbrev pub cleanup_interval : ℕ
cleanup_interval = 60

module _ (R : Runtime) (D : Docker R) where
  -- Each removal in a `try` of its own.
  unfoldable pub remove_each : List Container → Exec (Host R) (Unit {0})
  remove_each [] = pure tt
  remove_each (c ∷ cs) = try_except (docker (D.remove_child c)) (λ e. pure tt) >> remove_each cs

  -- What follows the listing of the inner containers, unless there are none.
  unfoldable pub sweep_inner : List Container → Exec (Host R) (Unit {0})
  sweep_inner [] = pure tt
  sweep_inner (c ∷ cs) = do
    all_containers ← docker D.list_all
    remove_each (removed_containers (c ∷ cs) (names_of all_containers))

  unfoldable pub cleanup_orphaned_containers : Exec (Host R) (Unit {0})
  cleanup_orphaned_containers = do
    there ← available D
    if there then try_except (docker D.list_inner >>= sweep_inner) (λ e. pure tt) else pure tt

  abbrev slept : Host R → Result (Unit {0}) × Host R
  slept h =
      (ok tt, record h { dash = record h.dash { world = D.sleep cleanup_interval h.dash.world } })

  -- One turn of the daemon's loop.
  unfoldable pub daemon_turn : Exec (Host R) (Unit {0})
  daemon_turn = slept >> try_except cleanup_orphaned_containers (λ e. pure tt)
