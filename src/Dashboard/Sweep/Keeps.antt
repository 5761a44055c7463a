-- ===== src/Dashboard/Sweep/Keeps.antt =====
-- The gateway's configuration and the sessions beside the sweeps of dashboard/server.py.
use noumena_mcp_gateway_poc.Base.{refl, List, [], ◌∷◌}
use noumena_mcp_gateway_poc.Base.Exec.{pure, try_except}
use noumena_mcp_gateway_poc.Base.Exec.Keeps.{Keeps, Keeps-bind}
use noumena_mcp_gateway_poc.Base.World.{Runtime}
use noumena_mcp_gateway_poc.Dashboard.Cleanup.{Container}
use noumena_mcp_gateway_poc.Dashboard.Docker.{Docker, docker}
use noumena_mcp_gateway_poc.Dashboard.Docker.Keeps.{both, steps, Keeps-docker}
use noumena_mcp_gateway_poc.Dashboard.Sweep.{
  remove_each, sweep_inner, cleanup_orphaned_containers, slept, daemon_turn,
}

module _ (R : Runtime) (D : Docker R) where
  Keeps-remove_each : (cs : List Container) → Keeps both (remove_each R D cs)
  unfolding remove_each
  Keeps-remove_each [] = search steps
  Keeps-remove_each (c ∷ cs) =
      Keeps-bind (try_except (docker (D.remove_child c)) (λ e. pure tt)) (λ _. remove_each R D cs)
        (search steps) (λ _. Keeps-remove_each cs)

  Keeps-sweep_inner : (cs : List Container) → Keeps both (sweep_inner R D cs)
  unfolding sweep_inner
  Keeps-sweep_inner [] = search steps
  Keeps-sweep_inner (c ∷ cs) =
      Keeps-bind (docker D.list_all) _ (Keeps-docker D.list_all) (λ boxes. Keeps-remove_each _)

  pub Keeps-cleanup : Keeps both (cleanup_orphaned_containers R D)
  unfolding cleanup_orphaned_containers
  Keeps-cleanup = search (steps, Keeps-sweep_inner) depth 14

  Keeps-slept : Keeps both (slept R D)
  Keeps-slept = record { at = λ h. refl }

  pub Keeps-daemon_turn : Keeps both (daemon_turn R D)
  unfolding daemon_turn
  Keeps-daemon_turn = search (steps, Keeps-slept, Keeps-cleanup)
