-- ===== src/Dashboard/Sweep/Attempts.antt =====
-- The calls of Docker that a sweep makes.
use noumena_mcp_gateway_poc.Base.{ap, ◌∙◌, ◌≡◌, ◌≢◌, refl, true, List, [], ◌∷◌}
use noumena_mcp_gateway_poc.Base.Exec.{Result, ok, err, pure, handle, continue}
use noumena_mcp_gateway_poc.Base.World.{Runtime}
use noumena_mcp_gateway_poc.Dashboard.Cleanup.{Container, removed_containers}
use noumena_mcp_gateway_poc.Dashboard.Docker.{get_docker_client, Docker, Host, Box}
use noumena_mcp_gateway_poc.Dashboard.Sweep.{
  names_of, remove_each, sweep_inner, cleanup_orphaned_containers,
}

module _ (R : Runtime) (D : Docker R) where
  abbrev with_world : Host R → R.World → Host R
  with_world h w = record h { dash = record h.dash { world = w } }

  -- The removals one after another, whether or not they raise.
  abbrev pub attempted : List Container → R.World → R.World
  attempted [] w = w
  attempted (c ∷ cs) w = attempted cs (D.remove_child c w).1

  dropped : (r : Result (Unit {0})) (h : Host R) → handle (r, h) (λ e. pure tt) ≡ (ok tt, h)
  dropped (ok tt) h = refl
  dropped (err e) h = refl

  remove_each-attempted :
      (cs : List Container) (h : Host R)
      → remove_each R D cs h ≡ (ok tt, with_world h (attempted cs h.dash.world))
  unfolding remove_each
  remove_each-attempted [] h = refl
  remove_each-attempted (c ∷ cs) h =
      ap (λ r. continue r (λ _. remove_each R D cs))
        (dropped (D.remove_child c h.dash.world).0 (with_world h (D.remove_child c h.dash.world).1))
      ∙ remove_each-attempted cs (with_world h (D.remove_child c h.dash.world).1)

  -- If there is a Docker client, and Docker lists the inner containers, of which there is one at
  -- least, and all containers, a sweep returns, and it has attempted the removal of each container
  -- that is to be removed, in order, whichever of the removals raised.
  pub cleanup-attempted :
      (inner : List Container) (boxes : List Box) (h : Host R) {w₁ w₂ w₃ : R.World}
      → inner ≢ []
      → get_docker_client D h.dash.world ≡ (true, w₁)
      → D.list_inner w₁ ≡ (ok inner, w₂)
      → D.list_all w₂ ≡ (ok boxes, w₃)
      → cleanup_orphaned_containers R D h
        ≡ (ok tt, with_world h (attempted (removed_containers inner (names_of boxes)) w₃))
  unfolding cleanup_orphaned_containers sweep_inner
  cleanup-attempted [] boxes h n e₁ e₂ e₃ = absurd (n refl)
  cleanup-attempted (c ∷ cs) boxes h {w₃} n e₁ e₂ e₃ =
      rw
        (
          e₁,
          e₂,
          e₃,
          remove_each-attempted (removed_containers (c ∷ cs) (names_of boxes)) (with_world h w₃),
        )
        refl
