-- ===== src/Dashboard/Wiring/Order.antt =====
-- The order of the steps of `handle_docker_wire` of dashboard/server.py.
use noumena_mcp_gateway_poc.Base.{ap, ◌<>◌, ◌≡◌, refl, String, Option, none, some}
use noumena_mcp_gateway_poc.Base.Exec.{broken_pipe, Exception, Result, err}
use noumena_mcp_gateway_poc.Base.Exec.Keeps.{
  Raises, Raises-bind, Raises-bind_rest, Keeps-bind-Raises, Keeps-bind, Keeps,
}
use noumena_mcp_gateway_poc.Base.Json.{Json}
use noumena_mcp_gateway_poc.Base.World.{Runtime}
use noumena_mcp_gateway_poc.Dashboard.Docker.{Docker, Host, docker}
use noumena_mcp_gateway_poc.Dashboard.Launch.{
  emit, drop_children, drop_old, start_step, wait_step, launch,
}
use noumena_mcp_gateway_poc.Dashboard.Launch.Keeps.{told, Keeps-emit, Keeps-pull_step, Keeps-launch}
use noumena_mcp_gateway_poc.Dashboard.State.{Config}
use noumena_mcp_gateway_poc.Dashboard.Wiring.{
  with_image, wire_failed, wire_block, wired, register, handle_docker_wire,
}
use noumena_mcp_gateway_poc.Dashboard.Docker.Keeps.{both, steps, Keeps-find_supergateway_image}

module _ (R : Runtime) (D : Docker R) where
  -- Docker refuses to run any container.
  abbrev RefusesRun : Type 0
  RefusesRun =
      (sg_image name command : String) (w : R.World)
      → (e : Exception) × ((D.run sg_image name command w).0 ≡ err e)

  Raises-docker :
      {A : Type 0} (m : R.World → Result A × R.World)
      → ((w : R.World) → (e : Exception) × ((m w).0 ≡ err e))
      → Raises (docker {R = R} m)
  Raises-docker m rm = record { at = λ h. rm h.dash.world }

  Raises-start_step :
      RefusesRun → (sg_image name image : String) → Raises (start_step R D sg_image name image)
  unfolding start_step
  Raises-start_step refuses sg_image name image =
      Raises-bind_rest _ _ (λ _. Raises-bind _ _ (Raises-docker _ (refuses sg_image name _)))

  Raises-launch :
      RefusesRun → (sg_image name image : String) → Raises (launch R D sg_image name image)
  unfolding launch
  Raises-launch refuses sg_image name image =
      Raises-bind_rest (drop_children R D name image) _ (λ _.
        Raises-bind_rest (drop_old R D name) _ (λ _.
          Raises-bind (start_step R D sg_image name image) (λ _. wait_step R D)
            (Raises-start_step refuses sg_image name image)))

module _ (R : Runtime) (D : Docker R) (cfg : Config) (refuses : RefusesRun R D) where
  Keeps-with_image :
      (image service : String) (sg_image : Option String)
      → Keeps both (with_image R D cfg image service sg_image)
  unfolding with_image
  Keeps-with_image image service none = Keeps-emit R _ _
  Keeps-with_image image service (some sg_image) =
      let name = "gateway-" <> service <> "-mcp-1" in
      Keeps-bind (emit R "Found supergateway image" "done") _ (Keeps-emit R _ _) (λ _.
        Keeps-bind-Raises (launch R D sg_image name image) (λ _. register R D cfg service name)
          (Keeps-launch R D sg_image name image) (Raises-launch R D refuses sg_image name image))

  Keeps-wire_failed : (e : Exception) → Keeps both (wire_failed R D cfg e)
  unfolding wire_failed
  Keeps-wire_failed broken_pipe = record { at = λ h. refl }
  Keeps-wire_failed _ = search told

  Keeps-wire_block : (image service : String) → Keeps both (wire_block R D cfg image service)
  unfolding wire_block
  Keeps-wire_block image service =
      search (told, Keeps-pull_step, Keeps-find_supergateway_image, Keeps-with_image image service)
        depth 14

  wired-RefusesRun : (image service : String) → Keeps both (wired R D cfg image service)
  unfolding wired
  wired-RefusesRun image service = search (told, Keeps-wire_block, Keeps-wire_failed) depth 14

  -- If Docker refuses to run every container, a request to wire a service leaves the gateway's
  -- configuration and its restarts as they were, however the request ends.
  pub handle_docker_wire-RefusesRun :
      (body : Json) (h : Host R) → (handle_docker_wire R D cfg body h).1.gateway ≡ h.gateway
  unfolding handle_docker_wire
  handle_docker_wire-RefusesRun body h =
      let keeps : Keeps both (handle_docker_wire R D cfg body) =
        search (steps, wired-RefusesRun) depth 14 in
      ap (λ p. p.0) (keeps.at h)
