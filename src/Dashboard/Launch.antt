-- ===== src/Dashboard/Launch.antt =====
-- The steps of `handle_docker_wire` of dashboard/server.py up to the container that runs.
pub mod Keeps
use noumena_mcp_gateway_poc.Base.{String, ◌<>◌, Option, none, some, List, [], ◌∷◌, if◌then◌else◌}
use noumena_mcp_gateway_poc.Base.Exec.{
  Exec, Exception, ok, not_found, pure, raise, lift, try_except, ◌>>=◌, ◌>>◌,
}
use noumena_mcp_gateway_poc.Base.Json.{Json, str, obj, end, field, get, truthy}
use noumena_mcp_gateway_poc.Base.World.{Runtime}
use noumena_mcp_gateway_poc.Dashboard.State.{format}
use noumena_mcp_gateway_poc.Dashboard.Proxy.{write}
use noumena_mcp_gateway_poc.Dashboard.Docker.{Box, Docker, Host, on_wire, docker, remove_boxes}

module _ (R : Runtime) where
  -- A line of progress, as an event for the browser.
  unfoldable pub emit : String → String → Exec (Host R) (Unit {0})
  emit step status = on_wire (
      write (
        "data: "
        <> R.dumps_spaced (obj (field "step" (str step) (field "status" (str status) end)))
        <> "\n\n"))

  -- A line of the pull's progress.
  unfoldable pub emit_pull : Json → Exec (Host R) (Unit {0})
  emit_pull line = do
    status ← lift (get line "status" (str ""))
    prog ← lift (get line "progress" (str ""))
    layer ← lift (get line "id" (str ""))
    if truthy prog
        then emit ("  " <> format R layer <> ": " <> format R status <> " " <> format R prog)
            "pulling"
        else if truthy status
        then emit ("  " <> format R status <> " " <> format R layer) "pulling"
        else pure tt

  unfoldable pub emit_lines : List Json → Option Exception → Exec (Host R) (Unit {0})
  emit_lines [] none = pure tt
  emit_lines [] (some e) = raise e
  emit_lines (line ∷ lines) failure = emit_pull line >> emit_lines lines failure

module _ (R : Runtime) (D : Docker R) where
  -- Step 1
  unfoldable pub pull_step : String → Exec (Host R) (Unit {0})
  pull_step image = do
    emit R ("Pulling " <> image <> "...") "progress"
    progress ← docker (λ w. let (p, w') = D.pull_lines image w in (ok p, w'))
    emit_lines R progress.0 progress.1
    emit R ("Pulled " <> image) "done"

  unfoldable pub old_children : String → String → Exec (Host R) (List Box)
  old_children container_name image = do
    inner ← docker (D.list_children container_name)
    elim inner [ [] ↦ docker (D.list_ancestor image) | c ∷ cs ↦ pure (c ∷ cs) ]

  -- Step 3: what raises in the first part is dropped, in the second only that there is no such
  -- container.
  unfoldable pub drop_children : String → String → Exec (Host R) (Unit {0})
  drop_children container_name image =
      try_except (old_children container_name image >>= remove_boxes R D) (λ e. pure tt)

  unfoldable pub unless_not_found : Exception → Exec (Host R) (Unit {0})
  unless_not_found not_found = pure tt
  unless_not_found e = raise e

  unfoldable pub drop_old : String → Exec (Host R) (Unit {0})
  drop_old container_name =
      try_except
        (do
          old ← docker (D.find (str container_name))
          emit R ("Removing old container " <> container_name <> "...") "progress"
          docker (D.remove old)
          emit R "Removed old container" "done")
        unless_not_found

  -- Step 4
  unfoldable pub start_step : String → String → String → Exec (Host R) (Unit {0})
  start_step sg_image container_name image = do
    emit R ("Starting " <> container_name <> "...") "progress"
    docker (
        D.run sg_image container_name
          ("docker run -i --rm --init --label gateway.parent=" <> container_name <> " " <> image))
    emit R ("Started " <> container_name) "done"

  unfoldable pub wait_step : Exec (Host R) (Unit {0})
  wait_step = do
    emit R "Waiting for container to initialize (5s)..." "progress"
    docker (λ w. (ok tt, D.sleep 5 w))
    emit R "Container ready" "done"

  -- Steps 3 to 5
  unfoldable pub launch : String → String → String → Exec (Host R) (Unit {0})
  launch sg_image container_name image = do
    drop_children container_name image
    drop_old container_name
    start_step sg_image container_name image
    wait_step
