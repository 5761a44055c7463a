-- ===== src/Dashboard/Launch/Keeps.antt =====
-- The gateway's configuration and the sessions beside the steps that start a container.
use noumena_mcp_gateway_poc.Base.{refl, String, List, [], ◌∷◌, Option, none, some}
use noumena_mcp_gateway_poc.Base.Exec.{not_found, pure, Exception, ok, ◌>>=◌}
use noumena_mcp_gateway_poc.Base.Exec.Keeps.{Keeps-bind, Keeps-pure, Keeps-try, Keeps}
use noumena_mcp_gateway_poc.Base.Json.{Json}
use noumena_mcp_gateway_poc.Base.World.{Runtime}
use noumena_mcp_gateway_poc.Dashboard.Docker.{Docker, docker, Box, remove_boxes}
use noumena_mcp_gateway_poc.Dashboard.Launch.{
  emit, emit_pull, emit_lines, pull_step, drop_children, old_children, drop_old, unless_not_found,
  start_step, wait_step, launch,
}
use noumena_mcp_gateway_poc.Dashboard.Docker.Keeps.{
  both, steps, Keeps-remove_boxes, Keeps-find_supergateway_image,
}

module _ (R : Runtime) where
  pub Keeps-emit : (step status : String) → Keeps both (emit R step status)
  unfolding emit
  Keeps-emit step status = search steps

  pub Keeps-emit_pull : (line : Json) → Keeps both (emit_pull R line)
  unfolding emit_pull
  Keeps-emit_pull line = search (steps, Keeps-emit) depth 14

  pub Keeps-emit_lines :
      (lines : List Json) (failure : Option Exception) → Keeps both (emit_lines R lines failure)
  unfolding emit_lines
  Keeps-emit_lines [] none = search steps
  Keeps-emit_lines [] (some e) = search steps
  Keeps-emit_lines (line ∷ lines) failure =
      Keeps-bind (emit_pull R line) (λ _. emit_lines R lines failure) (Keeps-emit_pull line)
        (λ _. Keeps-emit_lines lines failure)

pub ruleset told = (steps, Keeps-emit, Keeps-emit_lines)

module _ (R : Runtime) (D : Docker R) where
  pub Keeps-pull_step : (image : String) → Keeps both (pull_step R D image)
  unfolding pull_step
  Keeps-pull_step image = search told

  or_ancestors :
      (image : String) (inner : List Box)
      → Keeps both (elim inner [
        | [] ↦ docker {R = R} (D.list_ancestor image)
        | c ∷ cs ↦ λ h. (ok (c ∷ cs), h)
      ])
  or_ancestors image [] = search steps
  or_ancestors image (c ∷ cs) = record { at = λ h. refl }

  pub Keeps-drop_children : (name image : String) → Keeps both (drop_children R D name image)
  unfolding drop_children old_children
  Keeps-drop_children name image =
      Keeps-try (old_children R D name image >>= remove_boxes R D) (λ e. pure tt)
        (Keeps-bind (old_children R D name image) (remove_boxes R D)
          (Keeps-bind (docker (D.list_children name)) _ (search steps) (or_ancestors image))
          (Keeps-remove_boxes R D))
        (λ e. Keeps-pure tt)

  pub Keeps-unless_not_found : (e : Exception) → Keeps both (unless_not_found R D e)
  unfolding unless_not_found
  Keeps-unless_not_found not_found = record { at = λ h. refl }
  Keeps-unless_not_found _ = record { at = λ h. refl }

  pub Keeps-drop_old : (name : String) → Keeps both (drop_old R D name)
  unfolding drop_old
  Keeps-drop_old name = search (told, Keeps-unless_not_found) depth 14

  pub Keeps-start_step :
      (sg_image name image : String) → Keeps both (start_step R D sg_image name image)
  unfolding start_step
  Keeps-start_step sg_image name image = search told depth 14

  pub Keeps-wait_step : Keeps both (wait_step R D)
  unfolding wait_step
  Keeps-wait_step = search told depth 14

  pub Keeps-launch : (sg_image name image : String) → Keeps both (launch R D sg_image name image)
  unfolding launch
  Keeps-launch sg_image name image =
      search (steps, Keeps-drop_children, Keeps-drop_old, Keeps-start_step, Keeps-wait_step) depth
        14
