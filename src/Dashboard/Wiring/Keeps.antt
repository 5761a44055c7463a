-- ===== src/Dashboard/Wiring/Keeps.antt =====
-- The sessions beside `handle_docker_wire` of dashboard/server.py.
use noumena_mcp_gateway_poc.Base.{refl, String, Option, none, some}
use noumena_mcp_gateway_poc.Base.Exec.{Exec, Result, Exception, broken_pipe, ok, err, lift}
use noumena_mcp_gateway_poc.Base.Exec.Keeps.{Keeps, Keeps-bind, Keeps-lift, keeps_rules}
use noumena_mcp_gateway_poc.Base.Json.{Json, Items, nil, cons, Fields, item}
use noumena_mcp_gateway_poc.Base.World.{Runtime}
use noumena_mcp_gateway_poc.Dashboard.State.{Config}
use noumena_mcp_gateway_poc.Dashboard.Store.Keeps.{Keeps-npl_post, Keeps-ensure_store_id}
use noumena_mcp_gateway_poc.Dashboard.Tools.Keeps.{Keeps-discover_tools}
use noumena_mcp_gateway_poc.Dashboard.Docker.{Docker, Host}
use noumena_mcp_gateway_poc.Dashboard.Docker.Keeps.{
  both, table, Keeps-table, Keeps-change_config, Keeps-find_supergateway_image,
}
use noumena_mcp_gateway_poc.Dashboard.Launch.Keeps.{told, Keeps-emit, Keeps-pull_step, Keeps-launch}
use noumena_mcp_gateway_poc.Dashboard.Wiring.{
  attempt, register_backend, tell_tools, discover_step, npl, register_tools, catalog_step, register,
  with_image, wire_block, wire_failed, wired, handle_docker_wire,
}

module _ (R : Runtime) (D : Docker R) (cfg : Config) where
  Keeps-attempt : {A : Type 0} (m : Exec (Host R) A) → Keeps both m → Keeps both (attempt m)
  Keeps-attempt m km = record { at = λ h. km.at h }

  Keeps-tell_tools : (found : Result Items) → Keeps both (tell_tools R D cfg found)
  unfolding tell_tools
  Keeps-tell_tools (ok tools) = search told depth 24
  Keeps-tell_tools (err e) = search told depth 24

  Keeps-discover_step : (url : String) → Keeps both (discover_step R D cfg url)
  unfolding discover_step
  Keeps-discover_step url =
      search (told, Keeps-attempt, Keeps-tell_tools, Keeps-discover_tools) depth 14

  Keeps-npl : (path : String) (payload : Fields) → Keeps both (npl R D cfg path payload)
  unfolding npl
  Keeps-npl path payload = search (told, Keeps-npl_post) depth 14

  Keeps-register_tools :
      (sid : Json) (service : String) (tools : Items)
      → Keeps both (register_tools R D cfg sid service tools)
  unfolding register_tools
  Keeps-register_tools sid service nil = search told
  Keeps-register_tools sid service (cons t rest) =
      Keeps-bind (lift (item t "name")) _ (Keeps-lift _) (λ name.
        Keeps-bind (npl R D cfg _ _) (λ _. register_tools R D cfg sid service rest) (Keeps-npl _ _)
          (λ _. Keeps-register_tools sid service rest))

  Keeps-catalog_step :
      (service : String) (tools : Items) → Keeps both (catalog_step R D cfg service tools)
  unfolding catalog_step
  Keeps-catalog_step service tools =
      search (told, Keeps-npl, Keeps-ensure_store_id, Keeps-register_tools) depth 24

  Keeps-register_backend :
      (service url : String) → Keeps table (register_backend R D cfg service url)
  unfolding register_backend
  Keeps-register_backend service url =
      search (keeps_rules, Keeps-table, told, Keeps-change_config) depth 24

  Keeps-register : (service name : String) → Keeps table (register R D cfg service name)
  unfolding register
  Keeps-register service name =
      search
        (
          keeps_rules, Keeps-table, told, Keeps-register_backend, Keeps-discover_step,
          Keeps-catalog_step,
        )
        depth 24

  Keeps-with_image :
      (image service : String) (sg_image : Option String)
      → Keeps table (with_image R D cfg image service sg_image)
  unfolding with_image
  Keeps-with_image image service none = Keeps-table _ (Keeps-emit R _ _)
  Keeps-with_image image service (some sg_image) =
      search (keeps_rules, Keeps-table, told, Keeps-launch, Keeps-register) depth 14

  Keeps-wire_failed : (e : Exception) → Keeps both (wire_failed R D cfg e)
  unfolding wire_failed
  Keeps-wire_failed broken_pipe = record { at = λ h. refl }
  Keeps-wire_failed _ = search told

  Keeps-wire_block : (image service : String) → Keeps table (wire_block R D cfg image service)
  unfolding wire_block
  Keeps-wire_block image service =
      search
        (
          keeps_rules, Keeps-table, told, Keeps-pull_step, Keeps-find_supergateway_image,
          Keeps-with_image,
        )
        depth 14

  Keeps-wired : (image service : String) → Keeps table (wired R D cfg image service)
  unfolding wired
  Keeps-wired image service =
      search (keeps_rules, Keeps-table, told, Keeps-wire_block, Keeps-wire_failed) depth 14

  pub Keeps-docker_wire : (body : Json) → Keeps table (handle_docker_wire R D cfg body)
  unfolding handle_docker_wire
  Keeps-docker_wire body = search (keeps_rules, Keeps-wired) depth 14
