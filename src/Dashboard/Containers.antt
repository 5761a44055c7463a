-- ===== src/Dashboard/Containers.antt =====
-- `handle_docker_stop` and `handle_docker_containers` of dashboard/server.py
pub mod Stopping
pub mod Keeps
use noumena_mcp_gateway_poc.Base.{
  ℕ, zero, suc, String, ◌<>◌, Bool, true, false, not, ◌&&◌, ◌||◌, Option, none, some, List, [], ◌∷◌,
  starts_with, ◌==◌, if◌then◌else◌, eqb,
}
use Prim.Native.Char.{code}
use noumena_mcp_gateway_poc.Base.Exec.{
  Exec, Exception, Result, ok, err, broken_pipe, not_found, type_error, pure, raise, lift, handle,
  try_except, ◌>>=◌, ◌>>◌,
}
use noumena_mcp_gateway_poc.Base.Json.{
  Json, num, str, obj, arr, Items, nil, cons, Fields, end, field, bool, get, item, truthy, append,
  count, iterate,
}
use noumena_mcp_gateway_poc.Base.Text.{has_part, split, is_space, all_space, drop_chars}
use noumena_mcp_gateway_poc.BundleServer.Build.{take_chars}
use noumena_mcp_gateway_poc.Base.World.{Runtime}
use noumena_mcp_gateway_poc.Dashboard.State.{
  Dash, Config, Reply, send_json, send_error_json, format,
}
use noumena_mcp_gateway_poc.Dashboard.Store.{npl_post, ensure_store_id}
use noumena_mcp_gateway_poc.Dashboard.Backends.{
  Gateway, add_backend_to_config, remove_backend_from_config,
}
use noumena_mcp_gateway_poc.Dashboard.Proxy.{Wire, write, begin}
use noumena_mcp_gateway_poc.Dashboard.Tools.{discover_tools}
use noumena_mcp_gateway_poc.Dashboard.Docker.{
  change_config, Box, Docker, Host, on_dash, on_wire, docker, available, find_supergateway_image,
  remove_boxes,
}

-- The last piece of a text between white space.
unfoldable pub last_word_from : String → String → String
last_word_from word String.[] = word
last_word_from word (String.◌∷◌ c s) =
    if is_space (code c)
    then (if all_space s then word else last_word_from "" s)
    else last_word_from (word <> String.◌∷◌ c "") s

module _ (R : Runtime) (D : Docker R) (cfg : Config) where
  -- The image that a supergateway's command names, by its environment.
  unfoldable pub command_image : List String → Option String
  command_image [] = none
  command_image (e ∷ es) =
      if starts_with e "MCP_COMMAND=" && has_part "docker run" e
      then some (last_word_from "" e)
      else command_image es

  unfoldable pub listed_ancestor : Option String → Exec (Host R) (List Box)
  listed_ancestor none = pure []
  listed_ancestor (some image) = docker (D.list_ancestor image)

  -- The inner containers by the label, or else by the image; looking for the image raises nothing.
  unfoldable pub inner_of : Json → Exec (Host R) (List Box)
  inner_of container_name = do
    inner ← docker (D.list_children (format R container_name))
    elim inner [
      | c ∷ cs ↦ pure (c ∷ cs)
      | [] ↦
          try_except
            (do sg ← docker (D.find container_name); listed_ancestor (command_image sg.env))
            (λ e. pure [])
    ]

  unfoldable pub remove_inner : Json → Exec (Host R) (Unit {0})
  remove_inner container_name =
      try_except (inner_of container_name >>= remove_boxes R D) (λ e. pure tt)

  -- A value that is no text is no key of the configuration's dict.
  unfoldable pub forget_named : Json → Exec (Host R) (Unit {0})
  forget_named (str service) = change_config R D cfg (remove_backend_from_config service)
  forget_named (arr _) = raise type_error
  forget_named (obj _) = raise type_error
  forget_named _ = pure tt

  -- A removal that raises is passed over.
  unfoldable pub forget_backend : Json → Exec (Host R) (Unit {0})
  forget_backend service =
      if truthy service then try_except (forget_named service) (λ e. pure tt) else pure tt

  unfoldable pub stop_block : Json → Json → Exec (Host R) Reply
  stop_block container_name service = do
    remove_inner container_name
    box ← docker (D.find container_name)
    docker (D.remove box)
    forget_backend service
    pure (send_json (obj (field "ok" (bool true) end)) 200)

  unfoldable pub stop_failed : Json → Exception → Reply
  stop_failed container_name not_found =
      send_error_json 404 ("Container " <> format R container_name <> " not found")
  stop_failed container_name e = send_error_json 500 (R.describe e)

  unfoldable pub stopped : Json → Json → Exec (Host R) Reply
  stopped container_name service = do
    there ← available D
    if there
        then try_except (stop_block container_name service)
            (λ e. pure (stop_failed container_name e))
        else pure (send_error_json 503 "Docker not available")

  unfoldable pub handle_docker_stop : Json → Exec (Host R) Reply
  handle_docker_stop body = do
    container_name ← lift (get body "containerName" (str ""))
    service ← lift (get body "serviceName" (str ""))
    stopped container_name service

  -- `env.get("MCP_COMMAND", "")`: the last entry of that name counts.
  unfoldable pub command_of : List String → String → String
  command_of [] command = command
  command_of (e ∷ es) command =
      command_of es (if starts_with e "MCP_COMMAND=" then drop_chars 12 e else command)

  abbrev image_name : List String → String → String
  image_name [] image = take_chars 20 image
  image_name (tag ∷ _) image = tag

  unfoldable pub container_entry : Box → Json
  container_entry c = obj (
      field "id" (str c.short_id) (
        field "name" (str c.name) (
          field "status" (str c.status) (
            field "image" (str (image_name c.tags c.image))
              (field "mcp_command" (str (command_of c.env "")) end)))))

  unfoldable pub mcp_containers : List Box → Items
  mcp_containers [] = nil
  mcp_containers (c ∷ cs) =
      let rest = mcp_containers cs in
      if not (command_of c.env "" == "") || has_part "mcp" (D.lower c.name)
      then cons (container_entry c) rest
      else rest

  abbrev containers_reply : Items → Bool → Reply
  containers_reply cs there =
      send_json (obj (field "containers" (arr cs) (field "docker_available" (bool there) end))) 200

  unfoldable pub handle_docker_containers : Exec (Host R) Reply
  handle_docker_containers = do
    there ← available D
    if there
        then try_except
            (do cs ← docker D.list_all; pure (containers_reply (mcp_containers cs) true))
            (λ e. pure (send_error_json 500 (R.describe e)))
        else pure (containers_reply nil false)
