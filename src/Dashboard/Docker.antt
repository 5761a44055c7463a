-- ===== src/Dashboard/Docker.antt =====
-- Docker, as the handlers of dashboard/server.py use it through its library.
pub mod Keeps
use noumena_mcp_gateway_poc.Base.{
  ℕ, String, ◌<>◌, Bool, true, false, not, ◌&&◌, ◌||◌, Option, none, some, List, [], ◌∷◌,
  starts_with, eqb, ◌==◌, if◌then◌else◌,
}
use noumena_mcp_gateway_poc.Base.Exec.{
  Exec, Exception, Result, ok, err, pure, lift, try_except, ◌>>=◌, ◌>>◌,
}
use noumena_mcp_gateway_poc.Base.Json.{Json, str, obj, end, field, bool, get, truthy}
use noumena_mcp_gateway_poc.Base.Text.{has_part, remove_suffix}
use noumena_mcp_gateway_poc.Base.World.{Runtime}
use noumena_mcp_gateway_poc.Dashboard.State.{
  Dash, Config, Reply, send_json, send_error_json, format,
}
use noumena_mcp_gateway_poc.Dashboard.Backends.{Gateway}
use noumena_mcp_gateway_poc.Dashboard.Cleanup.{Container}
use noumena_mcp_gateway_poc.Dashboard.Proxy.{Wire}

-- A container as Docker shows it.
pub record Box : Type 0 where
  pub short_id : String
  pub name : String
  pub status : String
  -- the tags of its image, and the image's id
  pub tags : List String
  pub image : String
  -- the entries of its environment
  pub env : List String

pub record Image : Type 0 where
  pub id : String
  pub tags : List String

-- What the library does; every call may raise, `not_found` where there is no such container.
pub record Docker (R : Runtime) : Type 0 where
  -- whether the library is installed
  pub is_installed : Bool
  -- a client of the daemon
  pub from_env : R.World → Result (Unit {0}) × R.World
  pub list_all : R.World → Result (List Box) × R.World
  -- those with the label `gateway.parent=…`
  pub list_children : String → R.World → Result (List Box) × R.World
  -- those with the label `gateway.parent`, whatever its value
  pub list_inner : R.World → Result (List Container) × R.World
  -- those made from an image
  pub list_ancestor : String → R.World → Result (List Box) × R.World
  -- the container of a name, which is a value of a request
  pub find : Json → R.World → Result Box × R.World
  pub restart : Box → R.World → Result (Unit {0}) × R.World
  pub stop : Box → R.World → Result (Unit {0}) × R.World
  pub remove : Box → R.World → Result (Unit {0}) × R.World
  -- the removal of one of `list_inner`
  pub remove_child : Container → R.World → Result (Unit {0}) × R.World
  -- `run` with an image, a name and the environment variable `MCP_COMMAND`
  pub run : String → String → String → R.World → Result (Unit {0}) × R.World
  pub list_images : R.World → Result (List Image) × R.World
  pub pull : String → R.World → Result (Unit {0}) × R.World
  -- a pull that shows its progress: the lines, and the exception that ends them
  pub pull_lines : String → R.World → (List Json × Option Exception) × R.World
  -- the address of a container in a network
  pub address : Box → String → Result String
  pub sleep : ℕ → R.World → R.World
  -- `c.name.lower()`
  pub lower : String → String

-- What these handlers change: the module's state, the configuration file of the gateway, and the
-- connection to the browser.
pub record Host (R : Runtime) : Type 0 where
  pub dash : Dash R
  pub gateway : Gateway
  pub wire : Wire

abbrev client_of : {W : Type 0} → Result (Unit {0}) × W → Bool × W
client_of (ok _, w) = (true, w)
client_of (err e, w) = (false, w)

module _ {R : Runtime} where
  abbrev with_dash : {A : Type 0} → Host R → A × Dash R → A × Host R
  with_dash h (a, d) = (a, record h { dash = d })

  abbrev pub on_dash : {A : Type 0} → Exec (Dash R) A → Exec (Host R) A
  on_dash m h = with_dash h (m h.dash)

  abbrev with_wire : {A : Type 0} → Host R → A × Wire → A × Host R
  with_wire h (a, w) = (a, record h { wire = w })

  abbrev pub on_wire : {A : Type 0} → Exec Wire A → Exec (Host R) A
  on_wire m h = with_wire h (m h.wire)

  abbrev with_world : {A : Type 0} → Host R → A × R.World → A × Host R
  with_world h (a, w) = (a, record h { dash = record h.dash { world = w } })

  -- A call of the library.
  abbrev pub docker : {A : Type 0} → (R.World → Result A × R.World) → Exec (Host R) A
  docker m h = with_world h (m h.dash.world)

  -- Whether there is a client.
  unfoldable pub get_docker_client : Docker R → R.World → Bool × R.World
  get_docker_client D w = if D.is_installed then client_of (D.from_env w) else (false, w)

  abbrev asked : Host R → Bool × R.World → Result Bool × Host R
  asked h (b, w) = (ok b, record h { dash = record h.dash { world = w } })

  abbrev pub available : Docker R → Exec (Host R) Bool
  available D h = asked h (get_docker_client D h.dash.world)

module _ {R : Runtime} where
  abbrev pub with_gateway : Host R → Result Gateway → Result (Unit {0}) × Host R
  with_gateway h (ok g) = (ok tt, record h { gateway = g })
  with_gateway h (err e) = (err e, h)

  -- A change of the configuration, with no call of Docker.
  abbrev pub on_gateway : (Gateway → Result Gateway) → Exec (Host R) (Unit {0})
  on_gateway f h = with_gateway h (f h.gateway)

module _ (R : Runtime) (D : Docker R) (cfg : Config) where
  -- An exception is passed over.
  unfoldable pub restart_aigw : Exec (Host R) (Unit {0})
  restart_aigw = do
    there ← available D
    if there
        then try_except (do c ← docker (D.find (str cfg.aigw_container_name)); docker (D.restart c))
            (λ e. pure tt)
        else pure tt

  -- The restart, if one has been asked for since there were `restarts` of them.
  unfoldable pub restart_after : ℕ → Exec (Host R) (Unit {0})
  restart_after restarts h = if eqb h.gateway.restarts restarts then (ok tt, h) else restart_aigw h

  -- A change of the configuration, and the calls of Docker that follow if it was written.
  unfoldable pub change_config : (Gateway → Result Gateway) → Exec (Host R) (Unit {0})
  change_config f h = (on_gateway f >> restart_after h.gateway.restarts) h

-- `any(…)` of a test on a list.
abbrev any : {A : Type 0} → (A → Bool) → List A → Bool
any p [] = false
any p (x ∷ xs) = p x || any p xs

module _ (R : Runtime) (D : Docker R) where
  -- A container of the gateway's own.
  unfoldable pub is_supergateway : Box → Bool
  is_supergateway c =
      has_part "supergateway" c.name
      || (starts_with c.name "gateway-" && not (remove_suffix "-mcp-1" c.name == c.name))

  unfoldable pub first_container : List Box → Option String
  first_container [] = none
  first_container (c ∷ cs) = if is_supergateway c then some c.image else first_container cs

  -- The image of the first tag that names the supergateway.
  unfoldable pub first_image : List Image → Option String
  first_image [] = none
  first_image (i ∷ is) =
      if any (λ tag. has_part "supergateway" tag || has_part "duckduckgo-mcp" tag) i.tags
      then some i.id
      else first_image is

  unfoldable pub search_image : Exec (Host R) (Option String)
  search_image = do
    cs ← docker D.list_all
    elim (first_container cs) [
      | some image ↦ pure (some image)
      | none ↦ (do is ← docker D.list_images; pure (first_image is))
    ]

  -- `none` for `None`
  unfoldable pub find_supergateway_image : Exec (Host R) (Option String)
  find_supergateway_image = do
    there ← available D
    if there then try_except search_image (λ e. pure none) else pure none

  -- `try: c.stop() except: pass`, and the removal, which may raise.
  unfoldable pub stop_and_remove : Box → Exec (Host R) (Unit {0})
  stop_and_remove c = do try_except (docker (D.stop c)) (λ e. pure tt); docker (D.remove c)

  -- The first removal that raises ends the loop.
  unfoldable pub remove_boxes : List Box → Exec (Host R) (Unit {0})
  remove_boxes [] = pure tt
  remove_boxes (c ∷ cs) = stop_and_remove c >> remove_boxes cs

  unfoldable pub pulled : Json → Exec (Host R) Reply
  pulled image =
      try_except
        (do
          docker (D.pull (format R image))
          pure (send_json (obj (field "ok" (bool true) (field "image" image end))) 200))
        (λ e. pure (send_error_json 500 ("Pull failed: " <> R.describe e)))

  -- An image that is no text is the library's to refuse.
  unfoldable pub handle_docker_pull : Json → Exec (Host R) Reply
  handle_docker_pull body = do
    image ← lift (get body "image" (str ""))
    if truthy image
        then (do
          there ← available D
          if there then pulled image else pure (send_error_json 503 "Docker not available"))
        else pure (send_error_json 400 "image required")
