-- ===== src/Dashboard/Docker/Keeps.antt =====
-- The gateway's configuration and the sessions beside calls of Docker.
use noumena_mcp_gateway_poc.Base.{ℕ, eqb, ap, ◌≡◌, refl, String, List, [], ◌∷◌, Option, none, some}
use noumena_mcp_gateway_poc.Base.Exec.{pure, Exec, Result, ok, err, ◌>>=◌}
use noumena_mcp_gateway_poc.Base.Exec.Keeps.{
  Raises, Raises-bind, Raises-bind_rest, Keeps-bind-Raises, Keeps-bind, Keeps-pure, Keeps-try,
  Keeps, part-if, keeps_rules,
}
use noumena_mcp_gateway_poc.Base.World.{Runtime}
use noumena_mcp_gateway_poc.Dashboard.Session.{Sessions}
use noumena_mcp_gateway_poc.Dashboard.State.{Dash, Config}
use noumena_mcp_gateway_poc.Dashboard.State.Keeps.{sessions}
use noumena_mcp_gateway_poc.Dashboard.Backends.{Gateway}
use noumena_mcp_gateway_poc.Dashboard.Proxy.{Wire}
use noumena_mcp_gateway_poc.Dashboard.Docker.{
  restart_aigw, restart_after, change_config, on_dash, on_gateway, with_gateway, available,
  search_image, first_container, first_image, find_supergateway_image, Docker, Host, on_wire,
  docker, Box, remove_boxes, stop_and_remove,
}

module _ {R : Runtime} where
  abbrev pub table : Host R → Sessions
  table h = h.dash.sessions

  abbrev pub both : Host R → Gateway × Sessions
  both h = (h.gateway, h.dash.sessions)

  pub Keeps-table : {A : Type 0} (m : Exec (Host R) A) → Keeps both m → Keeps table m
  Keeps-table m km = record { at = λ h. ap (λ p. p.1) (km.at h) }

  pub Keeps-on_dash : {A : Type 0} (m : Exec (Dash R) A) → Keeps sessions m → Keeps both (on_dash m)
  Keeps-on_dash m km = record { at = λ h. ap (λ t. (h.gateway, t)) (km.at h.dash) }

  with_table :
      (h : Host R) (r : Result Gateway) → (with_gateway h r).1.dash.sessions ≡ h.dash.sessions
  with_table h (ok g) = refl
  with_table h (err e) = refl

  Keeps-on_gateway : (f : Gateway → Result Gateway) → Keeps table (on_gateway {R = R} f)
  Keeps-on_gateway f = record { at = λ h. with_table h (f h.gateway) }

  pub Keeps-on_wire : {A : Type 0} (m : Exec Wire A) → Keeps both (on_wire m)
  Keeps-on_wire m = record { at = λ h. refl }

  pub Keeps-docker : {A : Type 0} (m : R.World → Result A × R.World) → Keeps both (docker {R = R} m)
  Keeps-docker m = record { at = λ h. refl }

  pub Keeps-available : (D : Docker R) → Keeps both (available D)
  Keeps-available D = record { at = λ h. refl }

pub ruleset steps = (keeps_rules, Keeps-on_wire, Keeps-docker, Keeps-available, Keeps-on_dash)

module _ (R : Runtime) (D : Docker R) where
  pub Keeps-remove_boxes : (cs : List Box) → Keeps both (remove_boxes R D cs)
  unfolding remove_boxes stop_and_remove
  Keeps-remove_boxes [] = search steps
  Keeps-remove_boxes (c ∷ cs) =
      Keeps-bind (stop_and_remove R D c) (λ _. remove_boxes R D cs) (search steps)
        (λ _. Keeps-remove_boxes cs)

  among :
      (image : Option String)
      → Keeps both (elim image [
        | some image ↦ pure (some image)
        | none ↦ (do is ← docker {R = R} D.list_images; pure (first_image R D is))
      ])
  among none = search steps
  among (some image) = search steps

  Keeps-search_image : Keeps both (search_image R D)
  unfolding search_image
  Keeps-search_image =
      Keeps-bind (docker D.list_all) _ (search steps) (λ cs. among (first_container R D cs))

  pub Keeps-find_supergateway_image : Keeps both (find_supergateway_image R D)
  unfolding find_supergateway_image
  Keeps-find_supergateway_image = search (steps, Keeps-search_image) depth 14

module _ (R : Runtime) (D : Docker R) (cfg : Config) where
  Keeps-restart_aigw : Keeps both (restart_aigw R D cfg)
  unfolding restart_aigw
  Keeps-restart_aigw = search steps depth 14

  pub Keeps-restart_after : (restarts : ℕ) → Keeps both (restart_after R D cfg restarts)
  unfolding restart_after
  Keeps-restart_after restarts = record {
    at = λ h.
        part-if both (eqb h.gateway.restarts restarts) (ok tt, h) (restart_aigw R D cfg h) refl
          (Keeps-restart_aigw.at h);
  }

  pub Keeps-change_config : (f : Gateway → Result Gateway) → Keeps table (change_config R D cfg f)
  unfolding change_config
  Keeps-change_config f = record {
    at = λ h.
        (Keeps-bind (on_gateway f) (λ _. restart_after R D cfg h.gateway.restarts)
            (Keeps-on_gateway f) (λ _. Keeps-table _ (Keeps-restart_after h.gateway.restarts))).at
          h;
  }
