-- ===== src/Dashboard/System/Locked.antt =====
-- The AI gateway's configuration beside all that the dashboard does.
use noumena_mcp_gateway_poc.Base.{◌≡◌, ◌∙◌, ap, refl, String, Option, some, List, [], ◌∷◌}
use noumena_mcp_gateway_poc.Base.Json.{Json}
use noumena_mcp_gateway_poc.Base.World.{Runtime}
use noumena_mcp_gateway_poc.Dashboard.State.{Config}
use noumena_mcp_gateway_poc.Dashboard.Backends.{Gateway}
use noumena_mcp_gateway_poc.Dashboard.Docker.{Docker, Host}
use noumena_mcp_gateway_poc.Dashboard.Route.Gate.{HasSession}
use noumena_mcp_gateway_poc.Dashboard.Server.Access.{serve_post-gateway}
use noumena_mcp_gateway_poc.Dashboard.Sweep.Keeps.{Keeps-cleanup, Keeps-daemon_turn}
use noumena_mcp_gateway_poc.Dashboard.Pages.{Folder, do_head}
use noumena_mcp_gateway_poc.Dashboard.Pages.Access.{serve_get-gateway}
use noumena_mcp_gateway_poc.Dashboard.System.{Act, new_connection, loaded, act, acts, main}
use noumena_mcp_gateway_poc.Dashboard.System.Sessions.{
  HasAdmission, ready, ready_empty, act-sessions, there,
}
use noumena_mcp_gateway_poc.Base.Dict
use noumena_mcp_gateway_poc.Base.{inl, inr}
use noumena_mcp_gateway_poc.Dashboard.Session.{Session}

module _ (R : Runtime) (D : Docker R) (F : Folder R) (cfg : Config) where
  act-gateway :
      (a : Act) (h : Host R)
      → ((cookie : Option String) → ¬ HasSession cookie h.dash)
      → (act R D F cfg a h).gateway ≡ h.gateway
  unfolding act do_head
  act-gateway (Act.post room path cookie text) h n =
      serve_post-gateway R D cfg path cookie text (new_connection room h) (n cookie)
  act-gateway (Act.get room path cookie param g) h n =
      serve_get-gateway R D F cfg _ path cookie param g (new_connection room h) (n cookie)
  act-gateway (Act.head room path cookie param g) h n =
      serve_get-gateway R D F cfg _ path cookie param g (new_connection room h) (n cookie)
  act-gateway Act.options h n = refl
  act-gateway Act.sweep h n = ap (λ p. p.0) ((Keeps-daemon_turn R D).at h)

  acts-gateway :
      (todo : List Act) (h : Host R)
      → ((token : String) (s : Session) → ¬ (Dict.lookup token h.dash.sessions ≡ some s))
      → ((username : Json) → ¬ HasAdmission R D F cfg username todo h)
      → (acts R D F cfg todo h).gateway ≡ h.gateway
  unfolding acts
  acts-gateway [] h no_entry n = refl
  acts-gateway (a ∷ rest) h no_entry n =
      let still_none : (token : String) (s : Session)
          → ¬ (Dict.lookup token (act R D F cfg a h).dash.sessions ≡ some s) =
        λ token s found. elim (act-sessions R D F cfg a rest h token s found) [
          | inl old ↦ no_entry token s old
          | inr admitted ↦ n s.username admitted
        ] in
      acts-gateway rest (act R D F cfg a h) still_none
        (λ username admitted. n username (there admitted))
      ∙ act-gateway a h (λ cookie s. no_entry s.token s.session s.is_known)

  -- As long as none of the requests is a login that Keycloak admits, no sequence of requests and
  -- sweeps changes the AI gateway's configuration.
  pub main-gateway :
      (todo : List Act) (w : R.World) (gateway : Gateway)
      → ((username : Json) → ¬ HasAdmission R D F cfg username todo (ready R D F cfg w gateway))
      → (main R D F cfg todo w gateway).gateway ≡ gateway
  unfolding main
  main-gateway todo w gateway n =
      acts-gateway todo (ready R D F cfg w gateway) (ready_empty R D F cfg w gateway) n
      ∙ ap (λ p. p.0) ((Keeps-cleanup R D).at (loaded w gateway))
