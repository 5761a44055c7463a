-- ===== src/Dashboard/System/Sessions.antt =====
-- Sessions and what led to them, over all that the dashboard does.
use noumena_mcp_gateway_poc.Base.{◌≡◌, ◌⊎◌, inl, inr, String, Option, some, List, [], ◌∷◌, ℕ}
use noumena_mcp_gateway_poc.Base.Exec.{ok}
use noumena_mcp_gateway_poc.Base.Json.{Json}
use noumena_mcp_gateway_poc.Base.World.{Runtime}
use noumena_mcp_gateway_poc.Base.Dict
use noumena_mcp_gateway_poc.Base.Dict.{lookup-nil}
use noumena_mcp_gateway_poc.Dashboard.Session.{Session}
use noumena_mcp_gateway_poc.Dashboard.State.{Config}
use noumena_mcp_gateway_poc.Dashboard.Login.Admission.{IsAdmitted}
use noumena_mcp_gateway_poc.Dashboard.Backends.{Gateway}
use noumena_mcp_gateway_poc.Dashboard.Docker.{Docker, Host}
use noumena_mcp_gateway_poc.Dashboard.Docker.Keeps.{Keeps-table}
use noumena_mcp_gateway_poc.Dashboard.Server.{read_body}
use noumena_mcp_gateway_poc.Dashboard.Server.Provenance.{serve_post-sessions}
use noumena_mcp_gateway_poc.Dashboard.Sweep.{cleanup_orphaned_containers, daemon_turn}
use noumena_mcp_gateway_poc.Dashboard.Sweep.Keeps.{Keeps-cleanup, Keeps-daemon_turn}
use noumena_mcp_gateway_poc.Dashboard.Pages.{Folder, do_head}
use noumena_mcp_gateway_poc.Dashboard.Pages.Access.{Shrinks-serve_get}
use noumena_mcp_gateway_poc.Dashboard.System.{Act, new_connection, loaded, act, acts, main}

module _ (R : Runtime) (D : Docker R) (F : Folder R) (cfg : Config) where
  -- One of the acts is a login that Keycloak admits for the user, in the state in which it is served.
  pub data HasAdmission (username : Json) : List Act → Host R → Type 0 where
    here :
        {room : ℕ} {path : String} {cookie : Option String} {text : String} {rest : List Act}
        {h : Host R} (body : Json)
        → path ≡ "/api/auth/login"
        → read_body R text ≡ ok body
        → IsAdmitted R cfg username body h.dash
        → HasAdmission username (Act.post room path cookie text ∷ rest) h
    there :
        {a : Act} {rest : List Act} {h : Host R}
        → HasAdmission username rest (act R D F cfg a h)
        → HasAdmission username (a ∷ rest) h

  pub act-sessions :
      (a : Act) (rest : List Act) (h : Host R) (token : String) (s : Session)
      → Dict.lookup token (act R D F cfg a h).dash.sessions ≡ some s
      → (Dict.lookup token h.dash.sessions ≡ some s) ⊎ HasAdmission s.username (a ∷ rest) h
  unfolding act do_head
  act-sessions (Act.post room path cookie text) rest h token s found =
      elim (serve_post-sessions R D cfg path cookie text (new_connection room h) token s found) [
        | inl old ↦ inl old
        | inr (p, (body, e, admitted)) ↦ inr (here body p e admitted)
      ]
  act-sessions (Act.get room path cookie param g) rest h token s found =
      inl (Shrinks-serve_get R D F cfg _ path cookie param g (new_connection room h) token s found)
  act-sessions (Act.head room path cookie param g) rest h token s found =
      inl (Shrinks-serve_get R D F cfg _ path cookie param g (new_connection room h) token s found)
  act-sessions Act.options rest h token s found = inl found
  act-sessions Act.sweep rest h token s found =
      let kept = (Keeps-table (daemon_turn R D) (Keeps-daemon_turn R D)).at h in
      inl (rw kept at found)

  acts-sessions :
      (todo : List Act) (h : Host R) (token : String) (s : Session)
      → Dict.lookup token (acts R D F cfg todo h).dash.sessions ≡ some s
      → (Dict.lookup token h.dash.sessions ≡ some s) ⊎ HasAdmission s.username todo h
  unfolding acts
  acts-sessions [] h token s found = inl found
  acts-sessions (a ∷ rest) h token s found =
      elim (acts-sessions rest (act R D F cfg a h) token s found) [
        | inr later ↦ inr (there later)
        | inl old ↦ act-sessions a rest h token s old
      ]

  -- The state once the first sweep is over.
  abbrev pub ready : R.World → Gateway → Host R
  ready w gateway = (cleanup_orphaned_containers R D (loaded w gateway)).1

  -- The table is empty once the first sweep is over.
  pub ready_empty :
      (w : R.World) (gateway : Gateway) (token : String) (s : Session)
      → ¬ (Dict.lookup token (ready w gateway).dash.sessions ≡ some s)
  ready_empty w gateway token s old =
      let kept =
        (Keeps-table (cleanup_orphaned_containers R D) (Keeps-cleanup R D)).at (loaded w gateway) in
      let nothing = rw (kept, lookup-nil token) at old in absurd cc

  -- Each session that is in the table after the dashboard has been started and has served any
  -- sequence of requests and sweeps is that of a user for whom one of the requests is a login that
  -- Keycloak admits.
  pub main-sessions :
      (todo : List Act) (w : R.World) (gateway : Gateway) (token : String) (s : Session)
      → Dict.lookup token (main R D F cfg todo w gateway).dash.sessions ≡ some s
      → HasAdmission s.username todo (ready w gateway)
  unfolding main
  main-sessions todo w gateway token s found =
      elim (acts-sessions todo (ready w gateway) token s found) [
        | inr admitted ↦ admitted
        | inl old ↦ absurd (ready_empty w gateway token s old)
      ]
