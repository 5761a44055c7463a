-- ===== src/Dashboard/Pages/Access.antt =====
-- Sessions and GET requests.
use noumena_mcp_gateway_poc.Base.{
  ◌≡◌, ◌≢◌, refl, inl, inr, Bool, true, false, Bool-cases, String, ◌==◌, eq_iff, starts_with,
  Option, arith,
}
use noumena_mcp_gateway_poc.Base.Exec.{Exec-cases, ok}
use noumena_mcp_gateway_poc.Base.Json.{truthy}
use noumena_mcp_gateway_poc.Base.World.{Runtime}
use noumena_mcp_gateway_poc.Dashboard.State.{Dash, Config}
use noumena_mcp_gateway_poc.Dashboard.Route.{do_get, unauthorized, static_path}
use noumena_mcp_gateway_poc.Dashboard.Route.Gate.{
  HasSession, get_session_user_total, session_of_user,
}
use noumena_mcp_gateway_poc.Dashboard.Docker.{Docker, Host}
use noumena_mcp_gateway_poc.Dashboard.Server.Provenance.{Shrinks, Shrinks-get_session_user}
use noumena_mcp_gateway_poc.Dashboard.Pages.{Folder, Given, Page, serve_get, got, send_file}
use noumena_mcp_gateway_poc.Dashboard.Pages.Keeps.{Keeps-got}
use noumena_mcp_gateway_poc.Base.{ap, ◌∙◌, Bool}
use noumena_mcp_gateway_poc.Base.Exec.Keeps.{Keeps, keeps_rules}
use noumena_mcp_gateway_poc.Dashboard.Backends.{Gateway}
use noumena_mcp_gateway_poc.Dashboard.Pages.{is_there, contents}

module _ (R : Runtime) (D : Docker R) (F : Folder R) (cfg : Config) where
  Shrinks-do_get :
      (path : String) (cookie : Option String) (d : Dash R)
      → Shrinks d.sessions (do_get R path cookie d).1.sessions
  unfolding do_get
  Shrinks-do_get path cookie d token s found =
      let (u, d', asked) = get_session_user_total R cookie d in
      elim (Bool-cases (path == "/api/auth/check")) [
        | inl e ↦
            Shrinks-get_session_user R cfg cookie d token s (rw asked (rw (e, asked) at found))
        | inr e ↦ elim (Bool-cases (starts_with path "/api/")) [
          | inl e' ↦
              Shrinks-get_session_user R cfg cookie d token s
                (rw asked (rw (e, e', asked) at found))
          | inr e' ↦ rw (e, e') at found
        ]
      ]

  -- No session is new or changed after a GET or HEAD request.
  pub Shrinks-serve_get :
      (head : Bool) (path : String) (cookie : Option String) (param : String → String) (g : Given)
      (h : Host R)
      → Shrinks h.dash.sessions (serve_get R D F cfg head path cookie param g h).1.dash.sessions
  unfolding serve_get
  Shrinks-serve_get head path cookie param g h token s found =
      elim (Exec-cases (do_get R path cookie h.dash)) [
        | inl (choice, d, p) ↦
            let kept = (Keeps-got R D F cfg head param g choice).at (record h { dash = d }) in
            Shrinks-do_get path cookie h.dash token s (rw p (rw kept at (rw p at found)))
        | inr (x, d, p) ↦ Shrinks-do_get path cookie h.dash token s (rw p (rw p at found))
      ]

  -- A GET or HEAD request for a path under `/api/` other than the one that asks who is logged in,
  -- whose cookie names no live session, is answered 401; it changes neither the gateway's
  -- configuration nor the connection.
  pub serve_get-unauthorized :
      (head : Bool) (path : String) (cookie : Option String) (param : String → String) (g : Given)
      (h : Host R)
      → starts_with path "/api/" ≡ true
      → path ≢ "/api/auth/check"
      → ¬ HasSession cookie h.dash
      → let (answer, h') = serve_get R D F cfg head path cookie param g h in
        (answer ≡ ok (Page.json unauthorized)) × (h'.gateway ≡ h.gateway) × (h'.wire ≡ h.wire)
  unfolding serve_get do_get got
  serve_get-unauthorized head path cookie param g h api n no_session =
      let (u, d, asked) = get_session_user_total R cookie h.dash in
      elim (Bool-cases (truthy u)) [
        | inl t ↦ absurd (no_session (session_of_user R cookie h.dash asked t))
        | inr f ↦
            let p : (path == "/api/auth/check") ≡ false =
              ground (arith, eq_iff path "/api/auth/check") in
            rw (p, api, asked, f) (refl, refl, refl)
      ]

  -- A path outside `/api/` goes to the static folder, with no look at the sessions.
  serve_get-static :
      (head : Bool) (path : String) (cookie : Option String) (param : String → String) (g : Given)
      (h : Host R)
      → starts_with path "/api/" ≡ false
      → serve_get R D F cfg head path cookie param g h ≡ send_file R F head (static_path path) h
  unfolding serve_get do_get got
  serve_get-static head path cookie param g h api = elim (Bool-cases (path == "/api/auth/check")) [
    | inl e ↦
        let q : path ≡ "/api/auth/check" = ground (arith, e, eq_iff path "/api/auth/check") in
        let other = rw q at api in absurd cc
    | inr e ↦ rw (e, api) refl
  ]

  abbrev config : Host R → Gateway
  config h = h.gateway

  Keeps-there : (path : String) → Keeps config (is_there R F path)
  Keeps-there path = record { at = λ h. refl }

  Keeps-read : (path : String) → Keeps config (contents R F path)
  Keeps-read path = record { at = λ h. refl }

  Keeps-file : (head : Bool) (path : String) → Keeps config (send_file R F head path)
  unfolding send_file
  Keeps-file head path = search (keeps_rules, Keeps-there, Keeps-read)

  gateway-check :
      (head : Bool) (cookie : Option String) (param : String → String) (g : Given) (h : Host R)
      → (serve_get R D F cfg head "/api/auth/check" cookie param g h).1.gateway ≡ h.gateway
  unfolding serve_get do_get got
  gateway-check head cookie param g h =
      let (u, d, asked) = get_session_user_total R cookie h.dash in rw asked refl

  -- A GET or HEAD request with no live session leaves the gateway's configuration as it is.
  pub serve_get-gateway :
      (head : Bool) (path : String) (cookie : Option String) (param : String → String) (g : Given)
      (h : Host R)
      → ¬ HasSession cookie h.dash
      → (serve_get R D F cfg head path cookie param g h).1.gateway ≡ h.gateway
  serve_get-gateway head path cookie param g h n = elim (Bool-cases (starts_with path "/api/")) [
    | inr e ↦
        ap (λ r. r.1.gateway) (serve_get-static head path cookie param g h e)
        ∙ (Keeps-file head (static_path path)).at h
    | inl e ↦ elim (Bool-cases (path == "/api/auth/check")) [
      | inl p ↦
          let q : path ≡ "/api/auth/check" = ground (arith, p, eq_iff path "/api/auth/check") in
          rw q (gateway-check head cookie param g h)
      | inr p ↦
          let (_, kept, _) =
            serve_get-unauthorized head path cookie param g h e
              (λ q. ground (arith, p, q, eq_iff path "/api/auth/check")) n in
          kept
    ]
  ]
