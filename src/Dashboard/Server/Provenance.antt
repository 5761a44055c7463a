-- ===== src/Dashboard/Server/Provenance.antt =====
-- Where the sessions come from.
use noumena_mcp_gateway_poc.Base.{
  eq_iff, ◌+◌, ◌≡◌, ◌⊎◌, inl, inr, Bool, true, false, Bool-cases, Option-cases, String, ◌==◌,
  Option, none, some, arith, if◌then◌else◌,
}
use noumena_mcp_gateway_poc.Base.Exec.{Exec, Exec-cases, ok, continue}
use noumena_mcp_gateway_poc.Base.Exec.Keeps.{Keeps, Keeps-pure}
use noumena_mcp_gateway_poc.Base.Result.{Result-cases}
use noumena_mcp_gateway_poc.Base.Json.{Json, truthy}
use noumena_mcp_gateway_poc.Base.World.{Runtime}
use noumena_mcp_gateway_poc.Base.Dict
use noumena_mcp_gateway_poc.Base.Dict.{lookup-erase, lookup-insert}
use noumena_mcp_gateway_poc.Dashboard.Session.{
  Session, Sessions, session_ttl, create_session, validate_session, end_session,
}
use noumena_mcp_gateway_poc.Dashboard.State.{Dash, Config, Reply}
use noumena_mcp_gateway_poc.Dashboard.Login.{get_session_user, handle_login, handle_logout}
use noumena_mcp_gateway_poc.Dashboard.Login.Admission.{IsAdmitted, started, handle_login-sessions}
use noumena_mcp_gateway_poc.Dashboard.Docker.{Docker, Host, on_dash}
use noumena_mcp_gateway_poc.Dashboard.Docker.Keeps.{table}
use noumena_mcp_gateway_poc.Dashboard.Route.{
  PostHandler, PostChoice, do_post, post_routes, post_chosen, unauthorized,
}
use noumena_mcp_gateway_poc.Dashboard.Server.{read_body, routed, serve_post}
use noumena_mcp_gateway_poc.Dashboard.Server.Keeps.{Keeps-post_handler}

-- Every session of the second table is in the first.
abbrev pub Shrinks : Sessions → Sessions → Type 0
Shrinks before after =
    (token : String) (s : Session)
    → Dict.lookup token after ≡ some s
    → Dict.lookup token before ≡ some s

module _ (R : Runtime) (cfg : Config) where
  pub Shrinks-get_session_user :
      (cookie : Option String) (d : Dash R)
      → Shrinks d.sessions (get_session_user R cookie d).1.sessions
  unfolding get_session_user validate_session
  Shrinks-get_session_user none d other s h = h
  Shrinks-get_session_user (some token) d other s h =
      elim (Option-cases (Dict.lookup token d.sessions)) [
        | inl e ↦ ground (arith, e)
        | inr (s', e) ↦ ground (arith, e, lookup-erase token other d.sessions)
      ]

  Shrinks-logout :
      (cookie : Option String) (d : Dash R)
      → Shrinks d.sessions (handle_logout R cfg cookie d).1.sessions
  unfolding handle_logout end_session
  Shrinks-logout none d other s h = h
  Shrinks-logout (some token) d other s h = ground (arith, h, lookup-erase token other d.sessions)

module _ (R : Runtime) (D : Docker R) (cfg : Config) where
  Keeps-chosen :
      (cookie : Option String) (body : Json) (handler : Option PostHandler)
      → Keeps table (routed R D cfg cookie body (post_chosen handler))
  unfolding routed
  Keeps-chosen cookie body none = Keeps-pure _
  Keeps-chosen cookie body (some handler) = Keeps-post_handler R D cfg handler body

  Keeps-guarded :
      (cookie : Option String) (body : Json) (path : String) (is_user : Bool)
      → Keeps table (
          routed R D cfg cookie body (
            if is_user
            then post_chosen (Dict.lookup path post_routes)
            else PostChoice.answer unauthorized))
  unfolding routed
  Keeps-guarded cookie body path true = Keeps-chosen cookie body (Dict.lookup path post_routes)
  Keeps-guarded cookie body path false = Keeps-pure _

  -- The answer to a request with a body.
  abbrev serve_body : String → Option String → Json → Exec (Host R) (Option Reply)
  serve_body path cookie body h =
      continue (on_dash (do_post R path cookie) h) (routed R D cfg cookie body)

  Shrinks-other :
      (path : String) (cookie : Option String) (body : Json) (h : Host R)
      → (path == "/api/auth/login") ≡ false
      → (path == "/api/auth/logout") ≡ false
      → Shrinks h.dash.sessions (serve_body path cookie body h).1.dash.sessions
  unfolding do_post
  Shrinks-other path cookie body h e e' token s found =
      elim (Exec-cases (get_session_user R cookie h.dash)) [
        | inl (u, d, p) ↦
            let kept = (Keeps-guarded cookie body path (truthy u)).at (record h { dash = d }) in
            Shrinks-get_session_user R cfg cookie h.dash token s
              (rw p ((rw kept at (rw (e, e', p) at found))))
        | inr (x, d, p) ↦
            Shrinks-get_session_user R cfg cookie h.dash token s (rw p (rw (e, e', p) at found))
      ]

  Shrinks-cookie :
      (path : String) (cookie : Option String) (body : Json) (h : Host R)
      → (path == "/api/auth/login") ≡ false
      → (path == "/api/auth/logout") ≡ true
      → Shrinks h.dash.sessions (serve_body path cookie body h).1.dash.sessions
  unfolding do_post routed
  Shrinks-cookie path cookie body h e e' token s found =
      elim (Exec-cases (handle_logout R cfg cookie h.dash)) [
        | inl (r, d, p) ↦ Shrinks-logout R cfg cookie h.dash token s (rw p (rw (e, e', p) at found))
        | inr (x, d, p) ↦ Shrinks-logout R cfg cookie h.dash token s (rw p (rw (e, e', p) at found))
      ]

  login-sessions :
      (path : String) (cookie : Option String) (body : Json) (h : Host R)
      → (path == "/api/auth/login") ≡ true
      → (serve_body path cookie body h).1.dash.sessions
        ≡ (handle_login R cfg body h.dash).1.sessions
  unfolding do_post routed
  login-sessions path cookie body h e = elim (Exec-cases (handle_login R cfg body h.dash)) [
    | inl (r, d, p) ↦ rw (e, p)
    | inr (x, d, p) ↦ rw (e, p)
  ]

  -- A session that starts is the user's who was admitted.
  login_user :
      (username : Json) (d₁ : Dash R) (before : Sessions) (token : String) (s : Session)
      → Dict.lookup token (started R cfg username d₁ before) ≡ some s
      → (Dict.lookup token before ≡ some s) ⊎ (s.username ≡ username)
  unfolding create_session
  login_user username d₁ before token s found =
      let (new, w) = R.token_urlsafe d₁.world in
      let session : Session = record {
        username = username;
        expires = (R.time w).0 + session_ttl;
      } in
      let looked = lookup-insert new token session before in
      elim (Bool-cases (new == token)) [
        | inl e ↦ inr (ground (arith, e, looked))
        | inr e ↦ inl (ground (arith, e, looked))
      ]

  serve_body-sessions :
      (path : String) (cookie : Option String) (body : Json) (h : Host R) (token : String)
      (s : Session)
      → Dict.lookup token (serve_body path cookie body h).1.dash.sessions ≡ some s
      → (Dict.lookup token h.dash.sessions ≡ some s)
        ⊎ ((path ≡ "/api/auth/login") × IsAdmitted R cfg s.username body h.dash)
  serve_body-sessions path cookie body h token s found =
      elim (Bool-cases (path == "/api/auth/login")) [
        | inl e ↦ elim (handle_login-sessions R cfg body h.dash) [
          | inl same ↦ inl (rw (login-sessions path cookie body h e, same) at found)
          | inr (username, admitted, (d₁, made)) ↦
              elim (login_user username d₁ h.dash.sessions token s
                (rw (login-sessions path cookie body h e, made) at found)) [
                  | inl old ↦ inl old
                  | inr q ↦ inr (ground (arith, e, eq_iff path "/api/auth/login"), rw q admitted)
                ]
        ]
        | inr e ↦ elim (Bool-cases (path == "/api/auth/logout")) [
          | inl e' ↦ inl (Shrinks-cookie path cookie body h e e' token s found)
          | inr e' ↦ inl (Shrinks-other path cookie body h e e' token s found)
        ]
      ]

  -- A session that is in the table after a POST request was in it before with the same user and
  -- the same end, or the request is a login of its user that Keycloak admits.
  pub serve_post-sessions :
      (path : String) (cookie : Option String) (text : String) (h : Host R) (token : String)
      (s : Session)
      → Dict.lookup token (serve_post R D cfg path cookie text h).1.dash.sessions ≡ some s
      → (Dict.lookup token h.dash.sessions ≡ some s)
        ⊎ ((path ≡ "/api/auth/login")
            × ((body : Json) × (read_body R text ≡ ok body)
                × IsAdmitted R cfg s.username body h.dash))
  unfolding serve_post
  serve_post-sessions path cookie text h token s found = elim (Result-cases (read_body R text)) [
    | inr (x, e) ↦ inl (rw e at found)
    | inl (body, e) ↦ elim (serve_body-sessions path cookie body h token s (rw e at found)) [
      | inl old ↦ inl old
      | inr (p, admitted) ↦ inr (p, (body, e, admitted))
    ]
  ]
