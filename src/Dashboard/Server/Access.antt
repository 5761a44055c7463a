-- ===== src/Dashboard/Server/Access.antt =====
-- POST requests with no session.
use noumena_mcp_gateway_poc.Base.{
  refl, Option-cases, none, ◌≡◌, ◌≢◌, ◌⊎◌, inl, inr, ◌==◌, eq_iff, arith, Bool-cases, false, String,
  Option, some,
}
use noumena_mcp_gateway_poc.Base.Exec.{ok}
use noumena_mcp_gateway_poc.Base.Json.{Json, truthy}
use noumena_mcp_gateway_poc.Base.World.{Runtime}
use noumena_mcp_gateway_poc.Base.Dict
use noumena_mcp_gateway_poc.Dashboard.State.{Dash, Config}
use noumena_mcp_gateway_poc.Dashboard.Login.{get_session_user}
use noumena_mcp_gateway_poc.Dashboard.Docker.{Docker, Host}
use noumena_mcp_gateway_poc.Dashboard.Route.{do_post, unauthorized}
use noumena_mcp_gateway_poc.Dashboard.Route.Gate.{
  HasSession, get_session_user_total, session_of_user,
}
use noumena_mcp_gateway_poc.Dashboard.Server.{read_body, serve_post, routed}
use noumena_mcp_gateway_poc.Base.Exec.{Exec, continue}
use noumena_mcp_gateway_poc.Base.Exec.Keeps.{Keeps, Keeps-bind, Keeps-pure}
use noumena_mcp_gateway_poc.Base.Result.{Result-cases}
use noumena_mcp_gateway_poc.Dashboard.State.{Reply}
use noumena_mcp_gateway_poc.Dashboard.Backends.{Gateway}
use noumena_mcp_gateway_poc.Dashboard.Docker.{on_dash}
use noumena_mcp_gateway_poc.Dashboard.Login.{handle_login, handle_logout}
use noumena_mcp_gateway_poc.Dashboard.Server.{on_reply}

module _ (R : Runtime) (D : Docker R) (cfg : Config) where
  kept_by_user :
      (cookie : Option String) (d : Dash R) {u : Json} {d' : Dash R}
      → get_session_user R cookie d ≡ (ok u, d')
      → (d'.admin ≡ d.admin) × (d'.gateway ≡ d.gateway) × (d'.store_id ≡ d.store_id)
  unfolding get_session_user
  kept_by_user none d e = (ground (arith), ground (arith), ground (arith))
  kept_by_user (some token) d e = elim (Option-cases (Dict.lookup token d.sessions)) [
    | inl q ↦ (ground (arith, q), ground (arith, q), ground (arith, q))
    | inr (s, q) ↦ (ground (arith, q), ground (arith, q), ground (arith, q))
  ]

  -- A POST request with a body that can be read, that is neither a login nor a logout and whose
  -- cookie names no live session is answered 401; it changes neither the gateway's configuration
  -- nor the connection, the cached tokens or the store's id.
  pub serve_post-unauthorized :
      (path : String) (cookie : Option String) (text : String) (h : Host R) {body : Json}
      → path ≢ "/api/auth/login"
      → path ≢ "/api/auth/logout"
      → ¬ HasSession cookie h.dash
      → read_body R text ≡ ok body
      → let (answer, h') = serve_post R D cfg path cookie text h in
        (answer ≡ ok (some unauthorized))
        × (h'.gateway ≡ h.gateway)
        × (h'.wire ≡ h.wire)
        × (h'.dash.admin ≡ h.dash.admin)
        × (h'.dash.gateway ≡ h.dash.gateway)
        × (h'.dash.store_id ≡ h.dash.store_id)
  unfolding serve_post do_post routed
  serve_post-unauthorized path cookie text h {body} n n' no_session e =
      let (u, d, asked) = get_session_user_total R cookie h.dash in
      elim (Bool-cases (truthy u)) [
        | inl t ↦ absurd (no_session (session_of_user R cookie h.dash asked t))
        | inr f ↦
            let p : (path == "/api/auth/login") ≡ false =
              ground (arith, eq_iff path "/api/auth/login") in
            let p' : (path == "/api/auth/logout") ≡ false =
              ground (arith, eq_iff path "/api/auth/logout") in
            let (a, g, s) = kept_by_user cookie h.dash asked in
            rw (e, p, p', asked, f) (refl, refl, refl, a, g, s)
      ]

  abbrev config : Host R → Gateway
  config h = h.gateway

  Keeps-on_reply : (m : Exec (Dash R) Reply) → Keeps config (on_reply m)
  Keeps-on_reply m = Keeps-bind (on_dash m) _ (record { at = λ h. refl }) (λ reply. Keeps-pure _)

  -- A login or a logout beside the configuration.
  gateway-routed :
      (path : String) (cookie : Option String) (body : Json) (h : Host R)
      → (path ≡ "/api/auth/login") ⊎ (path ≡ "/api/auth/logout")
      → (continue (on_dash (do_post R path cookie) h) (routed R D cfg cookie body)).1.gateway
        ≡ h.gateway
  unfolding do_post routed
  gateway-routed path cookie body h (inl e) = rw e ((Keeps-on_reply (handle_login R cfg body)).at h)
  gateway-routed path cookie body h (inr e) =
      rw e ((Keeps-on_reply (handle_logout R cfg cookie)).at h)

  -- A POST request with no live session leaves the gateway's configuration as it is.
  pub serve_post-gateway :
      (path : String) (cookie : Option String) (text : String) (h : Host R)
      → ¬ HasSession cookie h.dash
      → (serve_post R D cfg path cookie text h).1.gateway ≡ h.gateway
  unfolding serve_post
  serve_post-gateway path cookie text h n = elim (Result-cases (read_body R text)) [
    | inr (x, e) ↦ rw e refl
    | inl (body, e) ↦ elim (Bool-cases (path == "/api/auth/login")) [
      | inl p ↦ rw e (
          gateway-routed path cookie body h
            (inl (ground (arith, p, eq_iff path "/api/auth/login"))))
      | inr p ↦ elim (Bool-cases (path == "/api/auth/logout")) [
        | inl p' ↦ rw e (
            gateway-routed path cookie body h
              (inr (ground (arith, p', eq_iff path "/api/auth/logout"))))
        | inr p' ↦
            let (_, kept, _, _, _, _) =
              serve_post-unauthorized path cookie text h
                (λ q. ground (arith, p, q, eq_iff path "/api/auth/login"))
                (λ q. ground (arith, p', q, eq_iff path "/api/auth/logout")) n e in
            kept
      ]
    ]
  ]
