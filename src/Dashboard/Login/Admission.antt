-- ===== src/Dashboard/Login/Admission.antt =====
-- Who gets a session.
use noumena_mcp_gateway_poc.Base.{ap, ◌∙◌, ◌⊎◌, Bool-cases, eqb, inl, inr, ◌≡◌, ◌≢◌, true, arith}
use noumena_mcp_gateway_poc.Base.Exec.{Exec-cases, Result, handle, pure, Exception, ok, err}
use noumena_mcp_gateway_poc.Base.Result.{Result-cases}
use noumena_mcp_gateway_poc.Base.Json.{Json, str, get, item}
use noumena_mcp_gateway_poc.Base.World.{Runtime, Response}
use noumena_mcp_gateway_poc.Dashboard.Session.{Sessions, create_session}
use noumena_mcp_gateway_poc.Dashboard.State.{
  Dash, Config, Reply, send, send_error_json, password_grant,
}
use noumena_mcp_gateway_poc.Dashboard.Login.{
  login_with, login_block, admitted, handle_login, is_admin, token_claims, start_session,
}

-- Keycloak granted a token to the user, and its claims hold the role `admin`.
pub record IsAdmin (R : Runtime) (cfg : Config) (resp : Response) : Type 0 where
  pub body : Json
  pub token : Json
  pub claims : Json
  pub role : Json
  pub granted : resp.status_code ≡ 200
  pub parsed : resp.json ≡ ok body
  pub has_token : item body "access_token" ≡ ok token
  pub has_claims : token_claims R cfg token ≡ ok claims
  pub has_role : get claims "role" (str "") ≡ ok role
  pub is_admin_role : is_admin role ≡ true

module _ (R : Runtime) (cfg : Config) where
  -- Only a response with the role `admin` leads to an answer 200.
  login_with-IsAdmin :
      (username : Json) (resp : Response) (d : Dash R) {reply : Reply} {d' : Dash R}
      → login_with R cfg username resp d ≡ (ok reply, d')
      → reply.status ≡ 200
      → IsAdmin R cfg resp
  unfolding login_with send_error_json
  login_with-IsAdmin username resp d h e = elim (Result-cases resp.json) [
    | inr (x, p) ↦ absurd (ground (arith, p))
    | inl (body, p) ↦ elim (Result-cases (item body "access_token")) [
      | inr (x, q) ↦ absurd (ground (arith, p, q))
      | inl (token, q) ↦ elim (Result-cases (token_claims R cfg token)) [
        | inr (x, r) ↦ absurd (ground (arith, p, q, r))
        | inl (claims, r) ↦ elim (Result-cases (get claims "role" (str ""))) [
          | inr (x, g) ↦ absurd (ground (arith, p, q, r, g))
          | inl (role, g) ↦ record {
            body = body;
            token = token;
            claims = claims;
            role = role;
            granted = ground arith;
            parsed = p;
            has_token = q;
            has_claims = r;
            has_role = g;
            is_admin_role = ground (arith, p, q, r, g);
          }
        ]
      ]
    ]
  ]

  -- What a login does after it has read the body.
  abbrev run_login : Json → Json → Dash R → Result Reply × Dash R
  run_login username password d =
      handle (login_block R cfg username password d) λ e. pure (send_error_json 500 (R.describe e))

  handle_login_fields :
      (body : Json) (d : Dash R) {reply : Reply} {d' : Dash R}
      → handle_login R cfg body d ≡ (ok reply, d')
      → (username : Json) × (password : Json) × (get body "username" (str "") ≡ ok username)
        × (get body "password" (str "") ≡ ok password)
        × (run_login username password d ≡ (ok reply, d'))
  unfolding handle_login
  handle_login_fields body d h = elim (Result-cases (get body "username" (str ""))) [
    | inr (x, p) ↦ let refused = rw p at h in cc
    | inl (username, p) ↦ elim (Result-cases (get body "password" (str ""))) [
      | inr (x, q) ↦ let refused = rw (p, q) at h in cc
      | inl (password, q) ↦ (username, password, p, q, rw (p, q) at h)
    ]
  ]

  run_login-IsAdmin :
      (username password : Json) (d : Dash R) {reply : Reply} {d' : Dash R}
      → run_login username password d ≡ (ok reply, d')
      → reply.status ≡ 200
      → (resp : Response) × (d₁ : Dash R) × (send (password_grant R cfg username password) d
          ≡ (ok resp, d₁))
        × IsAdmin R cfg resp
  unfolding login_block send_error_json
  run_login-IsAdmin username password d h e =
      elim (Exec-cases (send (password_grant R cfg username password) d)) [
        | inr (x, d₁, p) ↦ absurd (ground (arith, p))
        | inl (resp, d₁, p) ↦ elim (Exec-cases (login_with R cfg username resp d₁)) [
          | inr (x, d₂, q) ↦ absurd (ground (arith, p, q))
          | inl (r, d₂, q) ↦
              (resp, d₁, p, login_with-IsAdmin username resp d₁ q (ground (arith, p, q)))
        ]
      ]

  -- A login that is answered 200 was granted by Keycloak for the name and the password of the
  -- request, and the claims of the granted token hold the role `admin`.
  pub handle_login-IsAdmin :
      (body : Json) (d : Dash R) {reply : Reply} {d' : Dash R}
      → handle_login R cfg body d ≡ (ok reply, d')
      → reply.status ≡ 200
      → (username : Json) × (password : Json) × (get body "username" (str "") ≡ ok username)
        × (get body "password" (str "") ≡ ok password)
        × ((resp : Response) × (d₁ : Dash R) × (send (password_grant R cfg username password) d
              ≡ (ok resp, d₁))
            × IsAdmin R cfg resp)
  handle_login-IsAdmin body d h e =
      let (username, password, p, q, ran) = handle_login_fields body d h in
      (username, password, p, q, run_login-IsAdmin username password d ran e)

  login_with-refused :
      (username : Json) (resp : Response) (d : Dash R)
      → ((e : Exception) (d' : Dash R)
          → login_with R cfg username resp d ≡ (err e, d')
          → d'.sessions ≡ d.sessions)
        × ((reply : Reply) (d' : Dash R)
            → login_with R cfg username resp d ≡ (ok reply, d')
            → reply.status ≢ 200
            → d'.sessions ≡ d.sessions)
  unfolding login_with send_error_json admitted start_session
  login_with-refused username resp d = (λ e d' h. ground arith, λ reply d' h n. ground arith)

  sessions-send :
      (username password : Json) (d : Dash R) {r : Result Response} {d₁ : Dash R}
      → send (password_grant R cfg username password) d ≡ (r, d₁)
      → d₁.sessions ≡ d.sessions
  unfolding send
  sessions-send username password d h = ground arith

  -- A login that is answered with another status than 200 leaves the sessions as they were.
  pub handle_login-refused :
      (body : Json) (d : Dash R) {reply : Reply} {d' : Dash R}
      → handle_login R cfg body d ≡ (ok reply, d')
      → reply.status ≢ 200
      → d'.sessions ≡ d.sessions
  unfolding login_block
  handle_login-refused body d h n =
      let (username, password, _, _, ran) = handle_login_fields body d h in
      elim (Exec-cases (send (password_grant R cfg username password) d)) [
        | inr (x, d₁, p) ↦ ground (arith, p, ran, sessions-send username password d p)
        | inl (resp, d₁, p) ↦
            let sent = sessions-send username password d p in
            let (failed, refused) = login_with-refused username resp d₁ in
            elim (Exec-cases (login_with R cfg username resp d₁)) [
              | inr (x, d₂, q) ↦ ground (arith, p, q, ran, sent, failed x d₂ q)
              | inl (r, d₂, q) ↦ ground (arith, p, q, ran, sent, refused r d₂ q)
            ]
      ]

  answers :
      (r : Result Reply × Dash R) {e : Exception} {d' : Dash R}
      → handle r (λ e. pure (send_error_json 500 (R.describe e))) ≡ (err e, d')
      → ⊥
  answers (ok reply, d) h = cc
  answers (err x, d) h = cc

  handle_login-raises :
      (body : Json) (d : Dash R) {e : Exception} {d' : Dash R}
      → handle_login R cfg body d ≡ (err e, d')
      → d'.sessions ≡ d.sessions
  unfolding handle_login
  handle_login-raises body d h = elim (Result-cases (get body "username" (str ""))) [
    | inr (x, p) ↦ let refused = rw p at h in cc
    | inl (username, p) ↦ elim (Result-cases (get body "password" (str ""))) [
      | inr (x, q) ↦ let refused = rw (p, q) at h in cc
      | inl (password, q) ↦
          absurd (answers (login_block R cfg username password d) (rw (p, q) at h))
    ]
  ]

  -- The session that an admitted user gets in the state `d`.
  abbrev pub started : Json → Dash R → Sessions → Sessions
  started username d =
      let (token, w) = R.token_urlsafe d.world in create_session token username (R.time w).0

  login_with-started :
      (username : Json) (resp : Response) (d : Dash R) {reply : Reply} {d' : Dash R}
      → login_with R cfg username resp d ≡ (ok reply, d')
      → reply.status ≡ 200
      → d'.sessions ≡ started username d d.sessions
  unfolding login_with send_error_json admitted start_session
  login_with-started username resp d h e = ground arith

  -- The user and the session of a login that is answered 200.
  run_login-started :
      (username password : Json) (d : Dash R) {reply : Reply} {d' : Dash R}
      → run_login username password d ≡ (ok reply, d')
      → reply.status ≡ 200
      → (d₁ : Dash R) × (d'.sessions ≡ started username d₁ d.sessions)
  unfolding login_block send_error_json
  run_login-started username password d h e =
      elim (Exec-cases (send (password_grant R cfg username password) d)) [
        | inr (x, d₁, p) ↦ absurd (ground (arith, p))
        | inl (resp, d₁, p) ↦ elim (Exec-cases (login_with R cfg username resp d₁)) [
          | inr (x, d₂, q) ↦ absurd (ground (arith, p, q))
          | inl (r, d₂, q) ↦
              let kept = sessions-send username password d p in
              let made = login_with-started username resp d₁ q (ground (arith, p, q)) in
              (d₁, ground (arith, p, q, kept, made))
        ]
      ]

  -- Keycloak grants a token for the name and the password of the body, asked in the state `d`, and
  -- the token's claims hold the role `admin`.
  abbrev pub IsAdmitted : Json → Json → Dash R → Type 0
  IsAdmitted username body d =
      (password : Json) × (get body "username" (str "") ≡ ok username)
      × (get body "password" (str "") ≡ ok password)
      × ((resp : Response) × (d₁ : Dash R) × (send (password_grant R cfg username password) d
            ≡ (ok resp, d₁))
          × IsAdmin R cfg resp)

  -- A login that is answered 200: who is admitted, and the session.
  handle_login-started :
      (body : Json) (d : Dash R) {reply : Reply} {d' : Dash R}
      → handle_login R cfg body d ≡ (ok reply, d')
      → reply.status ≡ 200
      → (username : Json) × IsAdmitted username body d
        × ((d₁ : Dash R) × (d'.sessions ≡ started username d₁ d.sessions))
  handle_login-started body d h e =
      let (username, password, p, q, ran) = handle_login_fields body d h in
      (
        username,
        (password, p, q, run_login-IsAdmin username password d ran e),
        run_login-started username password d ran e,
      )

  -- A login changes the sessions only if it is admitted, and then it starts one for the user.
  pub handle_login-sessions :
      (body : Json) (d : Dash R)
      → ((handle_login R cfg body d).1.sessions ≡ d.sessions)
        ⊎ ((username : Json) × IsAdmitted username body d
            × ((d₁ : Dash R) × ((handle_login R cfg body d).1.sessions
                  ≡ started username d₁ d.sessions)))
  handle_login-sessions body d = elim (Exec-cases (handle_login R cfg body d)) [
    | inr (e, d', p) ↦ inl (ap (λ r. r.1.sessions) p ∙ handle_login-raises body d p)
    | inl (reply, d', p) ↦ elim (Bool-cases (eqb reply.status 200)) [
      | inl e ↦
          let (username, admitted, (d₁, q)) = handle_login-started body d p (ground (arith, e)) in
          inr (username, admitted, (d₁, ap (λ r. r.1.sessions) p ∙ q))
      | inr e ↦
          inl (ap (λ r. r.1.sessions) p ∙ handle_login-refused body d p (λ n. ground (arith, e, n)))
    ]
  ]
