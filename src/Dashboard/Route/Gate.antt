-- ===== src/Dashboard/Route/Gate.antt =====
-- No handler runs without a session that is alive.
use noumena_mcp_gateway_poc.Base.{
  Option-cases, inl, inr, ◌≤◌, ◌≡◌, refl, String, true, Option, none, some, arith,
}
use noumena_mcp_gateway_poc.Base.Exec.{ok}
use noumena_mcp_gateway_poc.Base.Json.{Json, null, truthy}
use noumena_mcp_gateway_poc.Base.World.{Runtime}
use noumena_mcp_gateway_poc.Base.Dict
use noumena_mcp_gateway_poc.Dashboard.Session.{Session, validate_session}
use noumena_mcp_gateway_poc.Dashboard.State.{Dash}
use noumena_mcp_gateway_poc.Dashboard.Login.{get_session_user}
use noumena_mcp_gateway_poc.Dashboard.Route.{
  GetHandler, PostHandler, GetChoice, PostChoice, do_get, do_post, get_routes, post_routes,
}

-- The cookie names a session, the clock has not passed its end, and its user has a name.
pub record HasSession {R : Runtime} (cookie : Option String) (d : Dash R) : Type 0 where
  pub token : String
  pub session : Session
  pub is_cookie : cookie ≡ some token
  pub is_known : Dict.lookup token d.sessions ≡ some session
  pub is_alive : (R.time d.world).0 ≤ session.expires
  pub has_name : truthy session.username ≡ true

module _ (R : Runtime) where
  pub get_session_user_total :
      (cookie : Option String) (d : Dash R)
      → (u : Json) × (d' : Dash R) × (get_session_user R cookie d ≡ (ok u, d'))
  unfolding get_session_user
  get_session_user_total none d = (null, d, refl)
  get_session_user_total (some token) d = elim (Option-cases (Dict.lookup token d.sessions)) [
    | inl e ↦ (null, d, rw e)
    | inr (s, e) ↦
        let (t, w) = R.time d.world in
        let (u, sessions) = validate_session token t d.sessions in
        (u, record d { sessions = sessions; world = w }, rw e)
  ]

  pub session_of_user :
      (cookie : Option String) (d : Dash R) {u : Json} {d' : Dash R}
      → get_session_user R cookie d ≡ (ok u, d')
      → truthy u ≡ true
      → HasSession cookie d
  unfolding get_session_user validate_session truthy
  session_of_user none d h t = absurd (ground arith)
  session_of_user (some token) d h t = elim (Option-cases (Dict.lookup token d.sessions)) [
    | inl e ↦ absurd (ground (arith, e))
    | inr (s, e) ↦ record {
      token = token;
      session = s;
      is_cookie = refl;
      is_known = e;
      is_alive = ground (arith, e);
      has_name = ground (arith, e);
    }
  ]

  -- A POST request runs a handler only with a live session, and then the one that the table has
  -- for its path.
  pub do_post-run :
      (path : String) (cookie : Option String) (d : Dash R) {h : PostHandler} {d' : Dash R}
      → do_post R path cookie d ≡ (ok (PostChoice.run h), d')
      → HasSession cookie d × (Dict.lookup path post_routes ≡ some h)
  unfolding do_post
  do_post-run path cookie d e =
      let (u, d₁, asked) = get_session_user_total cookie d in
      (session_of_user cookie d asked (ground (arith, asked)), ground (arith, asked))

  -- A GET request runs a handler only with a live session, and then the one that the table has
  -- for its path.
  pub do_get-run :
      (path : String) (cookie : Option String) (d : Dash R) {h : GetHandler} {d' : Dash R}
      → do_get R path cookie d ≡ (ok (GetChoice.run h), d')
      → HasSession cookie d × (Dict.lookup path get_routes ≡ some h)
  unfolding do_get
  do_get-run path cookie d e =
      let (u, d₁, asked) = get_session_user_total cookie d in
      (session_of_user cookie d asked (ground (arith, asked)), ground (arith, asked))
