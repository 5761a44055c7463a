-- ===== src/Dashboard/Login.antt =====
-- `get_session_user`, `require_auth`, `handle_login` and `handle_logout` of dashboard/server.py.
pub mod Admission
use Prim.Native.Nat.{◌%◌}
use Prim.Native.Char.{code}
use noumena_mcp_gateway_poc.Base.{
  ℕ, zero, suc, ◌+◌, ◌-◌, String, ◌<>◌, Bool, true, false, not, ◌||◌, Option, none, some, List, [],
  ◌∷◌, eqb, if◌then◌else◌,
}
use noumena_mcp_gateway_poc.Base.Exec.{
  Exec, Exception, Result, ok, err, attribute_error, index_error, pure, lift, try_except, ◌>>=◌,
  ◌>>◌,
}
use noumena_mcp_gateway_poc.Base.Json.{
  Json, null, bool, num, str, arr, obj, Items, nil, cons, end, field, get, item, truthy, is_text,
}
use noumena_mcp_gateway_poc.Base.World.{Runtime, Response}
use noumena_mcp_gateway_poc.Base.Dict
use noumena_mcp_gateway_poc.Dashboard.Session.{
  Session, Sessions, create_session, validate_session, end_session,
}
use noumena_mcp_gateway_poc.Dashboard.State.{
  Dash, Config, Reply, send, now, send_json, send_error_json, password_grant,
}

-- `text.split(".")`: the first piece, and those behind it.
split_from : String → String × List String
split_from String.[] = ("", [])
split_from (String.◌∷◌ c s) =
    let (piece, rest) = split_from s in
    if eqb (code c) 46 then ("", piece ∷ rest) else (String.◌∷◌ c piece, rest)

abbrev second : List String → Result String
second [] = err index_error
second (piece ∷ _) = ok piece

-- `text.split(".")[1]`
unfoldable pub second_piece : String → Result String
unfolding split_from
second_piece s = second (split_from s).1

unfoldable pub char_count : String → ℕ
char_count String.[] = 0
char_count (String.◌∷◌ _ s) = suc (char_count s)

unfoldable pub equals_signs : ℕ → String
equals_signs zero = ""
equals_signs (suc n) = "=" <> equals_signs n

-- `s += "=" * (4 - len(s) % 4)`
unfoldable pub pad : String → String
unfolding char_count equals_signs
pad s = s <> equals_signs (4 - char_count s % 4)

text_of : Json → Result String
text_of (str s) = ok s
text_of _ = err attribute_error

contains_text : Items → String → Bool
contains_text nil s = false
contains_text (cons x xs) s = is_text x s || contains_text xs s

-- `"admin" in (role if isinstance(role, list) else [role])`
unfoldable pub is_admin : Json → Bool
unfolding contains_text is_text
is_admin (arr roles) = contains_text roles "admin"
is_admin role = is_text role "admin"

module _ (R : Runtime) where
  -- `validate_session` at the clock's reading.
  validated : String → ℕ → Exec (Dash R) Json
  validated token t d =
      let (user, sessions) = validate_session token t d.sessions in
      (ok user, record d { sessions = sessions })

  checked : String → Option Session → Exec (Dash R) Json
  unfolding now validated
  checked token none = pure null
  checked token (some session) = now >>= validated token

  -- `get_session_user`, given the value of the cookie `session`; `null` if there is no user. The
  -- clock is read only if the token is known.
  unfoldable pub get_session_user : Option String → Exec (Dash R) Json
  unfolding checked
  get_session_user none d = (ok null, d)
  get_session_user (some token) d = checked token (Dict.lookup token d.sessions) d

module _ (R : Runtime) (cfg : Config) where
  -- The claims of a token that Keycloak issued; its signature is not looked at.
  unfoldable pub token_claims : Json → Result Json
  unfolding text_of
  token_claims token = elim (text_of token) [
    | err e ↦ err e
    | ok text ↦ elim (second_piece text) [
      | err e ↦ err e
      | ok piece ↦ R.decode_base64_json (pad piece)
    ]
  ]

  -- `create_session`
  start_session : Json → Exec (Dash R) String
  start_session username d =
      let (token, w) = R.token_urlsafe d.world in
      let (t, w') = R.time w in
      (ok token, record d { sessions = create_session token username t d.sessions; world = w' })

  unfoldable pub admitted : Json → Exec (Dash R) Reply
  unfolding start_session
  admitted username = do
    token ← start_session username
    pure (record {
      status = 200;
      cookie = some ("session=" <> token <> "; Path=/; HttpOnly; SameSite=Strict; Max-Age=3600");
      body = obj (field "ok" (bool true) (field "username" username end));
    })

  unfoldable pub login_with : Json → Response → Exec (Dash R) Reply
  login_with username resp =
      if not (eqb resp.status_code 200)
      then pure (send_error_json 401 "Invalid credentials")
      else (do
        body ← lift resp.json
        token ← lift (item body "access_token")
        claims ← lift (token_claims token)
        role ← lift (get claims "role" (str ""))
        if is_admin role
            then admitted username
            else pure (send_error_json 403 "Admin access required"))

  login_block : Json → Json → Exec (Dash R) Reply
  login_block username password = do
    resp ← send (password_grant R cfg username password)
    login_with username resp

  unfoldable pub handle_login : Json → Exec (Dash R) Reply
  unfolding login_block
  handle_login body = do
    username ← lift (get body "username" (str ""))
    password ← lift (get body "password" (str ""))
    try_except (login_block username password) (λ e. pure (send_error_json 500 (R.describe e)))

  abbrev logged_out : Reply
  logged_out = record {
    status = 200;
    cookie = some "session=; Path=/; HttpOnly; Max-Age=0";
    body = obj (field "ok" (bool true) end);
  }

  -- Given the value of the cookie `session`.
  unfoldable pub handle_logout : Option String → Exec (Dash R) Reply
  unfolding end_session
  handle_logout none d = (ok logged_out, d)
  handle_logout (some token) d =
      (ok logged_out, record d { sessions = end_session token d.sessions })
