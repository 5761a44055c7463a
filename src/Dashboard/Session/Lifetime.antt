-- ===== src/Dashboard/Session/Lifetime.antt =====
-- How long a session lasts.
use noumena_mcp_gateway_poc.Base.{
  ap, refl, List, [], ◌∷◌, leb, if◌then◌else◌, ◌∙◌, ℕ, ◌+◌, ◌≡◌, ◌≢◌, String, some, arith, eq_iff,
  eq_refl,
}
use noumena_mcp_gateway_poc.Base.Json.{Json, null}
use noumena_mcp_gateway_poc.Base.Dict
use noumena_mcp_gateway_poc.Base.Dict.{lookup-insert, lookup-erase}
use noumena_mcp_gateway_poc.Dashboard.Session.{
  Sessions, session_ttl, create_session, validate_session, end_session,
}

found_created :
    (token : String) (user : Json) (t : ℕ) (sessions : Sessions)
    → Dict.lookup token (create_session token user t sessions)
      ≡ some (record { username = user; expires = t + session_ttl })
unfolding create_session
found_created token user t sessions = lookup-insert token token _ sessions ∙ rw eq_refl

-- Starting, ending or checking one session changes nothing that is kept for another token.
sessions_apart :
    (token other : String) (user : Json) (t : ℕ) (sessions : Sessions)
    → token ≢ other
    → (Dict.lookup other (create_session token user t sessions) ≡ Dict.lookup other sessions)
      × (Dict.lookup other (end_session token sessions) ≡ Dict.lookup other sessions)
      × (Dict.lookup other (validate_session token t sessions).1 ≡ Dict.lookup other sessions)
unfolding create_session validate_session end_session
sessions_apart token other user t sessions h = ground (
  arith,
  lookup-insert token other (record { username = user; expires = t + session_ttl }) sessions,
  lookup-erase token other sessions,
  eq_iff token other,
)

-- A session that was ended is nobody's, whenever it is checked.
validate-end :
    (token : String) (t : ℕ) (sessions : Sessions)
    → validate_session token t (end_session token sessions) ≡ (null, end_session token sessions)
unfolding validate_session end_session
validate-end token t sessions = ground (arith, lookup-erase token token sessions, eq_refl token)

-- What is done to the table.
pub data Use : Type 0 where
  start : String → Json → ℕ → Use
  check : String → ℕ → Use
  finish : String → Use

-- The token that it is done for.
abbrev pub token_of : Use → String
token_of (start token user t) = token
token_of (check token t) = token
token_of (finish token) = token

abbrev pub used : Use → Sessions → Sessions
used (start token user t) sessions = create_session token user t sessions
used (check token t) sessions = (validate_session token t sessions).1
used (finish token) sessions = end_session token sessions

abbrev pub used_all : List Use → Sessions → Sessions
used_all [] sessions = sessions
used_all (u ∷ us) sessions = used_all us (used u sessions)

-- All of them are done for other tokens.
abbrev pub AreForOthers : String → List Use → Type 0
AreForOthers token [] = Unit
AreForOthers token (u ∷ us) = (token_of u ≢ token) × AreForOthers token us

lookup-used :
    (token : String) (u : Use) (sessions : Sessions)
    → token_of u ≢ token
    → Dict.lookup token (used u sessions) ≡ Dict.lookup token sessions
lookup-used token (start other user t) sessions n = (sessions_apart other token user t sessions n).0
lookup-used token (check other t) sessions n = (sessions_apart other token null t sessions n).2
lookup-used token (finish other) sessions n = (sessions_apart other token null 0 sessions n).1

lookup-used_all :
    (token : String) (us : List Use) (sessions : Sessions)
    → AreForOthers token us
    → Dict.lookup token (used_all us sessions) ≡ Dict.lookup token sessions
lookup-used_all token [] sessions a = refl
lookup-used_all token (u ∷ us) sessions (n, a) =
    lookup-used_all token us (used u sessions) a ∙ lookup-used token u sessions n

-- A session that was started at `t` is its user's up to an hour later, the last moment included, and
-- nobody's afterwards, whatever is done for other tokens meanwhile; once it is ended, it is nobody's
-- at any time.
pub validate-used_all :
    (token : String) (user : Json) (t t' : ℕ) (us : List Use) (sessions : Sessions)
    → AreForOthers token us
    → let table = used_all us (create_session token user t sessions) in
      ((validate_session token t' table).0 ≡ (if leb t' (t + session_ttl) then user else null))
      × ((validate_session token t' (end_session token table)).0 ≡ null)
unfolding validate_session
validate-used_all token user t t' us sessions a =
    let table = used_all us (create_session token user t sessions) in
    let found =
      lookup-used_all token us (create_session token user t sessions) a
      ∙ found_created token user t sessions in
    (ground (arith, found), ap (λ r. r.0) (validate-end token t' table))
