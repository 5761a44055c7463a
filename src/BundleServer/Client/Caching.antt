-- ===== src/BundleServer/Client/Caching.antt =====
-- The token cache: what a call hands out, and how long it lasts.
use noumena_mcp_gateway_poc.Base.{
  ℕ, ◌+◌, ◌-◌, ◌*◌, ◌<◌, ◌≡◌, true, false, ltb, arith, if◌then◌else◌,
}
use noumena_mcp_gateway_poc.Base.Exec.{ok, ◌>>◌}
use noumena_mcp_gateway_poc.Base.Json.{Json, truthy, item, num, get, number}
use noumena_mcp_gateway_poc.Base.World.{Runtime, Response}
use noumena_mcp_gateway_poc.BundleServer.Client.{
  Client, Config, second, send, token_request, get_token, refresh, held,
}

module _ (R : Runtime) (cfg : Config) where
  -- A client that holds what it has just returned.
  token-get_token :
      (c : Client R) {t : Json} {c' : Client R} → get_token R cfg c ≡ (ok t, c') → c'.token ≡ t
  unfolding get_token
  token-get_token c h = ground arith

  -- A token that a call returned, if it is not empty, is returned by the next call with no request
  -- if the clock reads less than the deadline that came with it.
  pub get_token_again :
      (c : Client R) {t : Json} {c' : Client R}
      → get_token R cfg c ≡ (ok t, c')
      → truthy t ≡ true
      → (R.time c'.world).0 < c'.expires_at
      → get_token R cfg c' ≡ (ok t, record c' { world = (R.time c'.world).1 })
  get_token_again c {t} {c'} h some_token early =
      let same : c'.token ≡ t = token-get_token c h in unfold get_token in ground (arith, same)

-- A grant of a token to a client that holds none.
pub record Granted (R : Runtime) (cfg : Config) (c : Client R) : Type 0 where
  pub resp : Response
  pub sent_world : R.World
  pub body : Json
  pub token : Json
  pub expires_in : Json
  pub seconds : ℕ
  pub no_token : truthy c.token ≡ false
  pub sent : R.send (token_request R cfg) c.world ≡ (ok resp, sent_world)
  pub accepted : resp.status_code < 400
  pub parsed : resp.json ≡ ok body
  pub has_token : item body "access_token" ≡ ok token
  pub is_token : truthy token ≡ true
  pub has_lifetime : get body "expires_in" (num 60) ≡ ok expires_in
  pub is_lifetime : number expires_in ≡ ok seconds

module _ (R : Runtime) (cfg : Config) (c : Client R) (g : Granted R cfg c) where
  -- The deadline is the granted lifetime after the clock's reading, less ten seconds.
  pub get_token-Granted : get_token R cfg c ≡ (
    ok g.token,
    record {
      token = g.token;
      expires_at = (R.time g.sent_world).0 + g.seconds * second - 10 * second;
      world = (R.time g.sent_world).1;
    },
  )
  unfolding get_token refresh send
  get_token-Granted =
      ground (
        arith, g.no_token, g.sent, g.accepted, g.parsed, g.has_token, g.has_lifetime, g.is_lifetime,
      )

  -- After a grant to a client that held no token: in any world, the granted token is handed out
  -- with no request if the clock reads less than the grant's time and lifetime less ten seconds,
  -- and a new one is asked for otherwise.
  pub get_token-lifetime :
      (w : R.World)
      → let c' = record (get_token R cfg c).1 { world = w } in
        let asked = record c' { world = (R.time w).1 } in
        get_token R cfg c' ≡ (
          if ltb (R.time w).0 ((R.time g.sent_world).0 + g.seconds * second - 10 * second)
          then (ok g.token, asked)
          else (refresh R cfg >> held R cfg) asked)
  get_token-lifetime w = rw get_token-Granted (unfold get_token in ground (arith, g.is_token))
