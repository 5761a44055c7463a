-- ===== src/Dashboard/State/Keeps.antt =====
-- The sessions beside the HTTP calls and the cached tokens of dashboard/server.py.
use noumena_mcp_gateway_poc.Base.{refl, ℕ, ◌*◌, ◌-◌, ltb}
use noumena_mcp_gateway_poc.Base.Exec.{ok, ◌>>=◌}
use noumena_mcp_gateway_poc.Base.Exec.Keeps.{Keeps, Keeps-pure, part-if, Keeps-bind, keeps_rules}
use noumena_mcp_gateway_poc.Base.Json.{Json, truthy}
use noumena_mcp_gateway_poc.Base.World.{Runtime, Request, Response}
use noumena_mcp_gateway_poc.Dashboard.Session.{Sessions}
use noumena_mcp_gateway_poc.Dashboard.State.{
  second, Dash, Config, send, now, raise_for_status, get_admin_token, renew_admin_token, admin_at,
  set_admin_token, set_admin_expires, get_gateway_token, renew_gateway_token, gateway_at,
  set_gateway_token, set_gateway_expires,
}

module _ {R : Runtime} where
  abbrev pub sessions : Dash R → Sessions
  sessions d = d.sessions

  pub Keeps-send : (q : Request) → Keeps sessions (send {R = R} q)
  unfolding send
  Keeps-send q = record { at = λ d. refl }

  pub Keeps-now : Keeps sessions (now {R = R})
  unfolding now
  Keeps-now = record { at = λ d. refl }

  pub Keeps-raise_for_status : (r : Response) → Keeps sessions (raise_for_status {R = R} r)
  unfolding raise_for_status
  Keeps-raise_for_status r = search keeps_rules

module _ (R : Runtime) (cfg : Config) where
  Keeps-set_admin_token : (t : Json) → Keeps sessions (set_admin_token R cfg t)
  unfolding set_admin_token
  Keeps-set_admin_token t = record { at = λ d. refl }

  Keeps-set_admin_expires : (t : ℕ) → Keeps sessions (set_admin_expires R cfg t)
  unfolding set_admin_expires
  Keeps-set_admin_expires t = record { at = λ d. refl }

  Keeps-renew_admin_token : Keeps sessions (renew_admin_token R cfg)
  unfolding renew_admin_token
  Keeps-renew_admin_token =
      search
        (
          keeps_rules, Keeps-send, Keeps-now, Keeps-raise_for_status, Keeps-set_admin_token,
          Keeps-set_admin_expires,
        )
        depth 30

  Keeps-admin_at : (t : ℕ) → Keeps sessions (admin_at R cfg t)
  unfolding admin_at
  Keeps-admin_at t = record {
    at = λ d.
        part-if sessions (ltb t (d.admin.expires - 30 * second)) (ok d.admin.token, d)
          (renew_admin_token R cfg d) refl (Keeps-renew_admin_token.at d);
  }

  pub Keeps-get_admin_token : Keeps sessions (get_admin_token R cfg)
  unfolding get_admin_token
  Keeps-get_admin_token = record {
    at = λ d.
        part-if sessions (truthy d.admin.token) ((now >>= admin_at R cfg) d)
          (renew_admin_token R cfg d)
          ((Keeps-bind now (admin_at R cfg) Keeps-now Keeps-admin_at).at d)
          (Keeps-renew_admin_token.at d);
  }

  Keeps-set_gateway_token : (t : Json) → Keeps sessions (set_gateway_token R cfg t)
  unfolding set_gateway_token
  Keeps-set_gateway_token t = record { at = λ d. refl }

  Keeps-set_gateway_expires : (t : ℕ) → Keeps sessions (set_gateway_expires R cfg t)
  unfolding set_gateway_expires
  Keeps-set_gateway_expires t = record { at = λ d. refl }

  Keeps-renew_gateway_token : Keeps sessions (renew_gateway_token R cfg)
  unfolding renew_gateway_token
  Keeps-renew_gateway_token =
      search
        (
          keeps_rules, Keeps-send, Keeps-now, Keeps-raise_for_status, Keeps-set_gateway_token,
          Keeps-set_gateway_expires,
        )
        depth 30

  Keeps-gateway_at : (t : ℕ) → Keeps sessions (gateway_at R cfg t)
  unfolding gateway_at
  Keeps-gateway_at t = record {
    at = λ d.
        part-if sessions (ltb t (d.gateway.expires - 30 * second)) (ok d.gateway.token, d)
          (renew_gateway_token R cfg d) refl (Keeps-renew_gateway_token.at d);
  }

  pub Keeps-get_gateway_token : Keeps sessions (get_gateway_token R cfg)
  unfolding get_gateway_token
  Keeps-get_gateway_token = record {
    at = λ d.
        part-if sessions (truthy d.gateway.token) ((now >>= gateway_at R cfg) d)
          (renew_gateway_token R cfg d)
          ((Keeps-bind now (gateway_at R cfg) Keeps-now Keeps-gateway_at).at d)
          (Keeps-renew_gateway_token.at d);
  }

pub ruleset keeps_sessions = (
  keeps_rules, Keeps-send, Keeps-now, Keeps-raise_for_status, Keeps-get_admin_token,
  Keeps-get_gateway_token,
)
