-- ===== src/Dashboard/Proxy/Keeps.antt =====
-- The sessions beside `handle_sse_proxy` of dashboard/server.py.
use noumena_mcp_gateway_poc.Base.{◌≡◌, refl, ◌∙◌, Bool-cases, inl, inr}
use noumena_mcp_gateway_poc.Base.Exec.{ok, err, Result, ◌>>=◌}
use noumena_mcp_gateway_poc.Base.Exec.Keeps.{Keeps, Keeps-bind}
use noumena_mcp_gateway_poc.Base.World.{Runtime}
use noumena_mcp_gateway_poc.Dashboard.Session.{Sessions}
use noumena_mcp_gateway_poc.Dashboard.State.{Config}
use noumena_mcp_gateway_poc.Dashboard.State.Keeps.{sessions, keeps_sessions}
use noumena_mcp_gateway_poc.Dashboard.Proxy.{
  Upstream, Proxy, upstream, ask_stream, stream, is_os_error, caught, handle_sse_proxy,
}

module _ (R : Runtime) (cfg : Config) where
  abbrev kept : Proxy R → Sessions
  kept p = p.dash.sessions

  Keeps-ask_stream : Keeps sessions (ask_stream R cfg)
  unfolding ask_stream
  Keeps-ask_stream = search keeps_sessions

  Keeps-upstream : Keeps kept (upstream R cfg)
  unfolding upstream
  Keeps-upstream = record { at = λ p. Keeps-ask_stream.at p.dash }

  Keeps-stream : (u : Upstream) → Keeps kept (stream R cfg u)
  unfolding stream
  Keeps-stream u = record { at = λ p. refl }

  kept-caught : (r : Result (Unit {0}) × Proxy R) → kept (caught R cfg r) ≡ kept r.1
  unfolding caught
  kept-caught (ok _, p) = refl
  kept-caught (err e, p) = elim (Bool-cases (is_os_error e)) [
    | inl h ↦ rw h refl
    | inr h ↦ rw h refl
  ]

  pub sessions-sse_proxy :
      (u : Upstream) (p : Proxy R) → (handle_sse_proxy R cfg u p).dash.sessions ≡ p.dash.sessions
  unfolding handle_sse_proxy
  sessions-sse_proxy u p =
      kept-caught ((upstream R cfg >>= λ _. stream R cfg u) p)
      ∙ (Keeps-bind (upstream R cfg) (λ _. stream R cfg u) Keeps-upstream (λ _. Keeps-stream u)).at
          p
