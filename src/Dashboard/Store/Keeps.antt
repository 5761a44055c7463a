-- ===== src/Dashboard/Store/Keeps.antt =====
-- The sessions beside `get_store_id`, `ensure_store_id` and `npl_post` of dashboard/server.py.
use noumena_mcp_gateway_poc.Base.{refl, String}
use noumena_mcp_gateway_poc.Base.Exec.{ok, pure, try_except}
use noumena_mcp_gateway_poc.Base.Exec.Keeps.{Keeps, part-if}
use noumena_mcp_gateway_poc.Base.Json.{Json, null, truthy}
use noumena_mcp_gateway_poc.Base.World.{Runtime}
use noumena_mcp_gateway_poc.Dashboard.State.{Config}
use noumena_mcp_gateway_poc.Dashboard.State.Keeps.{sessions, keeps_sessions}
use noumena_mcp_gateway_poc.Dashboard.Store.{
  npl_get_with, npl_post_with, npl_post, set_store_id, found_store, discover_store, get_store_id,
  create_store, ensure_store_id,
}

module _ (R : Runtime) (cfg : Config) where
  pub Keeps-npl_get_with :
      (token : Json) (path : String) → Keeps sessions (npl_get_with R cfg token path)
  unfolding npl_get_with
  Keeps-npl_get_with token path = search keeps_sessions

  pub Keeps-npl_post_with :
      (token : Json) (path : String) (body : Json)
      → Keeps sessions (npl_post_with R cfg token path body)
  unfolding npl_post_with
  Keeps-npl_post_with token path body = search keeps_sessions

  pub Keeps-npl_post : (path : String) (body : Json) → Keeps sessions (npl_post R cfg path body)
  unfolding npl_post
  Keeps-npl_post path body = search (keeps_sessions, Keeps-npl_post_with) depth 14

  Keeps-set_store_id : (id : Json) → Keeps sessions (set_store_id R cfg id)
  unfolding set_store_id
  Keeps-set_store_id id = record { at = λ d. refl }

  Keeps-found_store : (items : Json) → Keeps sessions (found_store R cfg items)
  unfolding found_store
  Keeps-found_store items = search (keeps_sessions, Keeps-set_store_id) depth 14

  Keeps-discover_store : Keeps sessions (discover_store R cfg)
  unfolding discover_store
  Keeps-discover_store = search (keeps_sessions, Keeps-npl_get_with, Keeps-found_store) depth 20

  Keeps-discovered : Keeps sessions (try_except (discover_store R cfg) (λ e. pure null))
  Keeps-discovered = search (keeps_sessions, Keeps-discover_store)

  pub Keeps-get_store_id : Keeps sessions (get_store_id R cfg)
  unfolding get_store_id
  Keeps-get_store_id = record {
    at =
        λ d. part-if sessions (truthy d.store_id) (ok d.store_id, d) _ refl (Keeps-discovered.at d);
  }

  Keeps-create_store : Keeps sessions (create_store R cfg)
  unfolding create_store
  Keeps-create_store = search (keeps_sessions, Keeps-npl_post_with, Keeps-set_store_id) depth 20

  pub Keeps-ensure_store_id : Keeps sessions (ensure_store_id R cfg)
  unfolding ensure_store_id
  Keeps-ensure_store_id = search (keeps_sessions, Keeps-get_store_id, Keeps-create_store) depth 14

pub ruleset keeps_store = (
  keeps_sessions, Keeps-npl_get_with, Keeps-npl_post_with, Keeps-npl_post, Keeps-get_store_id,
  Keeps-ensure_store_id,
)
