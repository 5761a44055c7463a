-- ===== src/Dashboard/Catalog/Keeps.antt =====
-- The sessions beside the handlers for services, tools, rules and revocations.
use noumena_mcp_gateway_poc.Base.{String}
use noumena_mcp_gateway_poc.Base.Exec.Keeps.{Keeps}
use noumena_mcp_gateway_poc.Base.Json.{Json, Fields}
use noumena_mcp_gateway_poc.Base.World.{Runtime, Response}
use noumena_mcp_gateway_poc.Dashboard.State.{Config}
use noumena_mcp_gateway_poc.Dashboard.State.Keeps.{sessions}
use noumena_mcp_gateway_poc.Dashboard.Store.Keeps.{keeps_store}
use noumena_mcp_gateway_poc.Dashboard.Catalog.{
  store_post, one_field, registered, handle_register_service, store_operation, tool_operation,
  handle_add_access_rule,
}

module _ (R : Runtime) (cfg : Config) where
  Keeps-store_post :
      (sid : Json) (operation : String) (payload : Fields)
      → Keeps sessions (store_post R cfg sid operation payload)
  unfolding store_post
  Keeps-store_post sid operation payload = search keeps_store

  Keeps-one_field : (body : Json) (key : String) → Keeps sessions (one_field R cfg body key)
  unfolding one_field
  Keeps-one_field body key = search keeps_store

  Keeps-registered :
      (body sid : Json) (resp : Response) → Keeps sessions (registered R cfg body sid resp)
  unfolding registered
  Keeps-registered body sid resp = search (keeps_store, Keeps-store_post, Keeps-one_field) depth 14

  pub Keeps-register_service : (body : Json) → Keeps sessions (handle_register_service R cfg body)
  unfolding handle_register_service
  Keeps-register_service body =
      search (keeps_store, Keeps-store_post, Keeps-one_field, Keeps-registered) depth 14

  pub Keeps-store_operation :
      (operation key : String) (body : Json)
      → Keeps sessions (store_operation R cfg operation key body)
  unfolding store_operation
  Keeps-store_operation operation key body =
      search (keeps_store, Keeps-store_post, Keeps-one_field) depth 14

  pub Keeps-tool_operation :
      (operation : String) (body : Json) → Keeps sessions (tool_operation R cfg operation body)
  unfolding tool_operation
  Keeps-tool_operation operation body = search (keeps_store, Keeps-store_post) depth 14

  pub Keeps-add_access_rule : (body : Json) → Keeps sessions (handle_add_access_rule R cfg body)
  unfolding handle_add_access_rule
  Keeps-add_access_rule body = search (keeps_store, Keeps-store_post) depth 24
