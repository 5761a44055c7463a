-- ===== src/Dashboard/Governance/Keeps.antt =====
-- The sessions beside the handlers for guardrails and workflows of dashboard/server.py.
use noumena_mcp_gateway_poc.Base.{String, List, [], ◌∷◌}
use noumena_mcp_gateway_poc.Base.Exec.{Exec, pure, lift}
use noumena_mcp_gateway_poc.Base.Exec.Keeps.{Keeps, Keeps-bind, Keeps-lift, Keeps-pure, Keeps-if}
use noumena_mcp_gateway_poc.Base.Json.{Json, get, str, truthy, field, Items, nil, cons, Fields}
use noumena_mcp_gateway_poc.Base.World.{Runtime}
use noumena_mcp_gateway_poc.Dashboard.State.{Dash, Config, get_admin_token}
use noumena_mcp_gateway_poc.Dashboard.State.Keeps.{sessions, Keeps-get_admin_token}
use noumena_mcp_gateway_poc.Dashboard.Store.Keeps.{keeps_store}
use noumena_mcp_gateway_poc.Dashboard.Governance.{
  lookup_value, instance_entry, instance_entries, get_instances, get_guardrails_instances,
  get_workflow_instances, handle_get_governance, pick, instance_operation, guardrails_operation,
  workflow_operation, described, handle_set_description, handle_set_deadline,
  handle_set_requires_workflow,
}

module _ (R : Runtime) (cfg : Config) where
  Keeps-instance_entry :
      (it : Json) (result : Fields) → Keeps sessions (instance_entry R cfg it result)
  unfolding instance_entry
  Keeps-instance_entry it result = search keeps_store depth 14

  Keeps-instance_entries :
      (its : Items) (result : Fields) → Keeps sessions (instance_entries R cfg its result)
  unfolding instance_entries
  Keeps-instance_entries nil result = search keeps_store
  Keeps-instance_entries (cons it rest) result =
      Keeps-bind (instance_entry R cfg it result) (instance_entries R cfg rest)
        (Keeps-instance_entry it result) (Keeps-instance_entries rest)

  Keeps-get_instances : (path : String) → Keeps sessions (get_instances R cfg path)
  unfolding get_instances
  Keeps-get_instances path = search (keeps_store, Keeps-instance_entries) depth 24

  pub Keeps-get_guardrails_instances : Keeps sessions (get_guardrails_instances R cfg)
  unfolding get_guardrails_instances
  Keeps-get_guardrails_instances = Keeps-get_instances _

  pub Keeps-get_workflow_instances : Keeps sessions (get_workflow_instances R cfg)
  unfolding get_workflow_instances
  Keeps-get_workflow_instances = Keeps-get_instances _

  pub Keeps-get_governance : Keeps sessions (handle_get_governance R cfg)
  unfolding handle_get_governance
  Keeps-get_governance =
      search (keeps_store, Keeps-get_guardrails_instances, Keeps-get_workflow_instances) depth 14

  Keeps-pick : (body : Json) (keys : List (String × Json)) → Keeps sessions (pick R cfg body keys)
  unfolding pick
  Keeps-pick body [] = search keeps_store
  Keeps-pick body ((k, default) ∷ rest) =
      Keeps-bind (lift (get body k default)) _ (Keeps-lift _) (λ value.
        Keeps-bind (pick R cfg body rest) (λ others. pure (field k value others))
          (Keeps-pick body rest) (λ others. Keeps-pure _))

  Keeps-instance_operation :
      (instances : Exec (Dash R) Fields) (path kind operation : String)
      (payload : Json → Exec (Dash R) Fields) (body : Json)
      → Keeps sessions instances
      → Keeps sessions (payload body)
      → Keeps sessions (instance_operation R cfg instances path kind operation payload body)
  unfolding instance_operation
  Keeps-instance_operation instances path kind operation payload body ki kp =
      Keeps-bind (lift (get body "serviceName" (str ""))) _ (Keeps-lift _) (λ service.
        Keeps-bind instances _ ki (λ known.
          Keeps-bind (lift (lookup_value service known)) _ (Keeps-lift _) (λ id.
            Keeps-if (truthy id) _ _
              (Keeps-bind (get_admin_token R cfg) _ (Keeps-get_admin_token R cfg)
                (λ token. Keeps-bind (payload body) _ kp (λ payload'. search keeps_store)))
              (Keeps-pure _))))

  pub Keeps-guardrails_operation :
      (operation : String) (entries : List (String × Json)) (body : Json)
      → Keeps sessions (guardrails_operation R cfg operation entries body)
  unfolding guardrails_operation
  Keeps-guardrails_operation operation entries body =
      Keeps-instance_operation (get_guardrails_instances R cfg) "/npl/governance/Guardrails/"
        "guardrails" operation (λ body. pick R cfg body entries) body Keeps-get_guardrails_instances
        (Keeps-pick body entries)

  Keeps-workflow_operation :
      (operation : String) (payload : Json → Exec (Dash R) Fields) (body : Json)
      → Keeps sessions (payload body)
      → Keeps sessions (workflow_operation R cfg operation payload body)
  unfolding workflow_operation
  Keeps-workflow_operation operation payload body =
      Keeps-instance_operation (get_workflow_instances R cfg) "/npl/governance/Workflow/" "workflow"
        operation payload body Keeps-get_workflow_instances

  Keeps-described : (body : Json) → Keeps sessions (described R cfg body)
  unfolding described
  Keeps-described body = search keeps_store

  pub Keeps-set_description : (body : Json) → Keeps sessions (handle_set_description R cfg body)
  unfolding handle_set_description
  Keeps-set_description body =
      Keeps-workflow_operation "setWorkflowDescription" (described R cfg) body
        (Keeps-described body)

  pub Keeps-set_deadline : (body : Json) → Keeps sessions (handle_set_deadline R cfg body)
  unfolding handle_set_deadline
  Keeps-set_deadline body =
      Keeps-workflow_operation "setWorkflowDeadline" _ body (Keeps-pick body _)

  pub Keeps-set_requires_workflow :
      (body : Json) → Keeps sessions (handle_set_requires_workflow R cfg body)
  unfolding handle_set_requires_workflow
  Keeps-set_requires_workflow body =
      Keeps-workflow_operation "setRequiresWorkflow" _ body (Keeps-pick body _)
