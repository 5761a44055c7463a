-- ===== src/Dashboard/Instances/Keeps.antt =====
-- The sessions beside the handlers that create instances.
use noumena_mcp_gateway_poc.Base.{String, Option, none, some}
use noumena_mcp_gateway_poc.Base.Exec.{Exec, lift}
use noumena_mcp_gateway_poc.Base.Exec.Keeps.{Keeps, Keeps-bind, Keeps-lift}
use noumena_mcp_gateway_poc.Base.Json.{Json, Fields, item, find_value}
use noumena_mcp_gateway_poc.Base.World.{Runtime}
use noumena_mcp_gateway_poc.Dashboard.State.{Dash, Config}
use noumena_mcp_gateway_poc.Dashboard.State.Keeps.{sessions}
use noumena_mcp_gateway_poc.Dashboard.Store.Keeps.{keeps_store}
use noumena_mcp_gateway_poc.Dashboard.Governance.Keeps.{
  Keeps-get_guardrails_instances, Keeps-get_workflow_instances,
}
use noumena_mcp_gateway_poc.Dashboard.Governance.{get_guardrails_instances, get_workflow_instances}
use noumena_mcp_gateway_poc.Dashboard.Instances.{
  new_instance, instance_of, create_instance, handle_create_guardrails, handle_create_workflow,
}
use noumena_mcp_gateway_poc.Base.{◌≡◌, refl, ◌∙◌, Bool-cases, inl, inr, ◌&&◌}
use noumena_mcp_gateway_poc.Base.Exec.{ok, err, Result}
use noumena_mcp_gateway_poc.Base.Result.{Result-cases}
use noumena_mcp_gateway_poc.Base.Json.{Items, nil, cons, truthy}
use noumena_mcp_gateway_poc.Dashboard.State.Keeps.{Keeps-get_admin_token, Keeps-get_gateway_token}
use noumena_mcp_gateway_poc.Dashboard.Instances.{
  Protocol, guardrails_protocol, workflow_protocol, ask_data, instance_data, protocol_entry,
  protocol_entries, names_of, listing, listed, list_protocol, list_both, post_empty,
  handle_get_protocols,
}

module _ (R : Runtime) (cfg : Config) where
  Keeps-new_instance : (path : String) (svc : Json) → Keeps sessions (new_instance R cfg path svc)
  unfolding new_instance
  Keeps-new_instance path svc = search keeps_store depth 24

  Keeps-instance_of :
      (path : String) (svc : Json) (found : Option Json)
      → Keeps sessions (instance_of R cfg path svc found)
  unfolding instance_of
  Keeps-instance_of path svc none = Keeps-new_instance path svc
  Keeps-instance_of path svc (some id) = search keeps_store

  Keeps-create_instance :
      (instances : Exec (Dash R) Fields) (path : String) (body : Json)
      → Keeps sessions instances
      → Keeps sessions (create_instance R cfg instances path body)
  unfolding create_instance
  Keeps-create_instance instances path body ki =
      Keeps-bind (lift (item body "serviceName")) _ (Keeps-lift _) (λ svc.
        Keeps-bind instances _ ki (λ known.
          Keeps-bind (lift (find_value svc known)) (instance_of R cfg path svc) (Keeps-lift _)
            (Keeps-instance_of path svc)))

  pub Keeps-create_guardrails : (body : Json) → Keeps sessions (handle_create_guardrails R cfg body)
  unfolding handle_create_guardrails
  Keeps-create_guardrails body =
      Keeps-create_instance (get_guardrails_instances R cfg) "/npl/governance/Guardrails/" body
        (Keeps-get_guardrails_instances R cfg)

  pub Keeps-create_workflow : (body : Json) → Keeps sessions (handle_create_workflow R cfg body)
  unfolding handle_create_workflow
  Keeps-create_workflow body =
      Keeps-create_instance (get_workflow_instances R cfg) "/npl/governance/Workflow/" body
        (Keeps-get_workflow_instances R cfg)

  pub Keeps-post_empty :
      (token : Json) (path : String) → Keeps sessions (post_empty R cfg token path)
  unfolding post_empty
  Keeps-post_empty token path = search keeps_store

  Keeps-ask_data :
      (token : Json) (path : String) (default : Json)
      → Keeps sessions (ask_data R cfg token path default)
  unfolding ask_data
  Keeps-ask_data token path default = search (keeps_store, Keeps-post_empty) depth 14

  sessions-protocol_entry :
      (p : Protocol R cfg) (token svc id : Json) (protocols : Items) (d : Dash R)
      → (protocol_entry R cfg p token svc id protocols d).1.sessions ≡ d.sessions
  unfolding protocol_entry instance_data
  sessions-protocol_entry p token svc id protocols d = elim (Bool-cases (truthy svc && truthy id)) [
    | inl e ↦ rw e ((Keeps-ask_data token _ p.default).at d)
    | inr e ↦ rw e refl
  ]

  sessions-protocol_entries :
      (p : Protocol R cfg) (token : Json) (its protocols : Items) (d : Dash R)
      → (protocol_entries R cfg p token its protocols d).1.sessions ≡ d.sessions
  unfolding protocol_entries
  sessions-protocol_entries p token nil protocols d = refl
  sessions-protocol_entries p token (cons it rest) protocols d =
      elim (Result-cases (names_of R cfg it)) [
        | inr (x, e) ↦ rw (protocol_entries, e) refl
        | inl (names, e) ↦
            rw (protocol_entries, e)
              (sessions-protocol_entries p token rest _ _
                ∙ sessions-protocol_entry p token names.0 names.1 protocols d)
      ]

  Keeps-listing : (token : Json) (path : String) → Keeps sessions (listing R cfg token path)
  unfolding listing
  Keeps-listing token path = search keeps_store depth 14

  sessions-listed :
      (p : Protocol R cfg) (token : Json) (protocols : Items) (r : Result Items × Dash R)
      → (listed R cfg p token protocols r).1.sessions ≡ r.1.sessions
  unfolding listed
  sessions-listed p token protocols (ok items, d) =
      sessions-protocol_entries p token items protocols d
  sessions-listed p token protocols (err e, d) = refl

  sessions-list_protocol :
      (p : Protocol R cfg) (token gw_token : Json) (protocols : Items) (d : Dash R)
      → (list_protocol R cfg p token gw_token protocols d).1.sessions ≡ d.sessions
  unfolding list_protocol
  sessions-list_protocol p token gw_token protocols d =
      sessions-listed p gw_token protocols (listing R cfg token p.path d)
      ∙ (Keeps-listing token p.path).at d

  Keeps-list_both : (token gw_token : Json) → Keeps sessions (list_both R cfg token gw_token)
  unfolding list_both
  Keeps-list_both token gw_token = record {
    at = λ d.
        sessions-list_protocol (workflow_protocol R cfg) token gw_token _ _
        ∙ sessions-list_protocol (guardrails_protocol R cfg) token gw_token nil d;
  }

  pub Keeps-get_protocols : Keeps sessions (handle_get_protocols R cfg)
  unfolding handle_get_protocols
  Keeps-get_protocols =
      search (keeps_store, Keeps-get_admin_token, Keeps-get_gateway_token, Keeps-list_both) depth 14
