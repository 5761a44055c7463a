-- ===== src/Dashboard/Containers/Stopping.antt =====
-- When a container that is stopped takes its backend with it.
use noumena_mcp_gateway_poc.Base.{
  ap, Bool-cases, eqb, ◌≢◌, ◌≡◌, refl, ◌∙◌, ◌⊎◌, inl, inr, Bool, true, false, String, ◌==◌, List,
  [], ◌∷◌, Option, none, some, if◌then◌else◌, arith,
}
use noumena_mcp_gateway_poc.Base.Exec.{
  Exception, not_found, continue, handle, Exec, Result, ok, err, pure, try_except, ◌>>=◌, ◌>>◌,
}
use noumena_mcp_gateway_poc.Base.Exec.Keeps.{Keeps, Keeps-bind, Keeps-try, Keeps-pure}
use noumena_mcp_gateway_poc.Base.Result.{Result-cases}
use noumena_mcp_gateway_poc.Base.Json.{
  truthy, null, num, arr, nil, cons, Json, str, get, obj, end, field, bool,
}
use noumena_mcp_gateway_poc.Base.World.{Runtime}
use noumena_mcp_gateway_poc.Dashboard.State.{Config, Reply, send_json, send_error_json, format}
use noumena_mcp_gateway_poc.Dashboard.Backends.{Gateway, remove_backend_from_config}
use noumena_mcp_gateway_poc.Dashboard.Docker.{
  change_config, Host, Docker, docker, available, Box, remove_boxes,
}
use noumena_mcp_gateway_poc.Dashboard.Docker.Keeps.{
  both, steps, Keeps-remove_boxes, Keeps-restart_after,
}
use noumena_mcp_gateway_poc.Dashboard.Containers.{
  forget_named, remove_inner, inner_of, listed_ancestor, command_image, forget_backend, stop_block,
  stop_failed, stopped, handle_docker_stop,
}

abbrev pub stopped_reply : Reply
stopped_reply = send_json (obj (field "ok" (bool true) end)) 200

module _ (R : Runtime) (D : Docker R) (cfg : Config) where
  Keeps-listed_ancestor : (image : Option String) → Keeps both (listed_ancestor R D cfg image)
  unfolding listed_ancestor
  Keeps-listed_ancestor none = search steps
  Keeps-listed_ancestor (some image) = search steps

  by_label :
      (name : Json) (inner : List Box)
      → Keeps both (elim inner [
        | c ∷ cs ↦ pure (c ∷ cs)
        | [] ↦
            try_except
              (do
                sg ← docker {R = R} (D.find name)
                listed_ancestor R D cfg (command_image R D cfg sg.env))
              (λ e. pure [])
      ])
  by_label name [] = search (steps, Keeps-listed_ancestor) depth 14
  by_label name (c ∷ cs) = search steps

  pub Keeps-remove_inner : (name : Json) → Keeps both (remove_inner R D cfg name)
  unfolding remove_inner inner_of
  Keeps-remove_inner name =
      Keeps-try (inner_of R D cfg name >>= remove_boxes R D) (λ e. pure tt)
        (Keeps-bind (inner_of R D cfg name) (remove_boxes R D)
          (Keeps-bind (docker (D.list_children (format R name))) _ (search steps) (by_label name))
          (Keeps-remove_boxes R D))
        (λ e. Keeps-pure tt)

  abbrev config : Host R → Gateway
  config h = h.gateway

  abbrev pub kept_unless : Gateway → Result Gateway → Gateway
  kept_unless g (ok g') = g'
  kept_unless g (err e) = g

  -- The configuration without the backend of a service, if that is a name that is not empty and the
  -- removal succeeds; else as it is.
  abbrev pub after_stop : Json → Gateway → Gateway
  after_stop (str name) g =
      if name == "" then g else kept_unless g (remove_backend_from_config name g)
  after_stop _ g = g

  change_config-gateway :
      (f : Gateway → Result Gateway) (h : Host R)
      → (change_config R D cfg f h).1.gateway ≡ kept_unless h.gateway (f h.gateway)
  unfolding change_config
  change_config-gateway f h = elim (Result-cases (f h.gateway)) [
    | inl (g, e) ↦ rw e (
        ap (λ p. p.0)
          ((Keeps-restart_after R D cfg h.gateway.restarts).at (record h { gateway = g })))
    | inr (x, e) ↦ rw e refl
  ]

  settled : (r : Result (Unit {0}) × Host R) → handle r (λ e. pure tt) ≡ (ok tt, r.1)
  settled (ok tt, h) = refl
  settled (err e, h) = refl

  forget_backend_lem :
      (service : Json) (h : Host R)
      → (h' : Host R) × (forget_backend R D cfg service h ≡ (ok tt, h'))
        × (h'.gateway ≡ after_stop service h.gateway)
  unfolding forget_backend forget_named truthy
  forget_backend_lem (str name) h = elim (Bool-cases (name == "")) [
    | inl e ↦ (h, rw e refl, rw e refl)
    | inr e ↦
        let change = change_config R D cfg (remove_backend_from_config name) in
        (
          (change h).1,
          rw e (settled (change h)),
          rw e (change_config-gateway (remove_backend_from_config name) h),
        )
  ]
  forget_backend_lem null h = (h, refl, refl)
  forget_backend_lem (bool true) h = (h, refl, refl)
  forget_backend_lem (bool false) h = (h, refl, refl)
  forget_backend_lem (num n) h = elim (Bool-cases (eqb n 0)) [
    | inl e ↦ (h, rw e refl, refl)
    | inr e ↦ (h, rw e refl, refl)
  ]
  forget_backend_lem (arr nil) h = (h, refl, refl)
  forget_backend_lem (arr (cons x xs)) h = (h, refl, refl)
  forget_backend_lem (obj end) h = (h, refl, refl)
  forget_backend_lem (obj (field k v d)) h = (h, refl, refl)

  -- How a stop of a service ends, the configuration being `g` before.
  abbrev Ends : Json → Gateway → Result Reply × Host R → Type 0
  Ends service g r =
      ((r.0 ≡ ok stopped_reply) × (r.1.gateway ≡ after_stop service g))
      ⊎ ((r.0 ≢ ok stopped_reply) × (r.1.gateway ≡ g))

  stop_failed-other :
      (name : Json) (x : Exception) → ok (stop_failed R D cfg name x) ≢ ok stopped_reply
  unfolding stop_failed send_error_json send_json
  stop_failed-other name x = elim x [
    | not_found ↦ λ e. ground (arith, e)
    | _ ↦ λ e. ground (arith, e)
  ]

  module _ (service : Json) (g : Gateway) where
    Ends-continue :
        {A : Type 0} (r : Result A × Host R) (f : A → Exec (Host R) Reply)
        → r.1.gateway ≡ g
        → ((a : A) (h : Host R) → h.gateway ≡ g → Ends service g (f a h))
        → Ends service g (continue r f)
    Ends-continue (ok a, h) f e rest = rest a h e
    Ends-continue (err x, h) f e rest = inr (λ q. cc, e)

    Ends-handle :
        (name : Json) (r : Result Reply × Host R)
        → Ends service g r
        → Ends service g (handle r (λ x. pure (stop_failed R D cfg name x)))
    Ends-handle name (ok reply, h) e = e
    Ends-handle name (err x, h) (inr (_, e)) = inr (stop_failed-other name x, e)
    Ends-handle name (err x, h) (inl (e, _)) = absurd cc

    forgotten-Ends :
        (h : Host R)
        → h.gateway ≡ g
        → Ends service g ((forget_backend R D cfg service >> pure stopped_reply) h)
    forgotten-Ends h same =
        let (h', p, forgets) = forget_backend_lem service h in
        rw p (inl (refl, forgets ∙ ap (after_stop service) same))

    stop_block-Ends :
        (name : Json) (h : Host R)
        → h.gateway ≡ g
        → Ends service g (stop_block R D cfg name service h)
    unfolding stop_block
    stop_block-Ends name h e =
        Ends-continue (remove_inner R D cfg name h) _
          (ap (λ p. p.0) ((Keeps-remove_inner name).at h) ∙ e)
          (λ _ h₁ e₁. Ends-continue (docker (D.find name) h₁) _ e₁ (λ box h₂ e₂.
            Ends-continue (docker (D.remove box) h₂) _ e₂ (λ _ h₃ e₃. forgotten-Ends h₃ e₃)))

    -- The handler, once it knows whether Docker is there.
    abbrev answered : Json → Bool → Exec (Host R) Reply
    answered name there =
        if there
        then try_except (stop_block R D cfg name service) (λ x. pure (stop_failed R D cfg name x))
        else pure (send_error_json 503 "Docker not available")

    answered-Ends :
        (name : Json) (there : Bool) (h : Host R)
        → h.gateway ≡ g
        → Ends service g (answered name there h)
    unfolding send_error_json send_json
    answered-Ends name true h e =
        Ends-handle name (stop_block R D cfg name service h) (stop_block-Ends name h e)
    answered-Ends name false h e = inr (λ q. ground (arith, q), e)

    stopped-Ends :
        (name : Json) (h : Host R) → h.gateway ≡ g → Ends service g (stopped R D cfg name service h)
    unfolding stopped
    stopped-Ends name h e = Ends-continue (available D h) (answered name) e (answered-Ends name)

  -- A request to stop a service, whose body is a dict: if it is answered that all is well, the
  -- gateway's configuration and its restarts are those that the removal of the service's backend
  -- gives, or as before where the service is no name, the empty name or the removal raises; if it is
  -- answered otherwise or raises, they are as before.
  pub handle_docker_stop-gateway :
      (body service : Json) (h : Host R)
      → get body "serviceName" (str "") ≡ ok service
      → let (answer, h') = handle_docker_stop R D cfg body h in
        ((answer ≡ ok stopped_reply) × (h'.gateway ≡ after_stop service h.gateway))
        ⊎ ((answer ≢ ok stopped_reply) × (h'.gateway ≡ h.gateway))
  unfolding handle_docker_stop
  handle_docker_stop-gateway body service h e =
      Ends-continue service h.gateway (get body "containerName" (str ""), h) _ refl
        (λ name h₁ e₁. rw e (stopped-Ends service h.gateway name h₁ e₁))
