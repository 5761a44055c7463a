-- ===== src/BundleServer/Governance/Isolation.antt =====
-- A service's guardrails do not depend on what the requests for other services bring.
use noumena_mcp_gateway_poc.Base.{
  ltb, Bool-cases, String, eq_iff, inl, inr, ◌≡◌, ◌≢◌, refl, ◌∙◌, arith,
}
use noumena_mcp_gateway_poc.Base.Exec.{Result, ok, err, Exec, continue}
use noumena_mcp_gateway_poc.Base.Result.{Result-cases}
use noumena_mcp_gateway_poc.Base.Json.{
  Json, str, Items, nil, cons, obj, Fields, end, field, lookup, key_text, iterate,
}
use noumena_mcp_gateway_poc.Base.Json.Laws.{lookup-insert, AllItems}
use noumena_mcp_gateway_poc.Base.World.{Runtime}
use noumena_mcp_gateway_poc.BundleServer.Client.{Client, Config}
use noumena_mcp_gateway_poc.BundleServer.Transform.{service_guardrails, instance_names}
use noumena_mcp_gateway_poc.BundleServer.Governance.{
  npl_post, store_guardrails, guardrails_block, guardrails_instance, guardrails_loop, keep_on_error,
}

-- The item is about another service than `k`.
abbrev pub NotAbout : String → Json → Type 0
NotAbout k it = (id : Json) → instance_names it ≢ ok (id, str k)

module _ (R : Runtime) (cfg : Config) (k : String) where
  -- What the dict holds for `k` is what it held.
  abbrev Keeps : Fields → Result Fields × Client R → Type 0
  Keeps old (ok new, c) = lookup k new ≡ lookup k old
  Keeps old (err e, c) = Unit

  store_guardrails-Keeps :
      (svc : Json) (old found : Fields) (c : Client R)
      → svc ≢ str k
      → Keeps old (store_guardrails R cfg svc old found, c)
  unfolding store_guardrails
  store_guardrails-Keeps svc old end c h = refl
  store_guardrails-Keeps (str s) old (field j v d) c h =
      unfold key_text in ground (arith, lookup-insert s k (obj (field j v d)) old, eq_iff s k)
  store_guardrails-Keeps _ old (field j v d) c h = unfold key_text in tt

  Keeps-continue :
      {A : Type 0} (old : Fields) (r : Result A × Client R) (f : A → Exec (Client R) Fields)
      → ((a : A) (c : Client R) → Keeps old (f a c))
      → Keeps old (continue r f)
  Keeps-continue old (ok a, c) f h = h a c
  Keeps-continue old (err e, c) f h = tt

  guardrails_block-Keeps :
      (token id svc : Json) (old : Fields) (c : Client R)
      → svc ≢ str k
      → Keeps old (guardrails_block R cfg token id svc old c)
  unfolding guardrails_block
  guardrails_block-Keeps token id svc old c h =
      Keeps-continue old (npl_post R cfg token _ c) _ λ resp c'.
        elim (Bool-cases (ltb resp.status_code 400)) [
          | inl e ↦ rw e (
              Keeps-continue old (resp.json, c') _
                λ body c₂.
                  Keeps-continue old (iterate body, c₂) _
                    λ tools c₃.
                      Keeps-continue old (service_guardrails end tools, c₃) _
                        λ found c₄. store_guardrails-Keeps svc old found c₄ h)
          | inr e ↦ rw e refl
        ]

  -- An instance of another service leaves what the dict holds for `k` alone.
  guardrails_instance-lookup :
      (token id svc : Json) (old : Fields) (c : Client R)
      → svc ≢ str k
      → lookup k (guardrails_instance R cfg token (id, svc) old c).0 ≡ lookup k old
  unfolding guardrails_instance
  guardrails_instance-lookup token id svc old c h = ground (
    arith,
    kept old (guardrails_block R cfg token id svc old c)
        (guardrails_block-Keeps token id svc old c h),
  )
    where
      kept :
          (old : Fields) (r : Result Fields × Client R)
          → Keeps old r
          → lookup k (keep_on_error R cfg old r).0 ≡ lookup k old
      kept old (ok new, c) h = h
      kept old (err e, c) h = refl

  -- Whatever the requests bring, a run of the loop over items of which none is about the service
  -- `k` changes nothing that the dict holds for `k`.
  pub guardrails_loop-lookup :
      (token : Json) (items : Items) (old : Fields) (c : Client R)
      → AllItems (NotAbout k) items
      → lookup k (guardrails_loop R cfg token items old c).0 ≡ lookup k old
  unfolding guardrails_loop
  guardrails_loop-lookup token nil old c h = refl
  guardrails_loop-lookup token (cons it rest) old c (other, h) =
      elim (Result-cases (instance_names it)) [
        | inl ((id, svc), p) ↦
            let (old', c') = guardrails_instance R cfg token (id, svc) old c in
            rw (p, guardrails_loop)
              (guardrails_loop-lookup token rest old' c' h
                ∙ guardrails_instance-lookup token id svc old c λ e. other id (rw e at p))
        | inr (e, p) ↦ rw (p, guardrails_loop)
      ]
