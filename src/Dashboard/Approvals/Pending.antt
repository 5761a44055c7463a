-- ===== src/Dashboard/Approvals/Pending.antt =====
-- The labels of the pending requests of `handle_get_approvals` of dashboard/server.py.
use noumena_mcp_gateway_poc.Base.{◌≡◌, refl, ◌⊎◌, inl, inr, String, arith}
use noumena_mcp_gateway_poc.Base.Exec.{Result, ok, err}
use noumena_mcp_gateway_poc.Base.Json.{
  Json, null, str, obj, Items, nil, cons, Fields, end, field, get, insert, set_item, append,
}
use noumena_mcp_gateway_poc.Base.Json.Laws.{lookup-insert}
use noumena_mcp_gateway_poc.Base.World.{Runtime}
use noumena_mcp_gateway_poc.Dashboard.State.{Dash, Config}
use noumena_mcp_gateway_poc.Dashboard.Approvals.{labelled, add_pending, asked_pending, pending_of}

abbrev pub All : (Json → Type 0) → Items → Type 0
All P nil = Unit
All P (cons x xs) = P x × All P xs

All-append : (P : Json → Type 0) (xs : Items) {x : Json} → All P xs → P x → All P (append xs x)
unfolding append
All-append P nil all px = (px, tt)
All-append P (cons y xs) (py, all) px = (py, All-append P xs all px)

-- The dict has the entry.
abbrev pub IsEntry : String → Json → Fields → Type 0
IsEntry k v end = ⊥
IsEntry k v (field j w d) = ((k ≡ j) × (v ≡ w)) ⊎ IsEntry k v d

-- The request names a service and an instance, which are an entry of the dict.
abbrev pub IsFrom : Fields → Json → Type 0
IsFrom instances req =
    (svc : String) × (id : Json) × IsEntry svc id instances
    × (get req "_serviceName" null ≡ ok (str svc))
    × (get req "_instanceId" null ≡ ok id)

module _ (R : Runtime) (cfg : Config) where
  labelled-names :
      (svc : String) (id req : Json) {req' : Json}
      → labelled R cfg svc id req ≡ ok req'
      → (get req' "_serviceName" null ≡ ok (str svc)) × (get req' "_instanceId" null ≡ ok id)
  unfolding labelled set_item get
  labelled-names svc id (obj d) h =
      let with_name = insert "_serviceName" (str svc) d in
      let own = lookup-insert "_serviceName" "_serviceName" (str svc) d in
      let kept = lookup-insert "_instanceId" "_serviceName" id with_name in
      let id_own = lookup-insert "_instanceId" "_instanceId" id with_name in
      (ground (arith, h, own, kept), ground (arith, h, id_own))
  labelled-names svc id _ h = absurd cc

  -- One round of the loop: the request is added, or it ends the loop.
  round-IsFrom :
      (instances : Fields) (svc : String) (id req : Json) (rest pending : Items) (r : Result Json)
      → labelled R cfg svc id req ≡ r
      → IsEntry svc id instances
      → All (IsFrom instances) pending
      → ((pending' : Items)
          → All (IsFrom instances) pending'
          → All (IsFrom instances) (add_pending R cfg svc id rest pending'))
      → All (IsFrom instances) (elim r [
        | err e ↦ pending
        | ok req' ↦ add_pending R cfg svc id rest (append pending req')
      ])
  round-IsFrom instances svc id req rest pending (err e) p here all others = all
  round-IsFrom instances svc id req rest pending (ok req') p here all others =
      let (a, b) = labelled-names svc id req p in
      others (append pending req') (All-append (IsFrom instances) pending all (svc, id, here, a, b))

  add_pending-IsFrom :
      (instances : Fields) (svc : String) (id : Json) (reqs pending : Items)
      → IsEntry svc id instances
      → All (IsFrom instances) pending
      → All (IsFrom instances) (add_pending R cfg svc id reqs pending)
  unfolding add_pending
  add_pending-IsFrom instances svc id nil pending here all = all
  add_pending-IsFrom instances svc id (cons req rest) pending here all =
      round-IsFrom instances svc id req rest pending (labelled R cfg svc id req) refl here all
        (λ pending' all'. add_pending-IsFrom instances svc id rest pending' here all')

  -- The instances that are still to be asked are entries of all.
  abbrev AmongAll : Fields → Fields → Type 0
  AmongAll all rest = (svc : String) (id : Json) → IsEntry svc id rest → IsEntry svc id all

  pending_of-among :
      (all : Fields) (token : Json) (rest : Fields) (pending : Items) (d : Dash R)
      → AmongAll all rest
      → All (IsFrom all) pending
      → All (IsFrom all) (pending_of R cfg token rest pending d).0
  unfolding pending_of
  pending_of-among all token end pending d among shown = shown
  pending_of-among all token (field svc id rest) pending d among shown =
      let (reqs, d') = asked_pending R cfg token id d in
      pending_of-among all token rest (add_pending R cfg svc id reqs pending) d'
        (λ svc' id' e. among svc' id' (inr e))
        (add_pending-IsFrom all svc id reqs pending (among svc id (inl (refl, refl))) shown)

  -- Whatever the instances answer, each pending request in the list has the fields `_serviceName`
  -- and `_instanceId`, and they are an entry of the dict of instances.
  pub pending_of-IsFrom :
      (token : Json) (instances : Fields) (d : Dash R)
      → All (IsFrom instances) (pending_of R cfg token instances nil d).0
  pending_of-IsFrom token instances d =
      pending_of-among instances token instances nil d (λ svc id e. e) tt
