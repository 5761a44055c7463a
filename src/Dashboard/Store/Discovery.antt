-- ===== src/Dashboard/Store/Discovery.antt =====
-- The store's id is found once.
use noumena_mcp_gateway_poc.Base.{Bool-cases, inl, inr, ◌≡◌, true, arith}
use noumena_mcp_gateway_poc.Base.Exec.{Exec-cases, bind-eq-ok, ok}
use noumena_mcp_gateway_poc.Base.Json.{Json, null, arr, nil, obj, field, end, get, item, truthy}
use noumena_mcp_gateway_poc.Base.World.{Runtime}
use noumena_mcp_gateway_poc.Dashboard.State.{Dash, Config, get_admin_token, raise_for_status}
use noumena_mcp_gateway_poc.Dashboard.Store.{
  get_store_id, ensure_store_id, create_store, npl_get_with, npl_post_with, discover_store,
  found_store, set_store_id,
}

module _ (R : Runtime) (cfg : Config) where
  -- The search for the store never raises.
  get_store_id_total :
      (d : Dash R) → (id : Json) × (d' : Dash R) × (get_store_id R cfg d ≡ (ok id, d'))
  unfolding get_store_id
  get_store_id_total d = elim (Bool-cases (truthy d.store_id)) [
    | inl t ↦ (d.store_id, d, rw t)
    | inr f ↦ elim (Exec-cases (discover_store R cfg d)) [
      | inl (id, d', p) ↦ (id, d', rw (f, p))
      | inr (e, d', p) ↦ (null, d', rw (f, p))
    ]
  ]

  store_id-set_store_id :
      (value : Json) (d : Dash R) {id : Json} {d' : Dash R}
      → set_store_id R cfg value d ≡ (ok id, d')
      → d'.store_id ≡ id
  unfolding set_store_id
  store_id-set_store_id value d h = ground arith

  store_id-found_store :
      (items : Json) (d : Dash R) {id : Json} {d' : Dash R}
      → found_store R cfg items d ≡ (ok id, d')
      → truthy id ≡ true
      → d'.store_id ≡ id
  unfolding found_store set_store_id truthy
  store_id-found_store items d h t = ground arith

  store_id-discover_store :
      (d : Dash R) {id : Json} {d' : Dash R}
      → discover_store R cfg d ≡ (ok id, d')
      → truthy id ≡ true
      → d'.store_id ≡ id
  unfolding discover_store
  store_id-discover_store d h t =
      let (token, d₁, _, h₁) = bind-eq-ok (get_admin_token R cfg d) _ h in
      let (resp, d₂, _, h₂) =
        bind-eq-ok (npl_get_with R cfg token "/npl/store/GatewayStore/" d₁) _ h₁ in
      let (_, d₃, _, h₃) = bind-eq-ok (raise_for_status resp d₂) _ h₂ in
      let (body, d₄, _, h₄) = bind-eq-ok (resp.json, d₃) _ h₃ in
      let (items, d₅, _, h₅) = bind-eq-ok (get body "items" (arr nil), d₄) _ h₄ in
      store_id-found_store items d₅ h₅ t

  store_id-get_store_id :
      (d : Dash R) {id : Json} {d' : Dash R}
      → get_store_id R cfg d ≡ (ok id, d')
      → truthy id ≡ true
      → d'.store_id ≡ id
  unfolding get_store_id
  store_id-get_store_id d h t = elim (Bool-cases (truthy d.store_id)) [
    | inl known ↦ ground (arith, known)
    | inr new ↦ elim (Exec-cases (discover_store R cfg d)) [
      | inl (id', d₁, p) ↦ ground (arith, new, p, store_id-discover_store d p)
      | inr (e, d₁, p) ↦ absurd (unfold truthy in ground (arith, new, p))
    ]
  ]

  store_id-create_store :
      (d : Dash R) {id : Json} {d' : Dash R} → create_store R cfg d ≡ (ok id, d') → d'.store_id ≡ id
  unfolding create_store
  store_id-create_store d h =
      let (token, d₁, _, h₁) = bind-eq-ok (get_admin_token R cfg d) _ h in
      let (resp, d₂, _, h₂) =
        bind-eq-ok
          (npl_post_with R cfg token "/npl/store/GatewayStore/"
            (obj (field "@parties" (obj end) end)) d₁)
          _ h₁ in
      let (_, d₃, _, h₃) = bind-eq-ok (raise_for_status resp d₂) _ h₂ in
      let (body, d₄, _, h₄) = bind-eq-ok (resp.json, d₃) _ h₃ in
      let (id', d₅, _, h₅) = bind-eq-ok (item body "@id", d₄) _ h₄ in
      store_id-set_store_id id' d₅ h₅

  store_id-ensure_store_id :
      (d : Dash R) {id : Json} {d' : Dash R}
      → ensure_store_id R cfg d ≡ (ok id, d')
      → truthy id ≡ true
      → d'.store_id ≡ id
  unfolding ensure_store_id
  store_id-ensure_store_id d h t =
      let (sid, d₁, p, h₁) = bind-eq-ok (get_store_id R cfg d) _ h in
      elim (Bool-cases (truthy sid)) [
        | inl known ↦ ground (arith, known, store_id-get_store_id d p known)
        | inr new ↦ store_id-create_store d₁ (rw new at h₁)
      ]

  -- After a call that returned an id that is not empty, whether it found or created the store, the
  -- next call returns the same id with no request and no change of state.
  pub ensure_store_id_again :
      (d : Dash R) {id : Json} {d' : Dash R}
      → ensure_store_id R cfg d ≡ (ok id, d')
      → truthy id ≡ true
      → ensure_store_id R cfg d' ≡ (ok id, d')
  ensure_store_id_again d h t =
      let same = store_id-ensure_store_id d h t in
      unfold ensure_store_id get_store_id in ground (arith, same)
