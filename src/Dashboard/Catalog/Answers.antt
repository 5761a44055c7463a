-- ===== src/Dashboard/Catalog/Answers.antt =====
-- The answers of the handlers.
use noumena_mcp_gateway_poc.Base.{◌⊎◌, inl, inr, Bool-cases, leb, refl, ◌<◌, ◌≡◌, ◌↔◌, ltb, arith}
use noumena_mcp_gateway_poc.Base.Exec.{ok}
use noumena_mcp_gateway_poc.Base.Json.{null, bool, get}
use noumena_mcp_gateway_poc.Base.World.{Response}
use noumena_mcp_gateway_poc.Dashboard.State.{acknowledge, send_json}

-- An answer has an error status exactly if NPL's response has one; its status is the response's,
-- or 200 for one below 400; and its `ok` says whether it is below 400.
pub acknowledge_lem :
    (resp : Response)
    → (((acknowledge resp).status < 400) ↔ (resp.status_code < 400))
      × (((acknowledge resp).status ≡ resp.status_code)
          ⊎ (((acknowledge resp).status ≡ 200) × (resp.status_code < 400)))
      × (get (acknowledge resp).body "ok" null ≡ ok (bool (ltb (acknowledge resp).status 400)))
unfolding acknowledge send_json get
acknowledge_lem resp = elim (Bool-cases (leb 400 resp.status_code)) [
  | inl e ↦ rw e (ground (arith, e), inl refl, ground (arith, e))
  | inr e ↦ rw e (ground (arith, e), inr (refl, ground (arith, e)), ground (arith, e))
]
