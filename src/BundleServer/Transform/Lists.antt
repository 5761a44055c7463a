-- ===== src/BundleServer/Transform/Lists.antt =====
-- The rules and the authorizations that the bundle carries, in order.
use mathlib.Core.Path.{subst}
use noumena_mcp_gateway_poc.Base.{
  sym, ap, Bool-cases, not, ◌&&◌, ◌≢◌, ◌↔◌, inl, inr, ◌≡◌, ◌∙◌, true, false, arith,
}
use noumena_mcp_gateway_poc.Base.Exec.{ok}
use noumena_mcp_gateway_poc.Base.Result.{Result-cases, >>=-eq-ok, ok-injective}
use noumena_mcp_gateway_poc.Base.Json.{
  get, item, lookup, is_text, null, str, Json, Items, nil, cons, append,
}
use noumena_mcp_gateway_poc.Base.Json.Laws.{is_text_iff, concat, concat-nil, concat-append, Items2}
use noumena_mcp_gateway_poc.BundleServer.Transform.{
  transform_rule, transform_rules, is_active, authorization, names_service, authorizations,
}

abbrev pub Rewritten : Json → Json → Type 0
Rewritten rule rule' = transform_rule rule ≡ ok rule'

transform_rules_from :
    (access_rules rules : Items) {out : Items}
    → transform_rules access_rules rules ≡ ok out
    → (rules' : Items) × (out ≡ concat access_rules rules') × Items2 Rewritten rules rules'
unfolding transform_rules
transform_rules_from access_rules nil h = (nil, cc (concat-nil access_rules), tt)
transform_rules_from access_rules (cons rule rest) h =
    let (rule', p, h') = >>=-eq-ok (transform_rule rule) _ h in
    let (rules', e, q) = transform_rules_from (append access_rules rule') rest h' in
    (cons rule' rules', e ∙ concat-append access_rules rule' rules', (p, q))

-- If the rules can be rewritten, every rule of the store stands in the result, rewritten, at its
-- place, and no other rule does.
pub transform_rules_lem :
    (rules : Items) {out : Items} → transform_rules nil rules ≡ ok out → Items2 Rewritten rules out
transform_rules_lem rules h =
    let (rules', e, p) = transform_rules_from nil rules h in unfold concat in rw e p

-- The two values that the test reads.
active_of_values :
    (state svc : Json)
    → (is_text state "authorized" && not (is_text svc "") ≡ true)
      ↔ ((state ≡ str "authorized") × (svc ≢ str ""))
active_of_values state svc = ground (arith, is_text_iff state "authorized", is_text_iff svc "")

-- An item counts as active exactly if its state is the text `authorized` and the name of its
-- service, empty where it has none, is not the empty text.
pub is_active_iff :
    (a : Json)
    → (is_active a ≡ ok true) ↔ (
        (get a "@state" null ≡ ok (str "authorized"))
        × (svc : Json) × (get a "serviceName" (str "") ≡ ok svc)
        × (svc ≢ str ""))
unfolding is_active names_service
is_active_iff a = (
  λ h.
      let (state, p, h') = >>=-eq-ok (get a "@state" null) _ h in
      elim (Bool-cases (is_text state "authorized")) [
        | inl t ↦
            let (svc, q, h'') = >>=-eq-ok (get a "serviceName" (str "")) _ (rw t at h') in
            (
              p ∙ ap ok ((is_text_iff state "authorized").0 t),
              svc,
              q,
              λ e. ground (arith, h'', is_text_iff svc ""),
            )
        | inr f ↦ let refused = rw f at h' in cc
      ],
  λ v.
      let (q, svc, r, n) = v in
      rw (q, r)
        (ground (arith, n, is_text_iff (str "authorized") "authorized", is_text_iff svc "")),
)

-- The state of the item is the text `authorized`, and it names a service.
abbrev pub IsAuthorized : Json → Type 0
IsAuthorized a =
    (get a "@state" null ≡ ok (str "authorized"))
    × (svc : Json) × (get a "serviceName" (str "") ≡ ok svc)
    × (svc ≢ str "")

-- The entry has the item's id and its four texts, each empty where the item has none.
pub record Describes (a entry : Json) : Type 0 where
  pub has_id : get entry "instanceId" null ≡ item a "@id"
  pub has_service : get entry "serviceName" null ≡ get a "serviceName" (str "")
  pub has_tool : get entry "toolName" null ≡ get a "toolName" (str "")
  pub has_agent : get entry "agentIdentity" null ≡ get a "agentIdentity" (str "")
  pub has_scope : get entry "scope" null ≡ get a "scope" (str "")

authorization-Describes : (a : Json) {entry : Json} → authorization a ≡ ok entry → Describes a entry
unfolding authorization
authorization-Describes a h =
    let (id, p, h₁) = >>=-eq-ok (item a "@id") _ h in
    let (svc, q, h₂) = >>=-eq-ok (get a "serviceName" (str "")) _ h₁ in
    let (tool, r, h₃) = >>=-eq-ok (get a "toolName" (str "")) _ h₂ in
    let (agent, t, h₄) = >>=-eq-ok (get a "agentIdentity" (str "")) _ h₃ in
    let (scope, u, h₅) = >>=-eq-ok (get a "scope" (str "")) _ h₄ in
    rw (← ok-injective h₅) (record {
      has_id = unfold get lookup in sym p;
      has_service = unfold get lookup in sym q;
      has_tool = unfold get lookup in sym r;
      has_agent = unfold get lookup in sym t;
      has_scope = unfold get lookup in sym u;
    })

-- The entries of the items that are authorized, in order, and no others.
pub data Lists : Items → Items → Type 0 where
  none_left : Lists nil nil
  passed_over :
      {a : Json} {rest out : Items} → ¬ IsAuthorized a → Lists rest out → Lists (cons a rest) out
  listed :
      {a entry : Json} {rest out : Items}
      → IsAuthorized a
      → Describes a entry
      → Lists rest out
      → Lists (cons a rest) (cons entry out)

-- If the comprehension raises nothing, it gives, in order, one entry for each item whose state is
-- `authorized` and that names a service, with the item's id, service, tool, agent and scope, and
-- nothing for the others.
pub authorizations_lem :
    (items : Items) {out : Items} → authorizations items ≡ ok out → Lists items out
unfolding authorizations
authorizations_lem nil h = subst (Lists nil) (ok-injective h) none_left
authorizations_lem (cons a rest) h = elim (Result-cases (is_active a)) [
  | inl (true, p) ↦
      let (entry, q, h') = >>=-eq-ok (authorization a) _ (rw p at h) in
      let (others, r, e) = >>=-eq-ok (authorizations rest) _ h' in
      subst (Lists (cons a rest)) (ok-injective e)
        (listed ((is_active_iff a).0 p) (authorization-Describes a q) (authorizations_lem rest r))
  | inl (false, p) ↦
      passed_over (λ v. let same = sym p ∙ (is_active_iff a).1 v in absurd cc)
        (authorizations_lem rest (rw p at h))
  | inr (e, p) ↦ let refused = rw p at h in cc
]
