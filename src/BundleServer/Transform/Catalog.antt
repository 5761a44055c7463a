-- ===== src/BundleServer/Transform/Catalog.antt =====
-- The catalog that the bundle carries, entry by entry.
use noumena_mcp_gateway_poc.Base.{
  ap, sym, ◌∙◌, ◌==◌, Bool-cases, inl, inr, String, eq_iff, ◌≡◌, refl, false, Option, none, some,
  is_some, arith, if◌then◌else◌,
}
use noumena_mcp_gateway_poc.Base.Exec.{ok, err}
use noumena_mcp_gateway_poc.Base.Result.{Result-cases, >>=-eq-ok, ok-injective}
use noumena_mcp_gateway_poc.Base.Json.{
  Json, null, bool, obj, Fields, end, field, lookup, insert, get, entries,
}
use noumena_mcp_gateway_poc.Base.Json.Laws.{lookup-insert, NodupKeys}
use noumena_mcp_gateway_poc.BundleServer.Transform.{strip_tools, catalog_entry, transform_catalog}

lookup-strip_tools :
    (k : String) (tools d : Fields)
    → lookup k (strip_tools tools d)
      ≡ (if is_some (lookup k d) then some (obj end) else lookup k tools)
unfolding strip_tools lookup
lookup-strip_tools k tools end = refl
lookup-strip_tools k tools (field j v d) =
    ground
      (arith, lookup-strip_tools k (insert j (obj end) tools) d, lookup-insert j k (obj end) tools)

-- The entry of the bundle is enabled just as the store says, disabled if the store says nothing, and
-- lists the store's tools and no other, each with an empty dict.
abbrev pub Carries : Json → Json → Type 0
Carries entry entry' =
    (get entry' "enabled" null ≡ get entry "enabled" (bool false))
    × (tools : Fields) × (listed : Fields) × (get entry "tools" (obj end) ≡ ok (obj tools))
    × (get entry' "tools" null ≡ ok (obj listed))
    × ((k : String) → lookup k listed ≡ (if is_some (lookup k tools) then some (obj end) else none))

entries-eq-ok : (v : Json) {d : Fields} → entries v ≡ ok d → v ≡ obj d
unfolding entries
entries-eq-ok (obj d) h = cc
entries-eq-ok _ h = cc

catalog_entry-Carries :
    (entry : Json) {entry' : Json} → catalog_entry entry ≡ ok entry' → Carries entry entry'
unfolding catalog_entry
catalog_entry-Carries entry h =
    let (tools, p, h₁) = >>=-eq-ok (get entry "tools" (obj end)) _ h in
    let (d, q, h₂) = >>=-eq-ok (entries tools) _ h₁ in
    let (enabled, r, h₃) = >>=-eq-ok (get entry "enabled" (bool false)) _ h₂ in
    rw (← ok-injective h₃) (
      unfold get lookup in sym r,
      d,
      strip_tools end d,
      p ∙ ap ok (entries-eq-ok tools q),
      unfold get lookup in refl,
      λ k. unfold lookup in lookup-strip_tools k end d,
    )

-- The entries of a service in the store and in the bundle.
abbrev pub Carried : Option Json → Option Json → Type 0
Carried none none = Unit
Carried (some entry) (some entry') = Carries entry entry'
Carried _ _ = ⊥

abbrev rewritten : Option Json → Option Json → Option Json
rewritten none old = old
rewritten (some entry) old = elim (catalog_entry entry) [ ok entry' ↦ some entry' | err _ ↦ none ]

lookup-transform_catalog_from :
    (k : String) (catalog d : Fields) {out : Fields}
    → NodupKeys d
    → transform_catalog catalog d ≡ ok out
    → lookup k out ≡ rewritten (lookup k d) (lookup k catalog)
unfolding transform_catalog lookup
lookup-transform_catalog_from k catalog end u h = cc
lookup-transform_catalog_from k catalog (field j entry d) (fresh, u) h =
    elim (Result-cases (catalog_entry entry)) [
      | inl (entry', p) ↦
          let rest = lookup-transform_catalog_from k (insert j entry' catalog) d u (rw p at h) in
          ground (arith, p, fresh, rest, eq_iff j k, lookup-insert j k entry' catalog)
      | inr (e, p) ↦ let refused = rw p at h in cc
    ]

rewritten-Carried :
    (before after : Option Json)
    → ((entry : Json) → before ≡ some entry → (entry' : Json) × (catalog_entry entry ≡ ok entry'))
    → after ≡ rewritten before none
    → Carried before after
rewritten-Carried none after c h = rw h tt
rewritten-Carried (some entry) after c h =
    let (entry', p) = c entry refl in
    let q : after ≡ some entry' = h ∙ rw (rewritten, p) refl in rw q (catalog_entry-Carries entry p)

-- Each entry can be rewritten if the catalog can.
entry_of_catalog :
    (k : String) (catalog d : Fields) {out : Fields} {entry : Json}
    → transform_catalog catalog d ≡ ok out
    → lookup k d ≡ some entry
    → (entry' : Json) × (catalog_entry entry ≡ ok entry')
unfolding transform_catalog lookup
entry_of_catalog k catalog end h e = cc
entry_of_catalog k catalog (field j v d) {out} {entry} h e =
    let (v', p, h') = >>=-eq-ok (catalog_entry v) _ h in
    elim (Bool-cases (j == k)) [
      | inl q ↦ let same : v ≡ entry = ground (arith, q, e) in (v', ap catalog_entry (sym same) ∙ p)
      | inr q ↦ entry_of_catalog k (insert j v' catalog) d h' (ground (arith, q, e))
    ]

-- If the catalog of the store, whose keys are distinct, can be rewritten, the result holds a
-- service exactly if the store's catalog does; it is enabled just as the store says, disabled if the
-- store says nothing, and lists the store's tools and no other, each with an empty dict.
pub lookup-transform_catalog :
    (k : String) (d : Fields) {out : Fields}
    → NodupKeys d
    → transform_catalog end d ≡ ok out
    → Carried (lookup k d) (lookup k out)
lookup-transform_catalog k d {out} u h =
    rewritten-Carried (lookup k d) (lookup k out) (λ entry e. entry_of_catalog k end d h e)
      (unfold lookup in lookup-transform_catalog_from k end d u h)
