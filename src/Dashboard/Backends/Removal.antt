-- ===== src/Dashboard/Backends/Removal.antt =====
-- What removing a backend does to the list of backends.
use noumena_mcp_gateway_poc.Base.{
  ◌⊎◌, Option-cases, inl, inr, ◌≡◌, refl, sym, ◌∙◌, String, ◌==◌, eq_iff, Option, none, some, arith,
  if◌then◌else◌,
}
use noumena_mcp_gateway_poc.Base.Exec.{ok}
use noumena_mcp_gateway_poc.Base.Result.{>>=-eq-ok, ok-injective}
use noumena_mcp_gateway_poc.Base.Json.{Json, obj, Fields, end, field, get, insert, lookup, entries}
use noumena_mcp_gateway_poc.Base.Json.Laws.{lookup-insert}
use noumena_mcp_gateway_poc.Dashboard.Backends.{
  Gateway, read_mcp_config, erase, without_backend, remove_backend_from_config, backends, urls,
  write_and_restart,
}
use noumena_mcp_gateway_poc.Dashboard.Backends.Changes.{
  url_of, servers_of, lookup-urls, entries-eq-ok,
}

lookup-erase :
    (k j : String) (d : Fields) → lookup j (erase k d) ≡ (if k == j then none else lookup j d)
unfolding lookup erase
lookup-erase k j end = ground arith
lookup-erase k j (field i v d) =
    ground (arith, lookup-erase k j d, eq_iff i k, eq_iff i j, eq_iff k j)

-- Nothing is written where the service is not there; else the servers are those without it.
without_backend-servers :
    (service : String) (config : Json) {servers : Fields} {result : Option Json}
    → servers_of config ≡ ok servers
    → without_backend config service ≡ ok result
    → ((result ≡ none) × (lookup service servers ≡ none))
      ⊎ ((config' : Json) × (result ≡ some config')
          × (servers_of config' ≡ ok (erase service servers)))
unfolding without_backend get entries
without_backend-servers service (obj d) {servers} h k =
    elim (Option-cases (lookup "mcpServers" d)) [
      | inl e ↦
          let same : end ≡ servers = ok-injective (rw e at h) in
          inl (ground (arith, e, k), rw (← same) (unfold lookup in refl))
      | inr (v, e) ↦
          let is_dict : v ≡ obj servers = entries-eq-ok v (rw e at h) in
          elim (Option-cases (lookup service servers)) [
            | inl q ↦ inl (ground (arith, e, is_dict, q, k), q)
            | inr (w, q) ↦
                let without = obj (insert "mcpServers" (obj (erase service servers)) d) in
                let found =
                  lookup-insert "mcpServers" "mcpServers" (obj (erase service servers)) d in
                inr (without, ground (arith, e, is_dict, q, k), rw found)
          ]
    ]
without_backend-servers service _ h k = absurd cc

backends-urls :
    (g : Gateway) {servers out : Fields}
    → servers_of (read_mcp_config g.file) ≡ ok servers
    → backends g.file ≡ ok out
    → urls servers ≡ ok out
unfolding backends
backends-urls g {servers} h listed =
    let (d, p, e) = >>=-eq-ok (get (read_mcp_config g.file) "mcpServers" (obj end)) _ listed in
    let (d', q, f) = >>=-eq-ok (entries d) _ e in
    let same : d' ≡ servers = ok-injective (sym q ∙ (rw p at h)) in rw same at f

-- If the configuration's servers are a dict and a backend has been removed, a listing that succeeds
-- has none under its service and is as before under every other name.
pub backends-remove :
    (service k : String) (g : Gateway) {g' : Gateway} {servers out : Fields}
    → servers_of (read_mcp_config g.file) ≡ ok servers
    → remove_backend_from_config service g ≡ ok g'
    → backends g'.file ≡ ok out
    → lookup k out ≡ (if service == k then none else url_of (lookup k servers))
unfolding remove_backend_from_config write_and_restart read_mcp_config
backends-remove service k g {g'} {servers} h gone listed =
    let (result, p, e) = >>=-eq-ok (without_backend (read_mcp_config g.file) service) _ gone in
    elim (without_backend-servers service (read_mcp_config g.file) h p) [
      | inl (r, s) ↦
          let same : g ≡ g' = ok-injective (rw r at e) in
          let urls_out = backends-urls g' (rw same at h) listed in
          ground (arith, s, eq_iff service k, lookup-urls k servers urls_out)
      | inr (config', r, s) ↦
          let same : write_and_restart config' g ≡ g' = ok-injective (rw r at e) in
          let left : servers_of (read_mcp_config g'.file) ≡ ok (erase service servers) =
            rw (← same) s in
          ground (
            arith,
            lookup-urls k (erase service servers) (backends-urls g' left listed),
            lookup-erase service k servers,
          )
    ]
