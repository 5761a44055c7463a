-- ===== src/Dashboard/Backends/Changes.antt =====
-- What a change of the configuration does to the list of backends.
use noumena_mcp_gateway_poc.Base.{
  sym, ◌∙◌, Option-cases, inl, inr, ◌≡◌, refl, String, ◌==◌, Option, none, some, arith,
  if◌then◌else◌,
}
use noumena_mcp_gateway_poc.Base.Exec.{Result, ok, err}
use noumena_mcp_gateway_poc.Base.Result.{◌>>=◌, >>=-eq-ok, ok-injective}
use noumena_mcp_gateway_poc.Base.Json.{
  Json, str, obj, Fields, end, field, get, insert, lookup, entries,
}
use noumena_mcp_gateway_poc.Base.Json.Laws.{lookup-insert}
use noumena_mcp_gateway_poc.Dashboard.Backends.{
  unreadable, Gateway, read_mcp_config, add_backend_to_config, backends, urls, with_backend,
  write_and_restart,
}

abbrev pub url_of : Option Json → Option Json
url_of none = none
url_of (some entry) = elim (get entry "url" (str "")) [ ok url ↦ some url | err _ ↦ none ]

pub lookup-urls :
    (k : String) (d : Fields) {out : Fields} → urls d ≡ ok out → lookup k out ≡ url_of (lookup k d)
unfolding urls lookup
lookup-urls k end h = cc
lookup-urls k (field j entry d) h =
    let (url, p, h') = >>=-eq-ok (get entry "url" (str "")) _ h in
    let (others, q, e) = >>=-eq-ok (urls d) _ h' in ground (arith, p, e, lookup-urls k d q)

-- The dict of servers of a configuration.
abbrev pub servers_of : Json → Result Fields
servers_of config = do servers ← get config "mcpServers" (obj end); entries servers

pub entries-eq-ok : (v : Json) {d : Fields} → entries v ≡ ok d → v ≡ obj d
unfolding entries
entries-eq-ok (obj d) h = cc
entries-eq-ok _ h = cc

servers-with_backend :
    (service url : String) (config : Json) {servers : Fields} {config' : Json}
    → servers_of config ≡ ok servers
    → with_backend config service url ≡ ok config'
    → servers_of config' ≡ ok (insert service (obj (field "url" (str url) end)) servers)
unfolding with_backend get entries
servers-with_backend service url (obj d) {servers} h k =
    let entry = obj (field "url" (str url) end) in
    elim (Option-cases (lookup "mcpServers" d)) [
      | inl e ↦
          ground
            (arith, e, lookup-insert "mcpServers" "mcpServers" (obj (insert service entry end)) d)
      | inr (v, e) ↦
          let is_dict : v ≡ obj servers = entries-eq-ok v (unfold entries in ground (arith, e)) in
          ground (
            arith,
            e,
            is_dict,
            lookup-insert "mcpServers" "mcpServers" (obj (insert service entry servers)) d,
          )
    ]
servers-with_backend service url _ h k = cc

servers-add :
    (service url : String) (g : Gateway) {g' : Gateway} {servers : Fields}
    → servers_of (read_mcp_config g.file) ≡ ok servers
    → add_backend_to_config service url g ≡ ok g'
    → servers_of (read_mcp_config g'.file)
      ≡ ok (insert service (obj (field "url" (str url) end)) servers)
unfolding add_backend_to_config write_and_restart read_mcp_config
servers-add service url g h k =
    let (config, p, e) = >>=-eq-ok (with_backend (read_mcp_config g.file) service url) _ k in
    let added = servers-with_backend service url (read_mcp_config g.file) h p in
    ground (arith, e, added)

get-url : (url : String) → get (obj (field "url" (str url) end)) "url" (str "") ≡ ok (str url)
unfolding get lookup
get-url url = refl

-- If the configuration's servers are a dict, a backend has been added and the listing succeeds, the
-- listing has the backend's URL under its service and is as before under every other name.
pub backends-add :
    (service url k : String) (g : Gateway) {g' : Gateway} {servers out : Fields}
    → servers_of (read_mcp_config g.file) ≡ ok servers
    → add_backend_to_config service url g ≡ ok g'
    → backends g'.file ≡ ok out
    → lookup k out ≡ (if service == k then some (str url) else url_of (lookup k servers))
unfolding backends
backends-add service url k g {g'} {servers} h added listed =
    let found = servers-add service url g h added in
    let (d, p, e) = >>=-eq-ok (get (read_mcp_config g'.file) "mcpServers" (obj end)) _ listed in
    let (d', p', e') = >>=-eq-ok (entries d) _ e in
    let same : d' ≡ insert service (obj (field "url" (str url) end)) servers =
      ok-injective (sym p' ∙ (rw p at found)) in
    ground (
      arith,
      get-url url,
      lookup-urls k (insert service (obj (field "url" (str url) end)) servers) (rw same at e'),
      lookup-insert service k (obj (field "url" (str url) end)) servers,
    )

no_servers_in : (g : Gateway) → g.file ≡ unreadable → servers_of (read_mcp_config g.file) ≡ ok end
unfolding read_mcp_config get lookup entries
no_servers_in g h = rw h

-- If the file cannot be read and a backend has been added, a listing that succeeds holds the added
-- service and no other.
pub backends-add_unreadable :
    (service url k : String) (g : Gateway) {g' : Gateway} {out : Fields}
    → g.file ≡ unreadable
    → add_backend_to_config service url g ≡ ok g'
    → backends g'.file ≡ ok out
    → lookup k out ≡ (if service == k then some (str url) else none)
backends-add_unreadable service url k g h added listed =
    backends-add service url k g (no_servers_in g h) added listed ∙ (unfold lookup in refl)
