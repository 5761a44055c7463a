-- ===== src/Dashboard/Backends.antt =====
-- The backends that dashboard/server.py keeps in the AI gateway's configuration file.
pub mod Changes
pub mod Removal
use noumena_mcp_gateway_poc.Base.{
  ◌==◌, ℕ, ◌+◌, String, Option, none, some, List, [], ◌∷◌, is_some, if◌then◌else◌,
}
use noumena_mcp_gateway_poc.Base.Exec.{Result, ok, err, type_error}
use noumena_mcp_gateway_poc.Base.Result.{◌>>=◌}
use noumena_mcp_gateway_poc.Base.Json.{
  Json, str, obj, Fields, end, field, get, insert, lookup, entries,
}

-- What reading the file comes to: it is not there, it cannot be read or parsed, or a value.
pub data File : Type 0 where
  missing : File
  unreadable : File
  holds : Json → File

-- The file, and how often a restart of `aigw-run` was asked for.
pub record Gateway : Type 0 where
  pub file : File
  pub restarts : ℕ

abbrev no_servers : Json
no_servers = obj (field "mcpServers" (obj end) end)

unfoldable pub read_mcp_config : File → Json
read_mcp_config missing = no_servers
read_mcp_config unreadable = no_servers
read_mcp_config (holds config) = config

-- The file is replaced at once, and a restart is asked for.
unfoldable pub write_and_restart : Json → Gateway → Gateway
write_and_restart config g = record { file = holds config; restarts = g.restarts + 1 }

-- `servers[service] = entry` of a value that should be a dict.
set_entry : Json → String → Json → Result Json
set_entry (obj d) k v = ok (obj (insert k v d))
set_entry _ k v = err type_error

abbrev or_empty : Option Json → Json
or_empty none = obj end
or_empty (some v) = v

-- `config.setdefault("mcpServers", {})[service] = {"url": url}`
unfoldable pub with_backend : Json → String → String → Result Json
unfolding set_entry
with_backend (obj config) service url = do
  servers ←
      set_entry (or_empty (lookup "mcpServers" config)) service (obj (field "url" (str url) end))
  ok (obj (insert "mcpServers" servers config))
with_backend _ service url = err type_error

unfoldable pub add_backend_to_config : String → String → Gateway → Result Gateway
add_backend_to_config service url g = do
  config ← with_backend (read_mcp_config g.file) service url
  ok (write_and_restart config g)

-- `del d[k]`
unfoldable pub erase : String → Fields → Fields
erase k end = end
erase k (field j v d) = if j == k then erase k d else field j v (erase k d)

-- The configuration without the service, or nothing if it is not there. A list or a text in the
-- place of the dict of servers is not looked into.
unfoldable pub without_backend : Json → String → Result (Option Json)
unfolding erase
without_backend (obj config) service = elim (or_empty (lookup "mcpServers" config)) [
  | obj servers ↦ ok (
      if is_some (lookup service servers)
      then some (obj (insert "mcpServers" (obj (erase service servers)) config))
      else none)
  | _ ↦ err type_error
]
without_backend _ service = err type_error

abbrev removed : Gateway → Option Json → Gateway
removed g none = g
removed g (some config) = write_and_restart config g

unfoldable pub remove_backend_from_config : String → Gateway → Result Gateway
remove_backend_from_config service g = do
  config ← without_backend (read_mcp_config g.file) service
  ok (removed g config)

-- `{name: entry.get("url", "") …}`
unfoldable pub urls : Fields → Result Fields
urls end = ok end
urls (field name entry rest) = do
  url ← get entry "url" (str "")
  others ← urls rest
  ok (field name url others)

-- The answer of `handle_get_backends`, before it is sent.
unfoldable pub backends : File → Result Fields
backends file = do
  servers ← get (read_mcp_config file) "mcpServers" (obj end)
  listed ← entries servers
  urls listed
