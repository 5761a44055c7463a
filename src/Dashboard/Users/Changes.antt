-- ===== src/Dashboard/Users/Changes.antt =====
-- The dict that `handle_update_user` of dashboard/server.py sends.
use noumena_mcp_gateway_poc.Base.{
  Bool, false, ◌||◌, Option, none, some, String, ◌==◌, List, [], ◌∷◌,
}
use noumena_mcp_gateway_poc.Base.Json.{Json, obj, lookup}
use noumena_mcp_gateway_poc.Base.World.{Runtime}
use noumena_mcp_gateway_poc.Dashboard.State.{Config}

-- One of the keys.
unfoldable pub named : String → List String → Bool
named k [] = false
named k (j ∷ ks) = j == k || named k ks

abbrev pub mapped : (Json → Json) → Option Json → Option Json
mapped wrap none = none
mapped wrap (some v) = some (wrap v)

module _ (R : Runtime) (cfg : Config) where
  -- What a dict of a user has under a key of its attributes.
  abbrev pub attribute : String → Option Json → Option Json
  attribute k (some (obj a)) = lookup k a
  attribute k _ = none
