-- ===== src/BundleServer/Overlap/Overtaken.antt =====
-- Two rebuilds of which the one that fetched first ends last.
use noumena_mcp_gateway_poc.Base.{List, [], ◌∷◌}
use noumena_mcp_gateway_poc.Base.World.{Runtime}
use noumena_mcp_gateway_poc.BundleServer.Client.{Client, Config}
use noumena_mcp_gateway_poc.BundleServer.Server.{Server}
use noumena_mcp_gateway_poc.BundleServer.Overlap.{Overlap, Move, rebuilder}

-- No move is the rebuilder's.
abbrev pub AreOthers : {R : Runtime} {cfg : Config} → List (Move R cfg) → Type 0
AreOthers [] = Unit
AreOthers (rebuilder ∷ xs) = ⊥
AreOthers (_ ∷ xs) = AreOthers xs
