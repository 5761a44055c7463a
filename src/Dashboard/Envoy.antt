-- ===== src/Dashboard/Envoy.antt =====
-- `_parse_envoy_stats` of dashboard/server.py
pub mod Clusters
use Prim.Native.Char.{code}
use noumena_mcp_gateway_poc.Base.{
  ℕ, String, ◌<>◌, Bool, true, false, not, ◌&&◌, Option, none, some, is_some, List, [], ◌∷◌, eqb,
  starts_with, ◌==◌, if◌then◌else◌,
}
use noumena_mcp_gateway_poc.Base.Json.{
  Json, null, num, str, obj, Fields, end, field, insert, lookup, or_default,
}
use noumena_mcp_gateway_poc.Base.Text.{ends_with, has_part, strip, split_lines, remove_suffix}
use noumena_mcp_gateway_poc.Base.World.{Runtime}

-- `s.partition(": ")` of a text that has the separator: what stands before and behind the first.
unfoldable pub partition : String → String × String
partition String.[] = ("", "")
partition (String.◌∷◌ c String.[]) = (String.◌∷◌ c "", "")
partition (String.◌∷◌ c (String.◌∷◌ b s)) =
    let (before, after) = partition (String.◌∷◌ b s) in
    if eqb (code c) 58 && eqb (code b) 32 then ("", s) else (String.◌∷◌ c before, after)

-- `s.split("::")`: the first piece, and those behind it.
unfoldable pub split_colons : String → String × List String
split_colons String.[] = ("", [])
split_colons (String.◌∷◌ c String.[]) = (String.◌∷◌ c "", [])
split_colons (String.◌∷◌ c (String.◌∷◌ b s)) = elim (eqb (code c) 58 && eqb (code b) 58) [
  | true ↦ let (piece, rest) = split_colons s in ("", piece ∷ rest)
  | false ↦ let (piece, rest) = split_colons (String.◌∷◌ b s) in (String.◌∷◌ c piece, rest)
]

-- The last two of the pieces, `""` for the last but one if there is one piece.
unfoldable pub last_two : String → List String → String × String
last_two piece [] = ("", piece)
last_two piece (next ∷ []) = (piece, next)
last_two piece (next ∷ other ∷ rest) = last_two next (other ∷ rest)

-- The keys of a cluster that are kept.
unfoldable pub is_cluster_key : String → Bool
is_cluster_key key =
    if key == "membership_healthy"
    then true
    else if key == "membership_total"
    then true
    else if key == "rq_total"
    then true
    else if key == "rq_success"
    then true
    else key == "rq_error"

-- The clusters found so far, and the one that the last line named.
pub record Found : Type 0 where
  pub clusters : Fields
  pub current : Option String

module _ (R : Runtime) where
  number_or_text : String → Json
  number_or_text s = elim (R.int_of s) [ none ↦ str s | some n ↦ num n ]

  -- A line `key: value`.
  unfoldable pub stat_line : String → Fields → Fields
  unfolding number_or_text
  stat_line line stats =
      if has_part ": " line
      then (let (key, value) = partition line in
          insert (strip key) (number_or_text (strip value)) stats)
      else stats

  unfoldable pub stat_lines : List String → Fields → Fields
  stat_lines [] stats = stats
  stat_lines (line ∷ lines) stats = stat_lines lines (stat_line line stats)

  -- Only a text is parsed.
  unfoldable pub stats_of : Json → Fields
  stats_of (str text) = stat_lines (split_lines (strip text)) end
  stats_of _ = end

  -- The first piece of the line names the cluster.
  unfoldable pub named_cluster : String → Found → Found
  named_cluster line f =
      let name = (split_colons line).0 in
      record {
        clusters =
            if is_some (lookup name f.clusters)
            then f.clusters
            else insert name (obj end) f.clusters;
        current = some name;
      }

  -- `result["clusters"][current_cluster][key] = value`
  unfoldable pub set_in : String → String → Json → Fields → Fields
  set_in name key value clusters = elim (lookup name clusters) [
    | some (obj d) ↦ insert name (obj (insert key value d)) clusters
    | _ ↦ clusters
  ]

  -- A value of the current cluster; one that is no number is passed over.
  unfoldable pub cluster_value : String → String → Found → Found
  cluster_value name line f =
      let (piece, rest) = split_colons line in
      let (key, value) = last_two piece rest in
      if is_cluster_key key
      then elim (R.int_of value) [
        | none ↦ f
        | some n ↦ record f { clusters = set_in name key (num n) f.clusters }
      ]
      else f

  -- The branch for the values of a cluster.
  unfoldable pub indented : String → Found → Found
  indented line f = elim f.current [
    | none ↦ f
    | some name ↦ if not (name == "") && has_part "::" line then cluster_value name line f else f
  ]

  -- A line, stripped.
  unfoldable pub cluster_line : String → Found → Found
  unfolding ends_with
  cluster_line line f =
      if ends_with line "::default_priority::max_connections::"
      then f
      else if has_part "::" line && not (starts_with line " ")
      then named_cluster line f
      else indented line f

  unfoldable pub cluster_lines : List String → Found → Found
  cluster_lines [] f = f
  cluster_lines (line ∷ lines) f = cluster_lines lines (cluster_line (strip line) f)

  unfoldable pub clusters_of : Json → Fields
  clusters_of (str text) =
      (cluster_lines (split_lines (strip text))
        (record { clusters = end; current = none })).clusters
  clusters_of _ = end

  -- `s.get(key, 0)`
  stat : Fields → String → Json
  unfolding lookup
  stat stats key = or_default (lookup key stats) (num 0)

  -- What the parser returns: the raw statistics are dropped at the end.
  unfoldable pub parse_envoy_stats : Json → Json → Json
  unfolding stat
  parse_envoy_stats stats_text clusters_text =
      let s = stats_of stats_text in
      let gateway = λ (key : String). stat s ("http.mcp_gateway." <> key) in
      obj (
        field "clusters" (obj (clusters_of clusters_text)) (
          field "downstream_rq_total" (gateway "downstream_rq_total") (
            field "downstream_rq_active" (gateway "downstream_rq_active") (
              field "downstream_cx_total" (gateway "downstream_cx_total") (
                field "downstream_cx_active" (gateway "downstream_cx_active") (
                  field "downstream_rq_2xx" (gateway "downstream_rq_2xx") (
                    field "downstream_rq_4xx" (gateway "downstream_rq_4xx") (
                      field "downstream_rq_5xx" (gateway "downstream_rq_5xx") (
                        field "ext_authz_ok" (gateway "ext_authz.ok") (
                          field "ext_authz_denied" (gateway "ext_authz.denied") (
                            field "ext_authz_error" (gateway "ext_authz.error") (
                              field "ext_authz_failure_mode_allowed"
                                (gateway "ext_authz.failure_mode_allowed") end))))))))))))
