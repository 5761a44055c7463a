-- ===== src/Dashboard/Envoy/Clusters.antt =====
-- The dicts of the clusters of `_parse_envoy_stats` of dashboard/server.py.
use text.Mathlib.TextLemmas.{cons-append, head-eq_of_cons-eq}
use text.Mathlib.TextEquality.{starts_with_iff}
use Prim.Native.Char.{Char, code}
use noumena_mcp_gateway_poc.Base.{
  String, ◌≡◌, ◌⊎◌, ◌∙◌, ap, sym, refl, true, false, none, some, List, [], ◌∷◌, inl, inr,
  Bool-cases, arith, starts_with,
}
use noumena_mcp_gateway_poc.Base.Json.{Json, str, obj, Fields, end, lookup}
use noumena_mcp_gateway_poc.Base.Json.Laws.{lookup-insert}
use noumena_mcp_gateway_poc.Base.Text.{
  has_part, split_lines, strip, strip_left, strip_right, all_space, is_space,
}
use noumena_mcp_gateway_poc.Base.World.{Runtime}
use noumena_mcp_gateway_poc.Dashboard.Envoy.{
  Found, named_cluster, indented, cluster_line, cluster_lines, clusters_of, split_colons,
}

-- A stripped text does not start with a space.
starts_with-cons : (c : Char) (s : String) → starts_with (String.◌∷◌ c s) " " ≡ true → code c ≡ 32
starts_with-cons c s h =
    let (u, p) = (starts_with_iff (String.◌∷◌ c s) " ").0 h in
    ap code (sym (head-eq_of_cons-eq {x = " "} {y = c} (sym (cons-append " " "" u) ∙ p)))

cons_not_space :
    (c : Char) (s : String) → is_space (code c) ≡ false → starts_with (String.◌∷◌ c s) " " ≡ false
unfolding is_space
cons_not_space c s h = elim (Bool-cases (starts_with (String.◌∷◌ c s) " ")) [
  | inl e ↦ let space = starts_with-cons c s e in let no = rw space at h in cc
  | inr e ↦ e
]

-- What is left of a text without the white space at its start.
strip_left-cases :
    (s : String)
    → (strip_left s ≡ "")
      ⊎ ((c : Char) × (t : String) × (strip_left s ≡ String.◌∷◌ c t) × (is_space (code c) ≡ false))
unfolding strip_left
strip_left-cases String.[] = inl refl
strip_left-cases (String.◌∷◌ c s) = elim (Bool-cases (is_space (code c))) [
  | inl e ↦ rw e (strip_left-cases s)
  | inr e ↦ inr (c, s, rw e, e)
]

starts_with-strip : (s : String) → starts_with (strip s) " " ≡ false
unfolding strip strip_right
starts_with-strip s = elim (strip_left-cases s) [
  | inl e ↦ rw e
  | inr (c, t, e, n) ↦ elim (Bool-cases (all_space (String.◌∷◌ c t))) [
    | inl a ↦ rw (e, a)
    | inr a ↦ rw (e, a) (cons_not_space c (strip_right t) n)
  ]
]

-- Every entry is the empty dict.
abbrev pub AllEmpty : Fields → Type 0
AllEmpty d = (k : String) (v : Json) → lookup k d ≡ some v → v ≡ obj end

module _ (R : Runtime) where
  indented_line_off :
      (line : String) (f : Found) → has_part "::" line ≡ false → indented R line f ≡ f
  unfolding indented
  indented_line_off line f h = ground (arith, h)

  cluster_line-AllEmpty :
      (line : String) (f : Found)
      → AllEmpty f.clusters
      → AllEmpty (cluster_line R (strip line) f).clusters
  unfolding cluster_line named_cluster
  cluster_line-AllEmpty line f h k v e = ground (
    arith,
    starts_with-strip line,
    indented_line_off (strip line) f,
    h k v,
    lookup-insert (split_colons (strip line)).0 k (obj end) f.clusters,
  )

  cluster_lines-AllEmpty :
      (lines : List String) (f : Found)
      → AllEmpty f.clusters
      → AllEmpty (cluster_lines R lines f).clusters
  unfolding cluster_lines
  cluster_lines-AllEmpty [] f h = h
  cluster_lines-AllEmpty (line ∷ lines) f h =
      cluster_lines-AllEmpty lines (cluster_line R (strip line) f) (cluster_line-AllEmpty line f h)

  -- Whatever Envoy says of its clusters, none of the values is reported: every cluster's dict is
  -- empty.
  pub clusters_of-AllEmpty : (clusters_text : Json) → AllEmpty (clusters_of R clusters_text)
  unfolding clusters_of
  clusters_of-AllEmpty (str text) k v e =
      cluster_lines-AllEmpty (split_lines (strip text)) (record { clusters = end; current = none })
        (λ k v e. unfold lookup in cc) k v e
  clusters_of-AllEmpty _ k v e = unfold lookup in cc
