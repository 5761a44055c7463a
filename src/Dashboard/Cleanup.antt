-- ===== src/Dashboard/Cleanup.antt =====
-- `cleanup_orphaned_containers` of dashboard/server.py: which containers a sweep removes. Docker
-- gives the containers; a removal that fails does not stop the others.
pub mod Newest
pub mod Groups
pub mod Parents
use noumena_mcp_gateway_poc.Base.{
  ℕ, String, Bool, true, false, ◌||◌, ◌==◌, Option, none, some, List, [], ◌∷◌, ◌++◌, ltb, length,
  if◌then◌else◌,
}
use noumena_mcp_gateway_poc.Base.Dict
use noumena_mcp_gateway_poc.Base.Dict.{Dict}

-- An inner container: its name, its label `gateway.parent`, empty if it has none, and the code
-- points of its creation time, by which Python compares texts.
pub record Container : Type 0 where
  pub name : String
  pub parent : String
  pub created : List ℕ

-- `a <= b` on texts.
unfoldable pub text_le : List ℕ → List ℕ → Bool
text_le [] ys = true
text_le (x ∷ xs) [] = false
text_le (x ∷ xs) (y ∷ ys) = if ltb x y then true else if ltb y x then false else text_le xs ys

-- Before the first container that is not younger: equals keep their order.
insert_newest : Container → List Container → List Container
insert_newest c [] = c ∷ []
insert_newest c (x ∷ xs) =
    if text_le x.created c.created then c ∷ x ∷ xs else x ∷ insert_newest c xs

-- `containers.sort(key=…, reverse=True)`
unfoldable pub newest_first : List Container → List Container
unfolding insert_newest
newest_first [] = []
newest_first (c ∷ cs) = insert_newest c (newest_first cs)

abbrev pub members : Option (List Container) → List Container
members none = []
members (some cs) = cs

-- `by_parent.setdefault(parent, []).append(c)`, unless there is no parent.
unfoldable pub grouped : Container → Dict (List Container) → Dict (List Container)
grouped c by_parent =
    if c.parent == ""
    then by_parent
    else Dict.insert c.parent (members (Dict.lookup c.parent by_parent) ++ c ∷ []) by_parent

unfoldable pub group_by_parent : List Container → Dict (List Container) → Dict (List Container)
group_by_parent [] by_parent = by_parent
group_by_parent (c ∷ cs) by_parent = group_by_parent cs (grouped c by_parent)

unfoldable pub contains : List String → String → Bool
contains [] s = false
contains (x ∷ xs) s = x == s || contains xs s

abbrev rest_of : List Container → List Container
rest_of [] = []
rest_of (_ ∷ cs) = cs

-- What is removed of one parent's containers: all if the parent is gone, all but the newest if
-- there are several.
unfoldable pub doomed : List String → String → List Container → List Container
unfolding contains
doomed names parent containers =
    if contains names parent
    then (if ltb 1 (length containers) then rest_of (newest_first containers) else [])
    else containers

unfoldable pub doomed_of_groups : List String → Dict (List Container) → List Container
doomed_of_groups names [] = []
doomed_of_groups names ((parent, containers) ∷ groups) =
    doomed names parent containers ++ doomed_of_groups names groups

-- The containers that a sweep removes, in order: `inner` are those with the label, `names` the
-- names of all containers.
unfoldable pub removed_containers : List Container → List String → List Container
removed_containers inner names = doomed_of_groups names (group_by_parent inner [])
