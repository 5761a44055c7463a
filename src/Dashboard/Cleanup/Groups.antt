-- ===== src/Dashboard/Cleanup/Groups.antt =====
-- The groups of a sweep.
use mathlib.Core.List.{append-nil, append_assoc}
use noumena_mcp_gateway_poc.Base.{
  inl, inr, Bool-cases, sym, ◌≡◌, ◌≢◌, ◌∙◌, String, ◌==◌, eq_iff, List, [], ◌∷◌, ◌++◌, arith,
  if◌then◌else◌,
}
use noumena_mcp_gateway_poc.Base.Dict
use noumena_mcp_gateway_poc.Base.Dict.{Dict, lookup-insert, lookup-nil}
use noumena_mcp_gateway_poc.Dashboard.Cleanup.{Container, grouped, group_by_parent, members}

-- The containers of one parent, in order.
abbrev pub children : String → List Container → List Container
children parent [] = []
children parent (c ∷ cs) =
    let others = children parent cs in if c.parent == parent then c ∷ others else others

members-grouped :
    (parent : String) (c : Container) (groups : Dict (List Container))
    → parent ≢ ""
    → members (Dict.lookup parent (grouped c groups))
      ≡ members (Dict.lookup parent groups) ++ (if c.parent == parent then c ∷ [] else [])
unfolding grouped
members-grouped parent c groups h = ground (
  arith,
  eq_iff c.parent "",
  eq_iff c.parent parent,
  append-nil (members (Dict.lookup parent groups)),
  lookup-insert c.parent parent (members (Dict.lookup c.parent groups) ++ c ∷ []) groups,
)

members-group_by_parent :
    (parent : String) (cs : List Container) (groups : Dict (List Container))
    → parent ≢ ""
    → members (Dict.lookup parent (group_by_parent cs groups))
      ≡ members (Dict.lookup parent groups) ++ children parent cs
unfolding group_by_parent
members-group_by_parent parent [] groups h = sym (append-nil _)
members-group_by_parent parent (c ∷ cs) groups h =
    members-group_by_parent parent cs (grouped c groups) h ∙ step
  where
    step :
        members (Dict.lookup parent (grouped c groups)) ++ children parent cs
        ≡ members (Dict.lookup parent groups) ++ children parent (c ∷ cs)
    step =
        rw (members-grouped parent c groups h, append_assoc)
          (elim (Bool-cases (c.parent == parent)) [ inl e ↦ rw e | inr e ↦ rw e ])

-- The group of a parent, whose name is not empty, holds the inner containers with its label, in the
-- order in which Docker listed them.
pub group_by_parent-children :
    (parent : String) (inner : List Container)
    → parent ≢ ""
    → members (Dict.lookup parent (group_by_parent inner [])) ≡ children parent inner
group_by_parent-children parent inner h = members-group_by_parent parent inner [] h ∙ rw lookup-nil
