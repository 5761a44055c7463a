-- ===== src/Dashboard/Cleanup/Parents.antt =====
-- What a sweep removes of each parent's containers.
use mathlib.Core.List.{append-nil, Perm}
use noumena_mcp_gateway_poc.Base.{
  inl, inr, Bool-cases, ap, ◌≡◌, ◌≢◌, ◌⊎◌, ◌∙◌, sym, refl, String, true, false, ◌==◌, eq_iff, none,
  some, List, [], ◌∷◌, ◌++◌, arith, length, ltb, if◌then◌else◌,
}
use noumena_mcp_gateway_poc.Base.Dict
use noumena_mcp_gateway_poc.Base.Dict.{Dict, lookup-insert, lookup-nil}
use noumena_mcp_gateway_poc.Dashboard.Cleanup.{
  Container, text_le, insert_newest, newest_first, members, grouped, group_by_parent, contains,
  rest_of, doomed, doomed_of_groups, removed_containers,
}
use noumena_mcp_gateway_poc.Dashboard.Cleanup.Groups.{children, group_by_parent-children}
use noumena_mcp_gateway_poc.Dashboard.Cleanup.Newest.{NoYounger, doomed_of_parent}

-- All of the containers have the parent.
abbrev AllOf : String → List Container → Type 0
AllOf parent [] = Unit
AllOf parent (c ∷ cs) = (c.parent ≡ parent) × AllOf parent cs

AllOf-eq :
    (parent other : String) (cs : List Container)
    → other ≡ parent
    → AllOf other cs
    → AllOf parent cs
AllOf-eq parent other [] e a = tt
AllOf-eq parent other (c ∷ cs) e (h, a) = (h ∙ e, AllOf-eq parent other cs e a)

AllOf-append :
    (parent : String) (xs ys : List Container)
    → AllOf parent xs
    → AllOf parent ys
    → AllOf parent (xs ++ ys)
AllOf-append parent [] ys ax ay = ay
AllOf-append parent (x ∷ xs) ys (h, ax) ay = (h, AllOf-append parent xs ys ax ay)

AllOf-insert_newest :
    (parent : String) (c : Container) (xs : List Container)
    → c.parent ≡ parent
    → AllOf parent xs
    → AllOf parent (insert_newest c xs)
unfolding insert_newest
AllOf-insert_newest parent c [] h a = (h, tt)
AllOf-insert_newest parent c (x ∷ xs) h (k, a) = elim (Bool-cases (text_le x.created c.created)) [
  | inl e ↦ rw e (h, (k, a))
  | inr e ↦ rw e (k, AllOf-insert_newest parent c xs h a)
]

AllOf-newest_first :
    (parent : String) (cs : List Container) → AllOf parent cs → AllOf parent (newest_first cs)
unfolding newest_first
AllOf-newest_first parent [] a = tt
AllOf-newest_first parent (c ∷ cs) (h, a) =
    AllOf-insert_newest parent c (newest_first cs) h (AllOf-newest_first parent cs a)

AllOf-rest_of :
    (parent : String) (cs : List Container) → AllOf parent cs → AllOf parent (rest_of cs)
AllOf-rest_of parent [] a = tt
AllOf-rest_of parent (c ∷ cs) (h, a) = a

AllOf-doomed :
    (names : List String) (parent : String) (cs : List Container)
    → AllOf parent cs
    → AllOf parent (doomed names parent cs)
unfolding doomed
AllOf-doomed names parent cs a = elim (Bool-cases (contains names parent)) [
  | inr e ↦ rw e a
  | inl e ↦ elim (Bool-cases (ltb 1 (length cs))) [
    | inl l ↦ rw (e, l) (AllOf-rest_of parent (newest_first cs) (AllOf-newest_first parent cs a))
    | inr l ↦ rw (e, l) tt
  ]
]

children-all : (parent : String) (cs : List Container) → AllOf parent cs → children parent cs ≡ cs
children-all parent [] a = refl
children-all parent (c ∷ cs) (h, a) =
    ground (arith, eq_iff c.parent parent, children-all parent cs a)

children-none :
    (parent other : String) (cs : List Container)
    → (other == parent) ≡ false
    → AllOf other cs
    → children parent cs ≡ []
children-none parent other [] n a = refl
children-none parent other (c ∷ cs) n (h, a) =
    ground (arith, eq_iff c.parent parent, eq_iff other parent, children-none parent other cs n a)

children-append :
    (parent : String) (xs ys : List Container)
    → children parent (xs ++ ys) ≡ children parent xs ++ children parent ys
children-append parent [] ys = refl
children-append parent (x ∷ xs) ys = elim (Bool-cases (x.parent == parent)) [
  | inl e ↦ rw (e, children-append parent xs ys) refl
  | inr e ↦ rw (e, children-append parent xs ys) refl
]

-- Each group has its own key, which is the parent of its containers.
abbrev IsTidy : Dict (List Container) → Type 0
IsTidy [] = Unit
IsTidy ((parent, cs) ∷ groups) =
    AllOf parent cs × (Dict.lookup parent groups ≡ none) × IsTidy groups

IsTidy-members :
    (parent : String) (groups : Dict (List Container))
    → IsTidy groups
    → AllOf parent (members (Dict.lookup parent groups))
unfolding Dict.lookup
IsTidy-members parent [] t = tt
IsTidy-members parent ((p, cs) ∷ groups) (a, n, t) = elim (Bool-cases (p == parent)) [
  | inl e ↦ rw e (AllOf-eq parent p cs (ground (arith, e, eq_iff p parent)) a)
  | inr e ↦ rw e (IsTidy-members parent groups t)
]

IsTidy-insert :
    (parent : String) (cs : List Container) (groups : Dict (List Container))
    → AllOf parent cs
    → IsTidy groups
    → IsTidy (Dict.insert parent cs groups)
unfolding Dict.insert
IsTidy-insert parent cs [] a t = (a, lookup-nil parent, tt)
IsTidy-insert parent cs ((p, ds) ∷ groups) a (b, n, t) = elim (Bool-cases (p == parent)) [
  | inl e ↦ rw e (AllOf-eq p parent cs (ground (arith, e, eq_iff p parent)) a, n, t)
  | inr e ↦ rw e (
    b,
    ground (arith, e, n, eq_iff p parent, eq_iff parent p, lookup-insert parent p cs groups),
    IsTidy-insert parent cs groups a t,
  )
]

IsTidy-group_by_parent :
    (cs : List Container) (groups : Dict (List Container))
    → IsTidy groups
    → IsTidy (group_by_parent cs groups)
unfolding group_by_parent grouped
IsTidy-group_by_parent [] groups t = t
IsTidy-group_by_parent (c ∷ cs) groups t = elim (Bool-cases (c.parent == "")) [
  | inl e ↦ rw e (IsTidy-group_by_parent cs groups t)
  | inr e ↦ rw e (
      IsTidy-group_by_parent cs _ (
        IsTidy-insert c.parent _ groups
          (AllOf-append c.parent _ (c ∷ []) (IsTidy-members c.parent groups t) (refl, tt)) t))
]

doomed-nil : (names : List String) (parent : String) → doomed names parent [] ≡ []
unfolding doomed
doomed-nil names parent = ground arith

-- One group before the others.
children-group :
    (names : List String) (parent p : String) (cs rest : List Container)
    (groups : Dict (List Container))
    → AllOf p cs
    → Dict.lookup p groups ≡ none
    → children parent rest ≡ doomed names parent (members (Dict.lookup parent groups))
    → children parent (doomed names p cs) ++ children parent rest
      ≡ doomed names parent (members (if p == parent then some cs else Dict.lookup parent groups))
children-group names parent p cs rest groups a n ih = elim (Bool-cases (p == parent)) [
  | inr e ↦ rw (e, children-none parent p (doomed names p cs) e (AllOf-doomed names p cs a)) ih
  | inl e ↦
      let q : p ≡ parent = ground (arith, e, eq_iff p parent) in
      let own =
        children-all parent (doomed names p cs)
          (AllOf-eq parent p (doomed names p cs) q (AllOf-doomed names p cs a)) in
      let none_left : children parent rest ≡ [] = ih ∙ rw (sym q) (rw n (doomed-nil names p)) in
      rw (own, none_left, e) (append-nil (doomed names p cs) ∙ ap (λ x. doomed names x cs) q)
]

children-doomed_of_groups :
    (names : List String) (parent : String) (groups : Dict (List Container))
    → IsTidy groups
    → children parent (doomed_of_groups names groups)
      ≡ doomed names parent (members (Dict.lookup parent groups))
unfolding doomed_of_groups Dict.lookup
children-doomed_of_groups names parent [] t = sym (doomed-nil names parent)
children-doomed_of_groups names parent ((p, cs) ∷ groups) (a, n, t) =
    children-append parent (doomed names p cs) (doomed_of_groups names groups)
    ∙ children-group names parent p cs (doomed_of_groups names groups) groups a n
        (children-doomed_of_groups names parent groups t)

-- Of each parent's containers, a sweep removes what is doomed of them alone.
children-removed :
    (inner : List Container) (names : List String) (parent : String)
    → parent ≢ ""
    → children parent (removed_containers inner names) ≡ doomed names parent (children parent inner)
unfolding removed_containers
children-removed inner names parent n =
    children-doomed_of_groups names parent (group_by_parent inner [])
      (IsTidy-group_by_parent inner [] tt)
    ∙ ap (doomed names parent) (group_by_parent-children parent inner n)

-- Of the containers of a parent that is there: none, or all but one that is at least as young as
-- each of the others.
abbrev pub IsNewestKept : List Container → List Container → Type 0
IsNewestKept containers removed =
    ((containers ≡ []) × (removed ≡ []))
    ⊎ ((kept : Container) × Perm (kept ∷ removed) containers × NoYounger kept removed)

newest_kept :
    (names : List String) (parent : String) (containers : List Container)
    → contains names parent ≡ true
    → IsNewestKept containers (doomed names parent containers)
newest_kept names parent [] there = inl (refl, doomed-nil names parent)
newest_kept names parent (c ∷ cs) there =
    inr (doomed_of_parent names parent (c ∷ cs) there (λ e. cc))

-- A sweep removes all containers of a parent, whose name is not empty, that is gone; of the
-- containers of one that is there it keeps exactly one, if there are any, and none that it removes is
-- younger.
pub removed_containers-children :
    (inner : List Container) (names : List String) (parent : String)
    → parent ≢ ""
    → let removed = children parent (removed_containers inner names) in
      ((contains names parent ≡ false) × (removed ≡ children parent inner))
      ⊎ ((contains names parent ≡ true) × IsNewestKept (children parent inner) removed)
unfolding doomed
removed_containers-children inner names parent n =
    rw (children-removed inner names parent n) (elim (Bool-cases (contains names parent)) [
      | inl there ↦ inr (there, newest_kept names parent (children parent inner) there)
      | inr gone ↦ inl (gone, rw gone refl)
    ])
