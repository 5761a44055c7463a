-- ===== src/Dashboard/Cleanup/Newest.antt =====
-- Of the containers of a parent that exists, one is kept, and none of the others is younger.
use mathlib.Core.List.{Perm}
use mathlib.Core.List.Perm
use noumena_mcp_gateway_poc.Base.{
  inl, inr, Bool-cases, ℕ, suc, ◌≡◌, ◌≢◌, refl, String, true, false, List, [], ◌∷◌, ltb, arith,
  length,
}
use noumena_mcp_gateway_poc.Dashboard.Cleanup.{
  Container, text_le, insert_newest, newest_first, contains, rest_of, doomed,
}

text_le_refl : (a : List ℕ) → text_le a a ≡ true
unfolding text_le
text_le_refl [] = refl
text_le_refl (x ∷ xs) = ground (arith, text_le_refl xs)

text_le_total : (a b : List ℕ) → text_le a b ≡ false → text_le b a ≡ true
unfolding text_le
text_le_total [] b h = cc
text_le_total (x ∷ xs) [] h = refl
text_le_total (x ∷ xs) (y ∷ ys) h = ground (arith, text_le_total xs ys)

text_le_trans : (a b c : List ℕ) → text_le a b ≡ true → text_le b c ≡ true → text_le a c ≡ true
unfolding text_le
text_le_trans [] b c h k = refl
text_le_trans (x ∷ xs) [] c h k = cc
text_le_trans (x ∷ xs) (y ∷ ys) [] h k = cc
text_le_trans (x ∷ xs) (y ∷ ys) (z ∷ zs) h k = ground (arith, text_le_trans xs ys zs)

-- Every container of the list is at most as young as `c`.
abbrev pub NoYounger : Container → List Container → Type 0
NoYounger c [] = Unit
NoYounger c (x ∷ xs) = (text_le x.created c.created ≡ true) × NoYounger c xs

NoYounger-trans :
    (c d : Container) (xs : List Container)
    → text_le d.created c.created ≡ true
    → NoYounger d xs
    → NoYounger c xs
NoYounger-trans c d [] h n = tt
NoYounger-trans c d (x ∷ xs) h (k, n) =
    (text_le_trans x.created d.created c.created k h, NoYounger-trans c d xs h n)

abbrev Sorted : List Container → Type 0
Sorted [] = Unit
Sorted (c ∷ cs) = NoYounger c cs × Sorted cs

insert_newest-perm : (c : Container) (xs : List Container) → Perm (insert_newest c xs) (c ∷ xs)
unfolding insert_newest
insert_newest-perm c [] = Perm.refl _
insert_newest-perm c (x ∷ xs) = elim (Bool-cases (text_le x.created c.created)) [
  | inl e ↦ rw e (Perm.refl _)
  | inr e ↦ rw e (Perm.trans (Perm.cons x (insert_newest-perm c xs)) (Perm.swap c x xs))
]

NoYounger-insert :
    (d c : Container) (xs : List Container)
    → text_le c.created d.created ≡ true
    → NoYounger d xs
    → NoYounger d (insert_newest c xs)
unfolding insert_newest
NoYounger-insert d c [] h n = (h, tt)
NoYounger-insert d c (x ∷ xs) h (k, n) = ground (arith, NoYounger-insert d c xs h n)

Sorted-insert : (c : Container) (xs : List Container) → Sorted xs → Sorted (insert_newest c xs)
unfolding insert_newest
Sorted-insert c [] s = (tt, tt)
Sorted-insert c (x ∷ xs) (n, s) = elim (Bool-cases (text_le x.created c.created)) [
  | inl e ↦ rw e ((e, NoYounger-trans c x xs e n), (n, s))
  | inr e ↦
      rw e (NoYounger-insert x c xs (text_le_total x.created c.created e) n, Sorted-insert c xs s)
]

Sorted-newest_first : (cs : List Container) → Sorted (newest_first cs)
unfolding newest_first
Sorted-newest_first [] = tt
Sorted-newest_first (c ∷ cs) = Sorted-insert c (newest_first cs) (Sorted-newest_first cs)

newest_first-perm : (cs : List Container) → Perm (newest_first cs) cs
unfolding newest_first
newest_first-perm [] = Perm.refl _
newest_first-perm (c ∷ cs) =
    Perm.trans (insert_newest-perm c (newest_first cs)) (Perm.cons c (newest_first-perm cs))

several : (n : ℕ) → ltb 1 (suc (suc n)) ≡ true
several n = ground arith

-- What is left of a sorted list without its first container.
oldest_gone :
    (c : Container) (cs sorted : List Container)
    → Sorted sorted
    → Perm sorted (c ∷ cs)
    → (kept : Container) × Perm (kept ∷ rest_of sorted) (c ∷ cs) × NoYounger kept (rest_of sorted)
oldest_gone c cs [] s p = let none_left = Perm.nil-eq p in cc
oldest_gone c cs (k ∷ ks) s p = (k, p, s.0)

-- If the parent exists and has a container, exactly one container is kept, and it is at least as
-- young as every container that is removed.
pub doomed_of_parent :
    (names : List String) (parent : String) (containers : List Container)
    → contains names parent ≡ true
    → containers ≢ []
    → (kept : Container) × Perm (kept ∷ doomed names parent containers) containers
      × NoYounger kept (doomed names parent containers)
unfolding doomed
doomed_of_parent names parent [] h n = absurd (n refl)
doomed_of_parent names parent (c ∷ []) h n = rw h (c, Perm.refl _, tt)
doomed_of_parent names parent (c ∷ d ∷ cs) h n =
    rw (h, several (length cs))
      (oldest_gone c (d ∷ cs) (newest_first (c ∷ d ∷ cs)) (Sorted-newest_first (c ∷ d ∷ cs))
        (newest_first-perm (c ∷ d ∷ cs)))
