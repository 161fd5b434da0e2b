-- ===== src/NameTree/Removal.antt =====
-- The names of the tree of src/utils/wildcardtree.cpp after `remove`.
use mathlib.Core.Path.{subst}
use forgotten_land.Base.{
  ℕ, ◌≡◌, refl, sym, ap, ◌∙◌, inl, inr, Bool, true, false, not, ◌&&◌, List, [], ◌∷◌, Option, none,
  some, ◌==◌, if◌then◌else◌, arith, Bool-cases, Option-cases, ==_iff,
}
use forgotten_land.NameTree.{
  WildcardTreeNode, Children, breakpoint, children, get_child, remove_from, remove,
}
use forgotten_land.NameTree.Names.{
  holds, same, holds-new, holds-child, child_or_new, same_step, same_other,
}
use forgotten_land.NameTree.Shape.{
  IsTree, IsForest, dead, get_child-IsTree, get_child-put_child_same, get_child-put_child_other,
  remove-IsTree,
}

holds-dead : (t : List ℕ) (m : WildcardTreeNode) → dead m ≡ true → holds t m ≡ false
unfolding holds get_child
holds-dead [] (WildcardTreeNode.node b Children.leaf) h = ground arith
holds-dead (d ∷ t) (WildcardTreeNode.node b Children.leaf) h = refl
holds-dead t (WildcardTreeNode.node b (Children.child c n cs)) h = absurd (cc)

-- A child that was erased held nothing.
holds-erased :
    (t : List ℕ) (m : WildcardTreeNode)
    → holds t (child_or_new (if dead m then none else some m)) ≡ holds t m
holds-erased t m = elim (Bool-cases (dead m)) [
  | inl gone ↦ rw gone (holds-new t ∙ sym (holds-dead t m gone))
  | inr stays ↦ rw stays refl
]

-- The tree without a name, whether the name was found or not.
abbrev or_else : WildcardTreeNode → Option WildcardTreeNode → WildcardTreeNode
or_else n none = n
or_else n (some m) = m

and_false : (b : Bool) → (b && false) ≡ false
and_false true = refl
and_false false = refl

-- The tree after the removal of a name that begins with `c`: its other children are the same, and
-- below `c` the rest of the name is removed.
removed-children :
    (c : ℕ) (s : List ℕ) (b : Bool) (cs : Children)
    → IsForest cs
    → ((t : List ℕ) (k : WildcardTreeNode)
        → get_child c cs ≡ some k
        → holds t (or_else k (remove_from s k)) ≡ (not (same s t) && holds t k))
    → let r =
        or_else (WildcardTreeNode.node b cs) (remove_from (c ∷ s) (WildcardTreeNode.node b cs)) in
      (breakpoint r ≡ b)
      × ((d : ℕ) → (c == d) ≡ false → get_child d (children r) ≡ get_child d cs)
      × ((t : List ℕ)
          → holds t (child_or_new (get_child c (children r)))
            ≡ (not (same s t) && holds t (child_or_new (get_child c cs))))
unfolding remove_from
removed-children c s b cs h below = elim (Option-cases (get_child c cs)) [
  | inl none_there ↦
      rw (remove_from, none_there)
        (
          refl,
          λ d ne. refl,
          λ t. rw none_there (
              holds-new t
              ∙ sym (ap (λ x. not (same s t) && x) (holds-new t) ∙ and_false (not (same s t)))),
        )
  | inr (k, there) ↦ elim (Option-cases (remove_from s k)) [
    | inl not_in ↦
        rw (remove_from, there, not_in)
          (
            refl,
            λ d ne. refl,
            λ t. rw there (sym (ap (λ o. holds t (or_else k o)) not_in) ∙ below t k there),
          )
    | inr (m, changed) ↦
        rw (remove_from, there, changed)
          (
            refl,
            λ d ne. get_child-put_child_other c d m cs ne,
            λ t.
                ap (λ o. holds t (child_or_new o)) (get_child-put_child_same c m k cs h there)
                ∙ holds-erased t m
                ∙ sym (ap (λ o. holds t (or_else k o)) changed)
                ∙ below t k there,
          )
  ]
]

holds-nil : (n : WildcardTreeNode) → holds [] n ≡ breakpoint n
unfolding holds
holds-nil n = refl

rest_kept :
    (c : ℕ) (s : List ℕ) (b : Bool) (cs : Children)
    → (not (same (c ∷ s) []) && holds [] (WildcardTreeNode.node b cs)) ≡ b
unfolding holds same
rest_kept c s b cs = refl

holds-remove_from :
    (s t : List ℕ) (n : WildcardTreeNode)
    → IsTree n
    → holds t (or_else n (remove_from s n)) ≡ (not (same s t) && holds t n)
unfolding IsTree
holds-remove_from [] [] (WildcardTreeNode.node b cs) h = unfold holds same remove_from in refl
holds-remove_from [] (d ∷ t) (WildcardTreeNode.node b cs) h = unfold holds same remove_from in refl
holds-remove_from (c ∷ s) [] (WildcardTreeNode.node b cs) h =
    let below = λ (t : List ℕ) (k : WildcardTreeNode) (e : get_child c cs ≡ some k).
      holds-remove_from s t k (get_child-IsTree c cs k h e).1 in
    holds-nil _ ∙ (removed-children c s b cs h below).0 ∙ sym (rest_kept c s b cs)
holds-remove_from (c ∷ s) (d ∷ t) (WildcardTreeNode.node b cs) h =
    let below = λ (t' : List ℕ) (k : WildcardTreeNode) (e : get_child c cs ≡ some k).
      holds-remove_from s t' k (get_child-IsTree c cs k h e).1 in
    let (_, others, here) = removed-children c s b cs h below in
    let r =
      or_else (WildcardTreeNode.node b cs) (remove_from (c ∷ s) (WildcardTreeNode.node b cs)) in
    let after = holds-child d t r in
    let before = holds-child d t (WildcardTreeNode.node b cs) in
    elim (Bool-cases (c == d)) [
      | inl e ↦
          after
          ∙ subst
              (λ k.
                holds t (child_or_new (get_child k (children r)))
                ≡ (not (same s t) && holds t (child_or_new (get_child k cs))))
              ((==_iff c d).0 e) (here t)
          ∙ sym (rw (same_step c d s t e, before) refl)
      | inr e ↦
          after
          ∙ ap (λ o. holds t (child_or_new o)) (others d e)
          ∙ sym (rw (same_other c d s t e, before) refl)
    ]

-- After a removal from a tree in which no two children of a node have the same letter and every node
-- but the root ends a name or has a child, it holds the names that it held before but the removed
-- one, and keeps this shape.
pub holds-remove :
    (s t : List ℕ) (n : WildcardTreeNode)
    → IsTree n
    → (holds t (remove s n) ≡ (not (same s t) && holds t n)) × IsTree (remove s n)
unfolding remove
holds-remove s t n h = (
  elim (Option-cases (remove_from s n)) [
    | inl e ↦ rw (remove, e) (sym (ap (λ o. holds t (or_else n o)) e) ∙ holds-remove_from s t n h)
    | inr (m, e) ↦
        rw (remove, e) (sym (ap (λ o. holds t (or_else n o)) e) ∙ holds-remove_from s t n h)
  ],
  remove-IsTree s n h,
)
