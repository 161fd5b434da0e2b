-- ===== src/NameTree/Names.antt =====
-- The tree of src/utils/wildcardtree.cpp against the set of names that it stands for.
use forgotten_land.Base.{
  ℕ, ◌≡◌, refl, sym, ap, ◌∙◌, inl, inr, Bool, true, false, ◌&&◌, ◌||◌, List, [], ◌∷◌, Option, none,
  some, ◌==◌, arith, Bool-cases, Option-cases,
}
use mathlib.Core.Path.{subst}
use forgotten_land.NameTree.{
  WildcardTreeNode, Children, breakpoint, children, get_child, add_child, insert_from, insert,
}

-- The names of a tree: a breakpoint ends one.
unfoldable pub holds : List ℕ → WildcardTreeNode → Bool
holds [] n = breakpoint n
holds (ch ∷ str) n = elim (get_child ch (children n)) [ none ↦ false | some m ↦ holds str m ]

unfoldable pub same : List ℕ → List ℕ → Bool
same [] [] = true
same [] (d ∷ t) = false
same (c ∷ s) [] = false
same (c ∷ s) (d ∷ t) = let rest = same s t in c == d && rest

-- The child, or a new one.
abbrev pub child_or_new : Option WildcardTreeNode → WildcardTreeNode
child_or_new none = WildcardTreeNode.node false Children.leaf
child_or_new (some n) = n

pub get_child-add_child_same :
    (ch : ℕ) (f : WildcardTreeNode → WildcardTreeNode) (cs : Children)
    → get_child ch (add_child ch f cs) ≡ some (f (child_or_new (get_child ch cs)))
unfolding get_child add_child
get_child-add_child_same ch f Children.leaf = ground arith
get_child-add_child_same ch f (Children.child c n cs) =
    ground (arith, get_child-add_child_same ch f cs)

pub get_child-add_child_other :
    (ch d : ℕ) (f : WildcardTreeNode → WildcardTreeNode) (cs : Children)
    → (ch == d) ≡ false
    → get_child d (add_child ch f cs) ≡ get_child d cs
unfolding get_child add_child
get_child-add_child_other ch d f Children.leaf ne = ground arith
get_child-add_child_other ch d f (Children.child c n cs) ne =
    ground (arith, get_child-add_child_other ch d f cs ne)

pub holds-new : (t : List ℕ) → holds t (WildcardTreeNode.node false Children.leaf) ≡ false
unfolding holds get_child
holds-new [] = refl
holds-new (d ∷ t) = refl

or_false : (b : Bool) → (b || false) ≡ b
or_false true = refl
or_false false = refl

pub holds-child :
    (d : ℕ) (t : List ℕ) (n : WildcardTreeNode)
    → holds (d ∷ t) n ≡ holds t (child_or_new (get_child d (children n)))
unfolding holds
holds-child d t n = elim (Option-cases (get_child d (children n))) [
  | inl e ↦ rw (holds, e) (sym (holds-new t))
  | inr (m, e) ↦ rw (holds, e) refl
]

pub same_step : (c d : ℕ) (s t : List ℕ) → (c == d) ≡ true → same (c ∷ s) (d ∷ t) ≡ same s t
unfolding same
same_step c d s t e = rw (same, e) refl

pub same_other : (c d : ℕ) (s t : List ℕ) → (c == d) ≡ false → same (c ∷ s) (d ∷ t) ≡ false
unfolding same
same_other c d s t e = rw (same, e) refl

-- Inserting a name puts it in the tree, and changes nothing about any other.
holds-insert_from :
    (s t : List ℕ) (n : WildcardTreeNode) → holds t (insert_from s n) ≡ (same s t || holds t n)
unfolding insert_from
holds-insert_from [] [] (WildcardTreeNode.node b cs) = unfold holds same in refl
holds-insert_from [] (d ∷ t) (WildcardTreeNode.node b cs) = unfold holds same in refl
holds-insert_from (c ∷ s) [] (WildcardTreeNode.node b cs) = unfold holds same in refl
holds-insert_from (c ∷ s) (d ∷ t) (WildcardTreeNode.node b cs) =
    let after = holds-child d t (insert_from (c ∷ s) (WildcardTreeNode.node b cs)) in
    let before = holds-child d t (WildcardTreeNode.node b cs) in
    elim (Bool-cases (c == d)) [
      | inl e ↦
          let here : c ≡ d = ground arith in
          let got =
            subst
              (λ k.
                get_child k (add_child c (insert_from s) cs)
                ≡ some (insert_from s (child_or_new (get_child k cs))))
              here (get_child-add_child_same c (insert_from s) cs) in
          after
          ∙ ap (λ o. holds t (child_or_new o)) got
          ∙ holds-insert_from s t (child_or_new (get_child d cs))
          ∙ sym (rw (same_step c d s t e, before) refl)
      | inr e ↦
          after
          ∙ ap (λ o. holds t (child_or_new o)) (get_child-add_child_other c d (insert_from s) cs e)
          ∙ sym (rw (same_other c d s t e, before) refl)
    ]

-- A name that is not empty can be inserted; from then on the tree holds it, and holds of all others
-- those that it held before.
pub holds-insert :
    (s t : List ℕ) (n : WildcardTreeNode)
    → same s [] ≡ false
    → (m : WildcardTreeNode) × (insert s n ≡ some m) × (holds t m ≡ (same s t || holds t n))
unfolding insert same
holds-insert [] t n named = absurd (cc)
holds-insert (c ∷ s) t n named = (insert_from (c ∷ s) n, refl, holds-insert_from (c ∷ s) t n)
