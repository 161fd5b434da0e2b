-- ===== src/NameTree/Shape.antt =====
-- The shape that insertions and removals keep: no two children of a node have the same letter, and
-- every node but the root ends a name or has a child.
use mathlib.Core.Path.{subst}
use mathlib.Core.Option.{some-injective}
use forgotten_land.Base.{
  ℕ, ◌≡◌, refl, ◌∙◌, inl, inr, Bool, false, not, ◌&&◌, List, [], ◌∷◌, none, some, ◌==◌,
  if◌then◌else◌, arith, Bool-cases, Option-cases, ==_iff,
}
use forgotten_land.NameTree.{
  WildcardTreeNode, Children, breakpoint, children, is_leaf, get_child, add_child, insert_from,
  put_child, remove_from, remove,
}
use forgotten_land.NameTree.Names.{get_child-add_child_other}

-- A node that `remove` erases.
abbrev pub dead : WildcardTreeNode → Bool
dead n = is_leaf (children n) && not (breakpoint n)

unfoldable mutual
  pub IsTree : WildcardTreeNode → Type 0
  IsTree (WildcardTreeNode.node b cs) = IsForest cs

  pub IsForest : Children → Type 0
  IsForest Children.leaf = Unit
  IsForest (Children.child c n cs) =
      (get_child c cs ≡ none) × (dead n ≡ false) × IsTree n × IsForest cs

pub IsTree-children : (n : WildcardTreeNode) → IsTree n → IsForest (children n)
unfolding IsTree
IsTree-children (WildcardTreeNode.node b cs) h = h

-- What the children of such a node are.
pub get_child-IsTree :
    (ch : ℕ) (cs : Children) (n : WildcardTreeNode)
    → IsForest cs
    → get_child ch cs ≡ some n
    → (dead n ≡ false) × IsTree n
unfolding IsForest get_child
get_child-IsTree ch Children.leaf n h e = absurd (cc)
get_child-IsTree ch (Children.child c m cs) n (new, lives, tree, rest) e =
    elim (Bool-cases (c == ch)) [
      | inl here ↦
          subst (λ k. (dead k ≡ false) × IsTree k) (some-injective _ _ (rw here at e)) (lives, tree)
      | inr there ↦ get_child-IsTree ch cs n rest (rw there at e)
    ]

add_child-IsForest :
    (ch : ℕ) (f : WildcardTreeNode → WildcardTreeNode) (cs : Children)
    → ((n : WildcardTreeNode) → IsTree n → (dead (f n) ≡ false) × IsTree (f n))
    → IsForest cs
    → IsForest (add_child ch f cs)
unfolding IsForest add_child get_child
add_child-IsForest ch f Children.leaf keeps h = (
  refl,
  (keeps (WildcardTreeNode.node false Children.leaf) tt).0,
  (keeps (WildcardTreeNode.node false Children.leaf) tt).1,
  tt,
)
add_child-IsForest ch f (Children.child c n cs) keeps (new, lives, tree, rest) =
    elim (Bool-cases (c == ch)) [
      | inl here ↦ rw here (new, (keeps n tree).0, (keeps n tree).1, rest)
      | inr there ↦ rw there (
        get_child-add_child_other ch c f cs (ground arith) ∙ new,
        lives,
        tree,
        add_child-IsForest ch f cs keeps rest,
      )
    ]

add_child-is_leaf :
    (ch : ℕ) (f : WildcardTreeNode → WildcardTreeNode) (cs : Children)
    → is_leaf (add_child ch f cs) ≡ false
unfolding add_child
add_child-is_leaf ch f Children.leaf = refl
add_child-is_leaf ch f (Children.child c n cs) = ground arith

-- Insertion keeps the shape, and its result is no node to be erased.
pub insert_from-IsTree :
    (s : List ℕ) (n : WildcardTreeNode)
    → IsTree n
    → (dead (insert_from s n) ≡ false) × IsTree (insert_from s n)
unfolding insert_from IsTree
insert_from-IsTree [] (WildcardTreeNode.node b cs) h = (ground arith, h)
insert_from-IsTree (c ∷ s) (WildcardTreeNode.node b cs) h = (
  ground (arith, add_child-is_leaf c (insert_from s) cs),
  add_child-IsForest c (insert_from s) cs (insert_from-IsTree s) h,
)

pub get_child-put_child_other :
    (ch d : ℕ) (m : WildcardTreeNode) (cs : Children)
    → (ch == d) ≡ false
    → get_child d (put_child ch m cs) ≡ get_child d cs
unfolding get_child put_child
get_child-put_child_other ch d m Children.leaf ne = refl
get_child-put_child_other ch d m (Children.child c n cs) ne = elim (Bool-cases (c == ch)) [
  | inl here ↦ elim (Bool-cases (dead m)) [
    | inl gone ↦ rw (here, gone) (ground arith)
    | inr stays ↦ rw (here, stays) (ground arith)
  ]
  | inr there ↦ rw there (ground (arith, get_child-put_child_other ch d m cs ne))
]

-- The child that was changed is there, unless it was erased.
pub get_child-put_child_same :
    (ch : ℕ) (m k : WildcardTreeNode) (cs : Children)
    → IsForest cs
    → get_child ch cs ≡ some k
    → get_child ch (put_child ch m cs) ≡ (if dead m then none else some m)
unfolding IsForest get_child put_child
get_child-put_child_same ch m k Children.leaf h e = absurd (cc)
get_child-put_child_same ch m k (Children.child c n cs) (new, lives, tree, rest) e =
    elim (Bool-cases (c == ch)) [
      | inl here ↦
          let gone_too : get_child ch cs ≡ none =
            subst (λ d. get_child d cs ≡ none) ((==_iff c ch).0 here) new in
          elim (Bool-cases (dead m)) [
            | inl gone ↦ rw (here, gone) gone_too
            | inr stays ↦ rw (here, stays) (ground arith)
          ]
      | inr there ↦ rw there (rw there (get_child-put_child_same ch m k cs rest (rw there at e)))
    ]

put_child-IsForest :
    (ch : ℕ) (m : WildcardTreeNode) (cs : Children)
    → IsTree m
    → IsForest cs
    → IsForest (put_child ch m cs)
unfolding IsForest put_child
put_child-IsForest ch m Children.leaf tree_m h = tt
put_child-IsForest ch m (Children.child c n cs) tree_m (new, lives, tree, rest) =
    elim (Bool-cases (c == ch)) [
      | inl here ↦ elim (Bool-cases (dead m)) [
        | inl gone ↦ rw (here, gone) rest
        | inr stays ↦ rw (here, stays) (new, stays, tree_m, rest)
      ]
      | inr there ↦ rw there (
        get_child-put_child_other ch c m cs (ground arith) ∙ new,
        lives,
        tree,
        put_child-IsForest ch m cs tree_m rest,
      )
    ]

remove_from-IsTree :
    (s : List ℕ) (n m : WildcardTreeNode) → IsTree n → remove_from s n ≡ some m → IsTree m
unfolding remove_from IsTree
remove_from-IsTree [] (WildcardTreeNode.node b cs) m h e =
    subst (λ k. IsTree k) (some-injective _ _ e) h
remove_from-IsTree (c ∷ s) (WildcardTreeNode.node b cs) m h e =
    elim (Option-cases (get_child c cs)) [
      | inl none_there ↦ absurd (cc (rw (remove_from, none_there) at e))
      | inr (k, there) ↦ elim (Option-cases (remove_from s k)) [
        | inl not_in ↦ absurd (cc (rw (remove_from, there, not_in) at e))
        | inr (k', changed) ↦
            let tree_k' = remove_from-IsTree s k k' (get_child-IsTree c cs k h there).1 changed in
            subst (λ r. IsTree r) (some-injective _ _ (rw (remove_from, there, changed) at e))
              (put_child-IsForest c k' cs tree_k' h)
      ]
    ]

pub remove-IsTree : (s : List ℕ) (n : WildcardTreeNode) → IsTree n → IsTree (remove s n)
unfolding remove
remove-IsTree s n h = elim (Option-cases (remove_from s n)) [
  | inl e ↦ rw (remove, e) h
  | inr (m, e) ↦ rw (remove, e) (remove_from-IsTree s n m h e)
]
