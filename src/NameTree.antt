-- ===== src/NameTree.antt =====
-- `WildcardTreeNode` of src/utils/wildcardtree.cpp: the names of the players that are online. The
-- order of the children of a node is never observed: only a child that stands alone is taken.
pub mod Names
pub mod Shape
pub mod Removal
pub mod Search
use forgotten_land.Base.{
  ℕ, ◌≡◌, Bool, true, false, not, ◌&&◌, ◌||◌, List, [], ◌∷◌, ◌++◌, Option, none, some, ◌==◌,
  if◌then◌else◌,
}

mutual
  pub data WildcardTreeNode : Type 0 where
    node : Bool → Children → WildcardTreeNode

  pub data Children : Type 0 where
    leaf : Children
    child : ℕ → WildcardTreeNode → Children → Children

abbrev pub breakpoint : WildcardTreeNode → Bool
breakpoint (WildcardTreeNode.node b cs) = b

abbrev pub children : WildcardTreeNode → Children
children (WildcardTreeNode.node b cs) = cs

abbrev pub is_leaf : Children → Bool
is_leaf Children.leaf = true
is_leaf (Children.child c n cs) = false

unfoldable pub get_child : ℕ → Children → Option WildcardTreeNode
get_child ch Children.leaf = none
get_child ch (Children.child c n cs) =
    let rest = get_child ch cs in if c == ch then some n else rest

-- `addChild`: what is done to the child, which is made without a breakpoint where there is none.
unfoldable pub add_child : ℕ → (WildcardTreeNode → WildcardTreeNode) → Children → Children
add_child ch f Children.leaf =
    Children.child ch (f (WildcardTreeNode.node false Children.leaf)) Children.leaf
add_child ch f (Children.child c n cs) =
    let rest = add_child ch f cs in
    if c == ch then Children.child c (f n) cs else Children.child c n rest

unfoldable pub insert_from : List ℕ → WildcardTreeNode → WildcardTreeNode
insert_from [] (WildcardTreeNode.node b cs) = WildcardTreeNode.node true cs
insert_from (ch ∷ str) (WildcardTreeNode.node b cs) =
    WildcardTreeNode.node b (add_child ch (insert_from str) cs)

-- The empty name is `none`: its length less one wraps, and the loop reads past the string.
unfoldable pub insert : List ℕ → WildcardTreeNode → Option WildcardTreeNode
unfolding insert_from
insert [] n = none
insert (ch ∷ str) n = some (insert_from (ch ∷ str) n)

-- The child that `it` points to is put back as it is after the change, or erased.
unfoldable pub put_child : ℕ → WildcardTreeNode → Children → Children
put_child ch m Children.leaf = Children.leaf
put_child ch m (Children.child c n cs) =
    let rest = put_child ch m cs in
    if c == ch
    then (if is_leaf (children m) && not (breakpoint m) then cs else Children.child c m cs)
    else Children.child c n rest

-- `none` where the name is not in the tree, which is left as it is then.
unfoldable pub remove_from : List ℕ → WildcardTreeNode → Option WildcardTreeNode
remove_from [] (WildcardTreeNode.node b cs) = some (WildcardTreeNode.node false cs)
remove_from (ch ∷ str) (WildcardTreeNode.node b cs) = elim (get_child ch cs) [
  | none ↦ none
  | some n ↦ elim (remove_from str n) [
    | none ↦ none
    | some m ↦ some (WildcardTreeNode.node b (put_child ch m cs))
  ]
]

unfoldable pub remove : List ℕ → WildcardTreeNode → WildcardTreeNode
remove str n = elim (remove_from str n) [ none ↦ n | some m ↦ m ]

pub data ReturnValue : Type 0 where
  noerror playerwiththisnameisnotonline nameistooambiguous : ReturnValue

-- The loops of `findOne`: along the query, and down as long as there is one way on. The second
-- returns the letters that it adds to the result.
unfoldable pub descend : List ℕ → WildcardTreeNode → Option WildcardTreeNode
descend [] n = some n
descend (ch ∷ query) n = elim (get_child ch (children n)) [ none ↦ none | some m ↦ descend query m ]

unfoldable pub complete : WildcardTreeNode → ReturnValue × List ℕ
complete (WildcardTreeNode.node b Children.leaf) = (ReturnValue.noerror, [])
complete (WildcardTreeNode.node b (Children.child c n Children.leaf)) =
    let (value, letters) = complete n in
    if b then (ReturnValue.nameistooambiguous, []) else (value, c ∷ letters)
complete (WildcardTreeNode.node b (Children.child c n (Children.child d m cs))) =
    (ReturnValue.nameistooambiguous, [])

-- `result` is what the variable of the caller holds before.
unfoldable pub find_one : List ℕ → List ℕ → WildcardTreeNode → ReturnValue × List ℕ
find_one query result n = elim (descend query n) [
  | none ↦ (ReturnValue.playerwiththisnameisnotonline, result)
  | some m ↦ let (value, letters) = complete m in (value, query ++ letters)
]
