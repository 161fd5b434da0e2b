-- ===== src/Tests/NameTree.antt =====
-- Names of one and of several letters in a tree.
use forgotten_land.Base.{◌≡◌, not, ◌&&◌, refl, true, false, List, [], ◌∷◌, some, ◌||◌, ℕ}
use forgotten_land.NameTree.{
  WildcardTreeNode, Children, get_child, add_child, insert_from, insert, put_child, remove_from,
  remove, ReturnValue, descend, complete, find_one,
}
use forgotten_land.NameTree.Names.{holds, same, holds-insert}
use forgotten_land.NameTree.Shape.{IsTree, IsForest}
use forgotten_land.NameTree.Removal.{holds-remove}
use forgotten_land.NameTree.Search.{FoundOne, find_one_lem}

program : Unit {0}
unfolding get_child add_child insert_from insert put_child remove_from remove holds same descend
    complete find_one IsTree IsForest
program = tt

-- "an" and "ana".
abbrev an : List ℕ
an = 97 ∷ 110 ∷ []

abbrev ana : List ℕ
ana = 97 ∷ 110 ∷ 97 ∷ []

abbrev root : WildcardTreeNode
root = WildcardTreeNode.node false Children.leaf

abbrev online : WildcardTreeNode
online = WildcardTreeNode.node false (
    Children.child 97
      (WildcardTreeNode.node false
        (Children.child 110 (WildcardTreeNode.node true Children.leaf) Children.leaf))
      Children.leaf)

an_inserted : insert an root ≡ some online
an_inserted = unfold program in refl

holds-insert_example :
    (m : WildcardTreeNode) × (insert ana online ≡ some m)
    × (holds an m ≡ (same ana an || holds an online))
holds-insert_example = holds-insert ana an online (unfold program in refl)

prefix_kept : holds an (remove ana (insert_from ana online)) ≡ true
prefix_kept = unfold program in refl

pruned : remove an online ≡ root
pruned = unfold program in refl

not_there : remove ana online ≡ online
not_there = unfold program in refl

online-IsTree : IsTree online
online-IsTree = unfold program in (refl, refl, (refl, refl, tt, tt), tt)

holds-remove_example :
    (holds ana (remove an online) ≡ (not (same an ana) && holds ana online))
    × IsTree (remove an online)
holds-remove_example = holds-remove an ana online online-IsTree

find_one_example : FoundOne (97 ∷ []) [] online (find_one (97 ∷ []) [] online)
find_one_example = find_one_lem (97 ∷ []) [] online online-IsTree refl

completed : find_one (97 ∷ []) [] online ≡ (ReturnValue.noerror, an)
completed = unfold program in refl

ambiguous : find_one an [] (insert_from ana online) ≡ (ReturnValue.nameistooambiguous, an)
ambiguous = unfold program in refl

no_such_name : find_one (98 ∷ []) ana online ≡ (ReturnValue.playerwiththisnameisnotonline, ana)
no_such_name = unfold program in refl
