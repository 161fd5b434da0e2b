-- ===== src/NameTree/Search.antt =====
-- What `findOne` of src/utils/wildcardtree.cpp finds: the one name that begins with the query.
use mathlib.Core.Path.{subst}
use mathlib.Core.Option.{some-injective}
use forgotten_land.Base.{
  ℕ, ◌≡◌, ◌≢◌, refl, sym, ap, ◌∙◌, inl, inr, Bool, true, false, List, [], ◌∷◌, ◌++◌, Option, none,
  some, ◌==◌, arith, Bool-cases, Option-cases, ==_iff,
}
use forgotten_land.NameTree.{
  WildcardTreeNode, Children, ReturnValue, children, get_child, descend, complete, find_one,
}
use forgotten_land.NameTree.Names.{holds}
use forgotten_land.NameTree.Shape.{IsTree, IsForest, dead, get_child-IsTree, IsTree-children}

-- Below every node that is not to be erased there is a name.
some_name : (n : WildcardTreeNode) → IsTree n → dead n ≡ false → (t : List ℕ) × (holds t n ≡ true)
unfolding IsTree IsForest holds get_child
some_name (WildcardTreeNode.node true cs) h lives = ([], refl)
some_name (WildcardTreeNode.node false Children.leaf) h lives = absurd (cc)
some_name (WildcardTreeNode.node false (Children.child c n cs)) (new, below, tree, rest) lives =
    let (t, e) = some_name n tree below in (c ∷ t, ground (arith, e))

leaf_only :
    (b : Bool) (t : List ℕ) → holds t (WildcardTreeNode.node b Children.leaf) ≡ true → t ≡ []
unfolding holds get_child
leaf_only b [] e = refl
leaf_only b (d ∷ t) e = absurd (cc)

-- What the end of `findOne` says of the names below a node.
abbrev Found : WildcardTreeNode → ReturnValue × List ℕ → Type 0
Found n (ReturnValue.noerror, r) = (holds r n ≡ true) × ((t : List ℕ) → holds t n ≡ true → t ≡ r)
Found n (ReturnValue.playerwiththisnameisnotonline, r) = ⊥
Found n (ReturnValue.nameistooambiguous, r) =
    (s : List ℕ) × (t : List ℕ) × (s ≢ t) × (holds s n ≡ true) × (holds t n ≡ true)

cons_ne : (c : ℕ) (s t : List ℕ) → s ≢ t → c ∷ s ≢ c ∷ t
cons_ne c s t ne e = ne (ap (λ xs. elim xs as (λ _. List ℕ) [ [] ↦ [] | y ∷ ys ↦ ys ]) e)

heads_ne : (c d : ℕ) (s t : List ℕ) → (c == d) ≡ false → c ∷ s ≢ d ∷ t
heads_ne c d s t apart e =
    let same_letter : c ≡ d = ap (λ xs. elim xs as (λ _. ℕ) [ [] ↦ 0 | y ∷ ys ↦ y ]) e in
    ground arith

only_way :
    (c : ℕ) (n : WildcardTreeNode) (r t : List ℕ)
    → ((t' : List ℕ) → holds t' n ≡ true → t' ≡ r)
    → holds t (WildcardTreeNode.node false (Children.child c n Children.leaf)) ≡ true
    → t ≡ c ∷ r
unfolding holds get_child
only_way c n r [] unique e = absurd (cc)
only_way c n r (d ∷ t) unique e = elim (Bool-cases (c == d)) [
  | inl here ↦ ground (arith, unique t, (==_iff c d).0 here)
  | inr other ↦ absurd (cc (rw (holds, get_child, other) at e))
]

extend :
    (c : ℕ) (n : WildcardTreeNode) (r : ReturnValue × List ℕ)
    → Found n r
    → Found (WildcardTreeNode.node false (Children.child c n Children.leaf)) (r.0, c ∷ r.1)
unfolding holds get_child
extend c n (ReturnValue.noerror, r) (there, unique) =
    (ground arith, λ t e. only_way c n r t unique e)
extend c n (ReturnValue.playerwiththisnameisnotonline, r) f = f
extend c n (ReturnValue.nameistooambiguous, r) (s, t, ne, hs, ht) =
    (c ∷ s, c ∷ t, cons_ne c s t ne, ground arith, ground arith)

-- Two children of a node have different letters, and neither hides the other.
two_ways :
    (b : Bool) (c d : ℕ) (n m : WildcardTreeNode) (cs : Children) (s t : List ℕ)
    → get_child c (Children.child d m cs) ≡ none
    → holds s n ≡ true
    → holds t m ≡ true
    → let both = WildcardTreeNode.node b (Children.child c n (Children.child d m cs)) in
      (c ∷ s ≢ d ∷ t) × (holds (c ∷ s) both ≡ true) × (holds (d ∷ t) both ≡ true)
unfolding holds get_child
two_ways b c d n m cs s t new hs ht =
    let apart : (d == c) ≡ false = ground arith in
    let apart' : (c == d) ≡ false = ground arith in
    (heads_ne c d s t apart', ground arith, ground arith)

complete_lem : (n : WildcardTreeNode) → IsTree n → dead n ≡ false → Found n (complete n)
unfolding complete IsTree IsForest
complete_lem (WildcardTreeNode.node b Children.leaf) h lives =
    (unfold holds in ground arith, λ t e. leaf_only b t e)
complete_lem (WildcardTreeNode.node true (Children.child c n Children.leaf))
      (new, below, tree, rest) lives =
    let (t, e) = some_name n tree below in
    ([], c ∷ t, λ p. cc, unfold holds in refl, unfold holds get_child in ground (arith, e))
complete_lem (WildcardTreeNode.node false (Children.child c n Children.leaf))
      (new, below, tree, rest) lives =
    extend c n (complete n) (complete_lem n tree below)
complete_lem (WildcardTreeNode.node b (Children.child c n (Children.child d m cs)))
      (new, below, tree, (new', below', tree', rest)) lives =
    let (s, hs) = some_name n tree below in
    let (t, ht) = some_name m tree' below' in
    let (ne, hs', ht') = two_ways b c d n m cs s t new hs ht in (c ∷ s, d ∷ t, ne, hs', ht')

-- The way along the query.
descend-IsTree :
    (query : List ℕ) (n m : WildcardTreeNode)
    → IsTree n
    → dead n ≡ false
    → descend query n ≡ some m
    → (dead m ≡ false) × IsTree m
unfolding descend
descend-IsTree [] n m h lives e =
    subst (λ k. (dead k ≡ false) × IsTree k) (some-injective _ _ e) (lives, h)
descend-IsTree (c ∷ query) n m h lives e = elim (Option-cases (get_child c (children n))) [
  | inl none_there ↦ absurd (cc (rw (descend, none_there) at e))
  | inr (k, there) ↦
      let (lives_k, tree_k) = get_child-IsTree c (children n) k (IsTree-children n h) there in
      descend-IsTree query k m tree_k lives_k (rw (descend, there) at e)
]

abbrev held_below : List ℕ → Option WildcardTreeNode → Bool
held_below t none = false
held_below t (some m) = holds t m

holds-descend :
    (query t : List ℕ) (n : WildcardTreeNode)
    → holds (query ++ t) n ≡ held_below t (descend query n)
unfolding descend holds
holds-descend [] t n = refl
holds-descend (c ∷ query) t n = elim (Option-cases (get_child c (children n))) [
  | inl none_there ↦ rw (holds, descend, none_there) refl
  | inr (k, there) ↦ rw (holds, descend, there) (holds-descend query t k)
]

-- What `findOne` promises of the names that begin with the query.
unfoldable pub FoundOne : List ℕ → List ℕ → WildcardTreeNode → ReturnValue × List ℕ → Type 0
FoundOne query result n (ReturnValue.noerror, r) =
    ((s : List ℕ) × (r ≡ query ++ s))
    × (holds r n ≡ true)
    × ((t : List ℕ) → holds (query ++ t) n ≡ true → query ++ t ≡ r)
FoundOne query result n (ReturnValue.playerwiththisnameisnotonline, r) =
    (r ≡ result) × ((t : List ℕ) → holds (query ++ t) n ≡ false)
FoundOne query result n (ReturnValue.nameistooambiguous, r) =
    (s : List ℕ) × (t : List ℕ) × (query ++ s ≢ query ++ t)
    × (holds (query ++ s) n ≡ true)
    × (holds (query ++ t) n ≡ true)

append_ne : (query s t : List ℕ) → s ≢ t → query ++ s ≢ query ++ t
append_ne [] s t ne = ne
append_ne (c ∷ query) s t ne = cons_ne c (query ++ s) (query ++ t) (append_ne query s t ne)

along_query :
    (query result : List ℕ) (n m : WildcardTreeNode) (r : ReturnValue × List ℕ)
    → ((t : List ℕ) → holds (query ++ t) n ≡ holds t m)
    → Found m r
    → FoundOne query result n (r.0, query ++ r.1)
unfolding FoundOne
along_query query result n m (ReturnValue.noerror, r) below (there, unique) =
    ((r, refl), below r ∙ there, λ t e. ap (λ x. query ++ x) (unique t (sym (below t) ∙ e)))
along_query query result n m (ReturnValue.playerwiththisnameisnotonline, r) below f = absurd f
along_query query result n m (ReturnValue.nameistooambiguous, r) below (s, t, ne, hs, ht) =
    (s, t, append_ne query s t ne, below s ∙ hs, below t ∙ ht)

-- The search of a tree that holds a name, and in which no two children of a node have the same
-- letter and every node but the root ends a name or has a child, answers with a name that is held,
-- begins with the query and is the only one that does, or that the player is not online where no held name
-- begins with it, leaving the result of the caller as it was, or that it is ambiguous where two
-- different names that begin with it are held.
pub find_one_lem :
    (query result : List ℕ) (n : WildcardTreeNode)
    → IsTree n
    → dead n ≡ false
    → FoundOne query result n (find_one query result n)
unfolding find_one
find_one_lem query result n h lives = elim (Option-cases (descend query n)) [
  | inl no_way ↦
      rw (find_one, no_way)
        (unfold FoundOne in (refl, λ t. holds-descend query t n ∙ ap (held_below t) no_way))
  | inr (m, way) ↦
      let (lives_m, tree_m) = descend-IsTree query n m h lives way in
      let below = λ (t : List ℕ). holds-descend query t n ∙ ap (held_below t) way in
      rw (find_one, way)
        (along_query query result n m (complete m) below (complete_lem m tree_m lives_m))
]
