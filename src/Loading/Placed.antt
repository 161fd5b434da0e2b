-- ===== src/Loading/Placed.antt =====
-- Where `parseTree` of src/io/fileloader.cpp puts the nodes of an encoded tree, and what they say.
use forgotten_land.Base.{
  ℕ, ◌-◌, ◌≡◌, refl, sym, ap, ◌∙◌, inl, inr, true, false, ◌==◌, List, [], ◌∷◌, ◌++◌, length, arith,
  Bool-cases, take-append, length-append,
}
use mathlib.Core.List.{append_assoc}
use forgotten_land.Loading.FileLoader.{
  Contents, Node, node, ChildrenVector, no_nodes, child, byte_start, byte_end, in_node,
  append_child, emplace_back, end_props, pop_node, copy_unescaped, get_props,
}
use forgotten_land.Loading.Encoding.{
  Tree, tree, Trees, no_trees, subtree, escape, encode, encode_all, tree_of, trees_of,
  props_or_none,
}
use forgotten_land.Loading.Runs.{runs, runs-start, runs-end, runs-escape}

unfoldable pub emplace_all : Node → ChildrenVector → Node
unfolding emplace_back
emplace_all n no_nodes = n
emplace_all n (child m ns) = emplace_all (emplace_back n m) ns

-- The node of a tree whose bytes the rest of the file follows.
unfoldable mutual
  unfolding emplace_all encode escape

  pub place : Tree → Contents → Node
  place (tree kind props trees) rest =
      let end = encode_all trees ++ (byte_end ∷ rest) in
      emplace_all (node kind (escape props ++ end) end no_nodes) (place_all trees (byte_end ∷ rest))

  pub place_all : Trees → Contents → ChildrenVector
  place_all no_trees rest = no_nodes
  place_all (subtree t ts) rest = child (place t (encode_all ts ++ rest)) (place_all ts rest)

-- Once a node has a child, its properties stay.
end_props-emplace_back :
    (it : Contents) (n m : Node) → end_props it (emplace_back n m) ≡ emplace_back n m
unfolding end_props emplace_back append_child
end_props-emplace_back it (node kind begin end no_nodes) m = refl
end_props-emplace_back it (node kind begin end (child c cs)) m = refl

pub encode-then :
    (kind : ℕ) (props : List ℕ) (trees : Trees) (rest : Contents)
    → encode (tree kind props trees) ++ rest
      ≡ byte_start ∷ kind ∷ (escape props ++ (encode_all trees ++ (byte_end ∷ rest)))
unfolding encode
encode-then kind props trees rest = simp append_assoc

-- The loop over an encoded tree adds its node to the innermost node that is open, over the children
-- of a node and its end it closes that node.
mutual
  unfolding place end_props pop_node

  runs-encode :
      (t : Tree) (rest : Contents) (n : Node) (stack : List Node)
      → runs (encode t ++ rest) (in_node n stack)
        ≡ runs rest (in_node (emplace_back (end_props (encode t ++ rest) n) (place t rest)) stack)
  runs-encode (tree kind props trees) rest n stack =
      let end = encode_all trees ++ (byte_end ∷ rest) in
      let n' = end_props (byte_start ∷ kind ∷ (escape props ++ end)) n in
      rw (encode-then kind props trees rest) (
        runs-start kind (escape props ++ end) n stack
        ∙ runs-escape props end (in_node (node kind (escape props ++ end) [] no_nodes) (n' ∷ stack))
        ∙ runs-encode_all trees rest (node kind (escape props ++ end) [] no_nodes) (n' ∷ stack))

  pub runs-encode_all :
      (ts : Trees) (rest : Contents) (n : Node) (stack : List Node)
      → runs (encode_all ts ++ (byte_end ∷ rest)) (in_node n stack)
        ≡ runs rest (
            pop_node
              (emplace_all
                (end_props (encode_all ts ++ (byte_end ∷ rest)) n)
                (place_all ts (byte_end ∷ rest)))
              stack)
  runs-encode_all no_trees rest n stack = runs-end rest n stack
  runs-encode_all (subtree t ts) rest n stack =
      let more = encode_all ts ++ (byte_end ∷ rest) in
      let n' = end_props (encode t ++ more) n in
      let placed = place t more in
      let kept = end_props-emplace_back more n' placed in
      rw (append_assoc (encode t) (encode_all ts) (byte_end ∷ rest)) (
        runs-encode t more n stack
        ∙ rw kept at (runs-encode_all ts rest (emplace_back n' placed) stack))

copy_unescaped-escape : (props : List ℕ) → copy_unescaped false (escape props) ≡ props
unfolding copy_unescaped escape
copy_unescaped-escape [] = refl
copy_unescaped-escape (byte ∷ props) = ground (arith, copy_unescaped-escape props)

nothing : (xs : List ℕ) → (length xs == 0) ≡ true → xs ≡ []
nothing [] h = refl
nothing (x ∷ xs) h = ground arith

-- The properties of a node as it is placed.
get_props-escape :
    (kind : ℕ) (props : List ℕ) (end : Contents) (ns : ChildrenVector)
    → props_or_none (get_props (node kind (escape props ++ end) end ns)) ≡ props
unfolding get_props copy_unescaped
get_props-escape kind props end ns =
    let raw = escape props in
    let sized : length (raw ++ end) - length end ≡ length raw =
      omega (arith, length-append raw end) in
    elim (Bool-cases (length raw == 0)) [
      | inl e ↦
          rw (sized, e)
            (ap (copy_unescaped false) (sym (nothing raw e)) ∙ copy_unescaped-escape props)
      | inr e ↦ rw (sized, e, take-append raw end) (copy_unescaped-escape props)
    ]

unfoldable join : Trees → Trees → Trees
join no_trees us = us
join (subtree t ts) us = subtree t (join ts us)

join-none : (ts : Trees) → join ts no_trees ≡ ts
unfolding join
join-none no_trees = refl
join-none (subtree t ts) = ap (subtree t) (join-none ts)

trees_of-append_child :
    (ns : ChildrenVector) (n : Node) (us : Trees)
    → join (trees_of (append_child ns n)) us ≡ join (trees_of ns) (subtree (tree_of n) us)
unfolding join append_child tree_of
trees_of-append_child no_nodes n us = refl
trees_of-append_child (child m ns) n us = ap (subtree (tree_of m)) (trees_of-append_child ns n us)

tree_of-emplace_all :
    (kind : ℕ) (props : List ℕ) (end : Contents) (ns ms : ChildrenVector)
    → tree_of (emplace_all (node kind (escape props ++ end) end ns) ms)
      ≡ tree kind props (join (trees_of ns) (trees_of ms))
unfolding tree_of emplace_all join
tree_of-emplace_all kind props end ns no_nodes =
    rw (get_props-escape kind props end ns, join-none (trees_of ns))
tree_of-emplace_all kind props end ns (child m ms) =
    rw (sym (trees_of-append_child ns m (trees_of ms)))
      (tree_of-emplace_all kind props end (append_child ns m) ms)

mutual
  unfolding place tree_of join

  pub tree_of-place : (t : Tree) (rest : Contents) → tree_of (place t rest) ≡ t
  tree_of-place (tree kind props trees) rest =
      let end = encode_all trees ++ (byte_end ∷ rest) in
      tree_of-emplace_all kind props end no_nodes (place_all trees (byte_end ∷ rest))
      ∙ ap (tree kind props) (trees_of-place_all trees (byte_end ∷ rest))

  trees_of-place_all : (ts : Trees) (rest : Contents) → trees_of (place_all ts rest) ≡ ts
  trees_of-place_all no_trees rest = refl
  trees_of-place_all (subtree t ts) rest =
      cc (tree_of-place t (encode_all ts ++ rest), trees_of-place_all ts rest)
