-- ===== src/Loading/Encoding.antt =====
-- The format that src/io/fileloader.cpp reads, from the side of a writer: a tree of types and
-- properties, the bytes that stand for it, and the tree that the nodes of the loader stand for.
use forgotten_land.Base.{
  ℕ, Bool, ◌||◌, ◌==◌, if◌then◌else◌, none, some, List, [], ◌∷◌, ◌++◌, Option,
}
use forgotten_land.Loading.FileLoader.{
  Node, node, ChildrenVector, no_nodes, child, byte_escape, byte_start, byte_end, get_props,
}

mutual
  pub data Tree : Type 0 where
    tree : ℕ → List ℕ → Trees → Tree

  pub data Trees : Type 0 where
    no_trees : Trees
    subtree : Tree → Trees → Trees

abbrev pub is_special : ℕ → Bool
is_special byte = (byte == byte_escape) || (byte == byte_start) || (byte == byte_end)

unfoldable pub escape : List ℕ → List ℕ
escape [] = []
escape (byte ∷ bytes) =
    let rest = escape bytes in if is_special byte then byte_escape ∷ byte ∷ rest else byte ∷ rest

unfoldable mutual
  unfolding escape

  pub encode : Tree → List ℕ
  encode (tree kind props trees) =
      byte_start ∷ kind ∷ (escape props ++ (encode_all trees ++ (byte_end ∷ [])))

  pub encode_all : Trees → List ℕ
  encode_all no_trees = []
  encode_all (subtree t ts) = encode t ++ encode_all ts

abbrev pub props_or_none : Option (List ℕ) → List ℕ
props_or_none none = []
props_or_none (some props) = props

-- What a reader of the nodes sees.
unfoldable mutual
  unfolding get_props

  pub tree_of : Node → Tree
  tree_of (node kind begin end children) =
      tree kind (props_or_none (get_props (node kind begin end children))) (trees_of children)

  pub trees_of : ChildrenVector → Trees
  trees_of no_nodes = no_trees
  trees_of (child n ns) = subtree (tree_of n) (trees_of ns)
