-- ===== src/Tests/Loading.antt =====
-- Files of nodes.
use forgotten_land.Base.{ℕ, ◌≡◌, ◌++◌, refl, List, [], ◌∷◌, some, none, inl, arith}
use mathlib.Core.Option as Option
use forgotten_land.Loading.FileLoader.{
  same_bytes, wildcard, is_accepted, append_child, emplace_back, end_props, pop_node, start_node,
  end_node, skip_escaped, visit, parse_nodes, parse_root, parse_tree, load_file, copy_unescaped,
  get_props,
}
use forgotten_land.Loading.Encoding.{Tree, tree, no_trees, subtree, escape, encode, tree_of}
use forgotten_land.Loading.RoundTrip.{load_file-encode}

program : Unit {0}
unfolding same_bytes is_accepted append_child emplace_back end_props pop_node start_node end_node
    skip_escaped visit parse_nodes parse_root parse_tree load_file copy_unescaped get_props escape
    encode tree_of
program = tt

abbrev identifier : List ℕ
identifier = 79 ∷ 84 ∷ 66 ∷ 77 ∷ []

-- A root with the properties 1, 254, 3 and two children, of which the first has a child.
abbrev sample : Tree
sample = tree 0 (1 ∷ 254 ∷ 3 ∷ []) (
    subtree (tree 5 (253 ∷ []) (subtree (tree 255 [] no_trees) no_trees))
      (subtree (tree 6 (9 ∷ []) no_trees) no_trees))

sample_encoded : encode (tree 6 (9 ∷ 255 ∷ []) no_trees) ≡ 254 ∷ 6 ∷ 9 ∷ 253 ∷ 255 ∷ 255 ∷ []
sample_encoded = unfold program in refl

sample_loaded : Option.map tree_of (load_file identifier (wildcard ++ encode sample)) ≡ some sample
sample_loaded = unfold program in refl

-- A root that is not closed, an end too many, and a file of the least size are refused.
unclosed : load_file identifier (identifier ++ (254 ∷ 0 ∷ 1 ∷ 2 ∷ [])) ≡ none
unclosed = unfold program in refl

closed_twice : load_file identifier (identifier ++ (254 ∷ 0 ∷ 1 ∷ 255 ∷ 255 ∷ [])) ≡ none
closed_twice = unfold program in refl

least : load_file identifier (identifier ++ (254 ∷ 0 ∷ 255 ∷ [])) ≡ none
least = unfold program in refl

-- What stands between the children of a node and its end is passed over.
late_props :
    Option.map tree_of
      (load_file identifier (identifier ++ (254 ∷ 0 ∷ 254 ∷ 1 ∷ 255 ∷ 7 ∷ 255 ∷ [])))
    ≡ some (tree 0 [] (subtree (tree 1 [] no_trees) no_trees))
late_props = unfold program in refl

load_file-encode_example :
    Option.map tree_of (load_file identifier (identifier ++ encode sample)) ≡ some sample
load_file-encode_example =
    load_file-encode identifier identifier sample refl (inl refl) (unfold program in omega arith)
