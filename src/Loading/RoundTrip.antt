-- ===== src/Loading/RoundTrip.antt =====
-- A tree that is written and loaded by src/io/fileloader.cpp.
use forgotten_land.Base.{
  ℕ, ◌≤◌, ◌≡◌, refl, ◌∙◌, inl, inr, ◌⊎◌, Bool, true, false, ◌||◌, some, List, [], ◌∷◌, ◌++◌, length,
  arith, leb, take-append, drop-append,
}
use mathlib.Core.Option as Option
use forgotten_land.Loading.FileLoader.{
  node, no_nodes, byte_end, in_node, same_bytes, wildcard, is_accepted, end_props, pop_node,
  parse_nodes, parse_root, parse_tree, load_file,
}
use forgotten_land.Loading.Encoding.{Tree, tree, encode, encode_all, escape, tree_of}
use forgotten_land.Loading.Runs.{runs, runs-escape}
use forgotten_land.Loading.Placed.{place, runs-encode_all, tree_of-place}

same_bytes_refl : (xs : List ℕ) → same_bytes xs xs ≡ true
unfolding same_bytes
same_bytes_refl [] = refl
same_bytes_refl (x ∷ xs) = ground (arith, same_bytes_refl xs)

or_true : (b : Bool) → (b || true) ≡ true
or_true true = refl
or_true false = refl

-- The loader accepts its own identifier and the wildcard, before a file that is long enough.
is_accepted_lem :
    (accepted_identifier identifier rest : List ℕ)
    → length identifier ≡ 4
    → (identifier ≡ accepted_identifier) ⊎ (identifier ≡ wildcard)
    → 8 ≤ length (identifier ++ rest)
    → is_accepted accepted_identifier (identifier ++ rest) ≡ true
unfolding is_accepted
is_accepted_lem accepted_identifier identifier rest four either long =
    let whole = rw four at (take-append identifier rest) in
    let longer : leb (length (identifier ++ rest)) 7 ≡ false = ground arith in
    let own = same_bytes_refl identifier in
    elim either [
      | inl e ↦
          let same : same_bytes identifier accepted_identifier ≡ true = cc (own, e) in
          rw (longer, whole, same)
      | inr e ↦
          let same : same_bytes identifier wildcard ≡ true = cc (own, e) in
          rw (longer, whole, same) (or_true (same_bytes identifier accepted_identifier))
    ]

parse_root-encode : (t : Tree) → parse_root (encode t) ≡ some (place t [])
unfolding parse_root encode place runs parse_nodes pop_node end_props
parse_root-encode (tree kind props trees) =
    let end = encode_all trees ++ (byte_end ∷ []) in
    let n = node kind (escape props ++ end) [] no_nodes in
    runs-escape props end (in_node n []) ∙ runs-encode_all trees [] n []

-- A tree of types and properties, encoded behind four bytes that are the accepted identifier or the
-- wildcard, in a file of at least eight bytes, is loaded as nodes of which getProps gives the
-- properties back, and which make up the same tree.
pub load_file-encode :
    (accepted_identifier identifier : List ℕ) (t : Tree)
    → length identifier ≡ 4
    → (identifier ≡ accepted_identifier) ⊎ (identifier ≡ wildcard)
    → 8 ≤ length (identifier ++ encode t)
    → Option.map tree_of (load_file accepted_identifier (identifier ++ encode t)) ≡ some t
unfolding load_file parse_tree
load_file-encode accepted_identifier identifier t four either long =
    let accepted = is_accepted_lem accepted_identifier identifier (encode t) four either long in
    let body = rw four at (drop-append identifier (encode t)) in
    rw (accepted, body, parse_root-encode t, tree_of-place t [])
