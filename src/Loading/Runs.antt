-- ===== src/Loading/Runs.antt =====
-- The loop of `parseTree` of src/io/fileloader.cpp one byte at a time, with no fuel in sight.
use forgotten_land.Base.{
  ℕ, zero, suc, ◌≤◌, ◌≡◌, refl, ◌∙◌, inl, inr, false, Option, some, List, [], ◌∷◌, ◌++◌, length,
  arith, Bool-cases, Option-cases,
}
use forgotten_land.Loading.FileLoader.{
  Contents, Node, node, no_nodes, byte_escape, byte_start, byte_end, ParseStack, in_node, done,
  end_props, pop_node, start_node, end_node, skip_escaped, visit, parse_nodes,
}
use forgotten_land.Loading.Encoding.{is_special, escape}

-- No byte gives back any of the file.
visit-shorter :
    (byte : ℕ) (it : Contents) (s : ParseStack) (it' : Contents) (s' : ParseStack)
    → visit byte it s ≡ some (it', s')
    → length it' ≤ length it
unfolding visit start_node end_node skip_escaped
visit-shorter byte it s it' s' h = grind arith

-- Any fuel is as good as another when each counts the bytes that are left.
parse_nodes_fuel :
    (f g : ℕ) (it : Contents) (s : ParseStack)
    → length it ≤ f
    → length it ≤ g
    → parse_nodes f it s ≡ parse_nodes g it s
unfolding parse_nodes
parse_nodes_fuel f g [] s _ _ = elim s [ in_node n stack ↦ refl | done root ↦ refl ]
parse_nodes_fuel zero g (byte ∷ it) s hf hg = absurd (omega arith)
parse_nodes_fuel f zero (byte ∷ it) s hf hg = absurd (omega arith)
parse_nodes_fuel (suc f) (suc g) (byte ∷ it) s hf hg = elim (Option-cases (visit byte it s)) [
  | inl e ↦ rw e
  | inr (next, e) ↦
      let shorter = visit-shorter byte it s next.0 next.1 e in
      rw e (parse_nodes_fuel f g next.0 next.1 (omega arith) (omega arith))
]

-- The loop with the fuel that `parseTree` starts it with.
unfoldable pub runs : Contents → ParseStack → Option Node
runs it s = parse_nodes (length it) it s

runs-visit :
    (byte : ℕ) (it : Contents) (s : ParseStack) (it' : Contents) (s' : ParseStack)
    → visit byte it s ≡ some (it', s')
    → runs (byte ∷ it) s ≡ runs it' s'
unfolding runs parse_nodes
runs-visit byte it s it' s' h = rw h (
    parse_nodes_fuel (length it) (length it') it' s' (visit-shorter byte it s it' s' h)
      (omega arith))

pub runs-start :
    (kind : ℕ) (it : Contents) (n : Node) (stack : List Node)
    → runs (byte_start ∷ kind ∷ it) (in_node n stack)
      ≡ runs it (in_node (node kind it [] no_nodes) (end_props (byte_start ∷ kind ∷ it) n ∷ stack))
runs-start kind it n stack =
    runs-visit byte_start (kind ∷ it) (in_node n stack) _ _ (unfold visit start_node in refl)

pub runs-end :
    (it : Contents) (n : Node) (stack : List Node)
    → runs (byte_end ∷ it) (in_node n stack)
      ≡ runs it (pop_node (end_props (byte_end ∷ it) n) stack)
runs-end it n stack = runs-visit byte_end it (in_node n stack) _ _ (unfold visit end_node in refl)

runs-skip :
    (byte : ℕ) (it : Contents) (s : ParseStack) → runs (byte_escape ∷ byte ∷ it) s ≡ runs it s
runs-skip byte it s = runs-visit byte_escape (byte ∷ it) s it s (unfold visit skip_escaped in refl)

visit-plain :
    (byte : ℕ) (it : Contents) (s : ParseStack)
    → is_special byte ≡ false
    → visit byte it s ≡ some (it, s)
unfolding visit
visit-plain byte it s h = ground arith

-- An escaped byte and a plain one are passed over.
pub runs-escape : (props it : Contents) (s : ParseStack) → runs (escape props ++ it) s ≡ runs it s
unfolding escape
runs-escape [] it s = refl
runs-escape (byte ∷ props) it s = elim (Bool-cases (is_special byte)) [
  | inl e ↦ rw e (runs-skip byte (escape props ++ it) s ∙ runs-escape props it s)
  | inr e ↦
      let passed = visit-plain byte (escape props ++ it) s e in
      rw e (runs-visit byte (escape props ++ it) s _ _ passed ∙ runs-escape props it s)
]
