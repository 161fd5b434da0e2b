-- ===== src/Loading/FileLoader.antt =====
-- src/io/fileloader.cpp: `Loader` and its tree of nodes. A file is a list of bytes, and an iterator into
-- it is the list of the bytes from there to the end. An error that is thrown is `none`.
use forgotten_land.Base.{
  ℕ, zero, suc, ◌-◌, Bool, true, false, not, ◌&&◌, ◌||◌, ◌==◌, leb, if◌then◌else◌, Option, none,
  some, ◌>>=◌, List, [], ◌∷◌, length, take, drop,
}

abbrev pub Contents : Type 0
Contents = List ℕ

-- The type of a node, where its properties begin and end, and its children.
mutual
  pub data Node : Type 0 where
    node : ℕ → Contents → Contents → ChildrenVector → Node

  pub data ChildrenVector : Type 0 where
    no_nodes : ChildrenVector
    child : Node → ChildrenVector → ChildrenVector

abbrev pub byte_escape : ℕ
byte_escape = 253

abbrev pub byte_start : ℕ
byte_start = 254

abbrev pub byte_end : ℕ
byte_end = 255

-- The stack of the nodes that are open, the innermost first. A node is put among the children of the
-- node below it when it is popped, not when it is pushed: it is the last child in both cases, and
-- between the two nothing looks at the node below. The root is the last to be popped.
pub data ParseStack : Type 0 where
  in_node : Node → List Node → ParseStack
  done : Node → ParseStack

unfoldable pub same_bytes : List ℕ → List ℕ → Bool
same_bytes [] [] = true
same_bytes (x ∷ xs) (y ∷ ys) = (x == y) && same_bytes xs ys
same_bytes _ _ = false

abbrev pub wildcard : List ℕ
wildcard = 0 ∷ 0 ∷ 0 ∷ 0 ∷ []

-- The constructor: the size of the file and its identifier.
unfoldable pub is_accepted : List ℕ → Contents → Bool
is_accepted accepted_identifier file =
    let identifier = take 4 file in
    if leb (length file) 7
    then false
    else same_bytes identifier accepted_identifier || same_bytes identifier wildcard

unfoldable pub append_child : ChildrenVector → Node → ChildrenVector
append_child no_nodes n = child n no_nodes
append_child (child m ns) n = child m (append_child ns n)

unfoldable pub emplace_back : Node → Node → Node
emplace_back (node kind begin end children) n = node kind begin end (append_child children n)

-- `if (currentNode.children.empty()) currentNode.propsEnd = it;`
unfoldable pub end_props : Contents → Node → Node
end_props it (node kind begin end no_nodes) = node kind begin it no_nodes
end_props it (node kind begin end (child n ns)) = node kind begin end (child n ns)

unfoldable pub pop_node : Node → List Node → ParseStack
unfolding emplace_back
pop_node n [] = done n
pop_node n (below ∷ stack) = in_node (emplace_back below n) stack

-- `case Node::START`, with the iterator at the byte and the rest of the file behind it. The end of the
-- properties is not set before a child or the end of the node comes.
unfoldable pub start_node : Contents → Contents → ParseStack → Option (Contents × ParseStack)
unfolding end_props
start_node it _ (done root) = none
start_node it [] (in_node n stack) = none
start_node it (kind ∷ rest) (in_node n stack) =
    some (rest, in_node (node kind rest [] no_nodes) (end_props it n ∷ stack))

-- `case Node::END`
unfoldable pub end_node : Contents → Contents → ParseStack → Option (Contents × ParseStack)
unfolding end_props pop_node
end_node it rest (done root) = none
end_node it rest (in_node n stack) = some (rest, pop_node (end_props it n) stack)

-- `case Node::ESCAPE`
unfoldable pub skip_escaped : Contents → ParseStack → Option (Contents × ParseStack)
skip_escaped [] stack = none
skip_escaped (_ ∷ rest) stack = some (rest, stack)

-- The switch on a byte.
unfoldable pub visit : ℕ → Contents → ParseStack → Option (Contents × ParseStack)
unfolding start_node end_node skip_escaped
visit byte rest stack =
    if byte == byte_start
    then start_node (byte ∷ rest) rest stack
    else if byte == byte_end
    then end_node (byte ∷ rest) rest stack
    else if byte == byte_escape
    then skip_escaped rest stack
    else some (rest, stack)

-- The loop over the file. The fuel is the bytes that are left: every round takes one at least.
unfoldable pub parse_nodes : ℕ → Contents → ParseStack → Option Node
unfolding visit
parse_nodes fuel [] (done root) = some root
parse_nodes fuel [] (in_node n stack) = none
parse_nodes zero (byte ∷ rest) stack = none
parse_nodes (suc fuel) (byte ∷ rest) stack =
    visit byte rest stack >>= λ next. parse_nodes fuel next.0 next.1

-- A file of two bytes or less behind the identifier does not get here.
unfoldable pub parse_root : Contents → Option Node
unfolding parse_nodes
parse_root (start ∷ kind ∷ it) =
    if start == byte_start
    then parse_nodes (length it) it (in_node (node kind it [] no_nodes) [])
    else none
parse_root _ = none

unfoldable pub parse_tree : Contents → Option Node
unfolding parse_root
parse_tree file = parse_root (drop 4 file)

unfoldable pub load_file : List ℕ → Contents → Option Node
unfolding is_accepted parse_tree
load_file accepted_identifier file =
    if is_accepted accepted_identifier file then parse_tree file else none

-- `std::copy_if` with the flag `lastEscaped`.
unfoldable pub copy_unescaped : Bool → List ℕ → List ℕ
copy_unescaped last_escaped [] = []
copy_unescaped last_escaped (byte ∷ bytes) =
    let escaped = (byte == byte_escape) && not last_escaped in
    let rest = copy_unescaped escaped bytes in if escaped then rest else byte ∷ rest

-- `getProps`, with what it fills the stream with.
unfoldable pub get_props : Node → Option (List ℕ)
unfolding copy_unescaped
get_props (node kind begin end children) =
    let size = length begin - length end in
    if size == 0 then none else some (copy_unescaped false (take size begin))
