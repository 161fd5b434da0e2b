-- ===== src/Network/Message/Fields.antt =====
-- A message as the packet writers and parsers use it: a sequence of fields, each written by one
-- `add…` call and read by the matching `get…` call of `NetworkMessage`.
use forgotten_land.Base.{
  ℕ, ◌+◌, ◌^◌, ◌≤◌, ◌<◌, ◌≡◌, refl, ◌∙◌, List, ◌++◌, length, length-append, arith,
}
use forgotten_land.Base.Words.{u16}
use forgotten_land.Network.Message.{
  NetworkMessage, Position, max_body_length, put, advance, get, get_byte, get_bytes, get_string,
  get_position, add, add_byte, add_string, add_position, can_add,
}
use forgotten_land.Network.Message.Bytes.{le_bytes, length-le_bytes, Holds, Holds-append}
use forgotten_land.Network.Message.Access.{
  Readable, get-Holds, get_bytes-Holds, get_byte_lem, put-append, add_lem, add_byte_lem,
}

pub data Field : Type 0 where
  byte : ℕ → Field
  word : ℕ → ℕ → Field
  text : List ℕ → Field
  place : Position → Field

-- What a reader knows of a field before it reads it.
pub data Shape : Type 0 where
  byte : Shape
  word : ℕ → Shape
  text : Shape
  place : Shape

unfoldable pub shape : Field → Shape
shape (Field.byte v) = Shape.byte
shape (Field.word size v) = Shape.word size
shape (Field.text bs) = Shape.text
shape (Field.place pos) = Shape.place

unfoldable pub write : Field → NetworkMessage → NetworkMessage
write (Field.byte v) m = add_byte v m
write (Field.word size v) m = add size v m
write (Field.text bs) m = add_string bs m
write (Field.place pos) m = add_position pos m

unfoldable pub read : Shape → NetworkMessage → Field × NetworkMessage
read Shape.byte m = let (v, m') = get_byte m in (Field.byte v, m')
read (Shape.word size) m = let (v, m') = get size m in (Field.word size v, m')
read Shape.text m = let (bs, m') = get_string 0 m in (Field.text bs, m')
read Shape.place m = let (pos, m') = get_position m in (Field.place pos, m')

-- The bytes of a field on the wire.
abbrev pub encode : Field → List ℕ
encode (Field.byte v) = le_bytes 1 v
encode (Field.word size v) = le_bytes size v
encode (Field.text bs) = le_bytes 2 (length bs) ++ bs
encode (Field.place pos) = (le_bytes 2 pos.x ++ le_bytes 2 pos.y) ++ le_bytes 1 pos.z

-- The values that the C++ types of a field can hold; longer strings are dropped by `addString`.
abbrev pub Fits : Field → Type 0
Fits (Field.byte v) = v < 256
Fits (Field.word size v) = v < 256 ^ size
Fits (Field.text bs) = length bs ≤ 8192
Fits (Field.place pos) = (pos.x < 2 ^ 16) × (pos.y < 2 ^ 16) × (pos.z < 256)

abbrev pub size : Field → ℕ
size (Field.byte v) = 1
size (Field.word n v) = n
size (Field.text bs) = 2 + length bs
size (Field.place pos) = 5

pub length-encode : (f : Field) → length (encode f) ≡ size f
length-encode (Field.byte v) = length-le_bytes 1 v
length-encode (Field.word n v) = length-le_bytes n v
length-encode (Field.text bs) =
    omega (arith, length-append (le_bytes 2 (length bs)) bs, length-le_bytes 2 (length bs))
length-encode (Field.place pos) = omega (
  arith,
  length-append (le_bytes 2 pos.x ++ le_bytes 2 pos.y) (le_bytes 1 pos.z),
  length-append (le_bytes 2 pos.x) (le_bytes 2 pos.y),
  length-le_bytes 2 pos.x,
  length-le_bytes 2 pos.y,
  length-le_bytes 1 pos.z,
)

position-put :
    (bs : List ℕ) (m : NetworkMessage)
    → m.position + length bs < 2 ^ 16
    → (put bs m).position ≡ m.position + length bs
unfolding put
position-put bs m h = omega arith

add_string_lem :
    (bs : List ℕ) (m : NetworkMessage)
    → length bs ≤ 8192
    → m.position + (2 + length bs) < max_body_length
    → add_string bs m ≡ put (le_bytes 2 (length bs) ++ bs) m
add_string_lem bs m h p =
    let room : length bs + 2 + m.position < max_body_length = omega arith in
    taken room
    ∙ rw (add_lem 2 (length bs) m (omega arith))
        (put-append (le_bytes 2 (length bs)) bs m (omega (arith, length-le_bytes 2 (length bs))))
  where
    taken :
        length bs + 2 + m.position < max_body_length
        → add_string bs m ≡ put bs (add 2 (length bs) m)
    taken room = unfold add_string can_add in ground arith

add_position_lem :
    (pos : Position) (m : NetworkMessage)
    → m.position + 5 < max_body_length
    → add_position pos m ≡ put ((le_bytes 2 pos.x ++ le_bytes 2 pos.y) ++ le_bytes 1 pos.z) m
add_position_lem pos m p =
    let xs = le_bytes 2 pos.x in
    let ys = le_bytes 2 pos.y in
    let lx = length-le_bytes 2 pos.x in
    let ly = length-le_bytes 2 pos.y in
    let two : add 2 pos.y (add 2 pos.x m) ≡ put (xs ++ ys) m =
      rw (add_lem 2 pos.x m (omega arith)) (
        add_lem 2 pos.y (put xs m) (omega (arith, position-put xs m, lx))
        ∙ put-append xs ys m (omega (arith, lx))) in
    let lxy = length-append xs ys in
    steps
    ∙ rw two (
        add_byte_lem pos.z (put (xs ++ ys) m)
          (omega (arith, position-put (xs ++ ys) m, lx, ly, lxy))
        ∙ put-append (xs ++ ys) (le_bytes 1 pos.z) m (omega (arith, lx, ly, lxy)))
  where
    steps : add_position pos m ≡ add_byte pos.z (add 2 pos.y (add 2 pos.x m))
    steps = unfold add_position in refl

-- Where the field fits, `write` is one copy of its bytes.
pub write_lem :
    (f : Field) (m : NetworkMessage)
    → Fits f
    → m.position + size f < max_body_length
    → write f m ≡ put (encode f) m
unfolding write
write_lem (Field.byte v) m h p = add_byte_lem v m p
write_lem (Field.word n v) m h p = add_lem n v m p
write_lem (Field.text bs) m h p = add_string_lem bs m h p
write_lem (Field.place pos) m h p = add_position_lem pos m p

pub advance-advance : (a b : ℕ) (m : NetworkMessage) → advance b (advance a m) ≡ advance (a + b) m
unfolding advance
advance-advance a b m =
    let e : u16 (u16 (m.position + a) + b) ≡ u16 (m.position + (a + b)) = omega arith in rw e

-- After a read of `a` bytes the rest of a field stands at the new position.
pub Readable-advance :
    (a b : ℕ) (m : NetworkMessage)
    → Readable m (a + b)
    → Readable (advance a m) b × ((advance a m).position ≡ m.position + a)
unfolding advance
Readable-advance a b m h = omega arith

pub Holds-advance :
    (xs ys : List ℕ) (m : NetworkMessage)
    → Readable m (length xs)
    → Holds m.buffer m.position (xs ++ ys)
    → Holds (advance (length xs) m).buffer (advance (length xs) m).position ys
unfolding advance
Holds-advance xs ys m r h =
    let e : u16 (m.position + length xs) ≡ m.position + length xs = omega arith in
    rw e (Holds-append m.buffer m.position xs ys h).1

get_byte-Holds :
    (v : ℕ) (m : NetworkMessage)
    → v < 256
    → Readable m 1
    → Holds m.buffer m.position (le_bytes 1 v)
    → get_byte m ≡ (v, advance 1 m)
unfolding le_bytes
get_byte-Holds v m h r held = ground (arith, get_byte_lem m r)

get_string-Holds :
    (bs : List ℕ) (m : NetworkMessage)
    → length bs ≤ 8192
    → Readable m (2 + length bs)
    → Holds m.buffer m.position (le_bytes 2 (length bs) ++ bs)
    → get_string 0 m ≡ (bs, advance (2 + length bs) m)
get_string-Holds bs m h r held =
    let prefix = le_bytes 2 (length bs) in
    let lp : length prefix ≡ 2 = length-le_bytes 2 (length bs) in
    let first : get 2 m ≡ (length bs, advance 2 m) =
      get-Holds 2 (length bs) m (omega arith) (omega arith)
        (Holds-append m.buffer m.position prefix bs held).0 in
    let tail : Holds (advance 2 m).buffer (advance 2 m).position bs =
      rw lp at (Holds-advance prefix bs m (omega (arith, lp)) held) in
    let second = get_bytes-Holds bs (advance 2 m) (Readable-advance 2 (length bs) m r).0 tail in
    steps first ∙ second ∙ rw (advance-advance 2 (length bs) m)
  where
    steps :
        get 2 m ≡ (length bs, advance 2 m) → get_string 0 m ≡ get_bytes (length bs) (advance 2 m)
    steps e = unfold get_string in rw e

get_position-Holds :
    (pos : Position) (m : NetworkMessage)
    → Fits (Field.place pos)
    → Readable m 5
    → Holds m.buffer m.position (encode (Field.place pos))
    → get_position m ≡ (pos, advance 5 m)
get_position-Holds pos m h r held =
    let xs = le_bytes 2 pos.x in
    let ys = le_bytes 2 pos.y in
    let zs = le_bytes 1 pos.z in
    let lx : length xs ≡ 2 = length-le_bytes 2 pos.x in
    let ly : length ys ≡ 2 = length-le_bytes 2 pos.y in
    let lxy : length (xs ++ ys) ≡ 4 = omega (arith, length-append xs ys, lx, ly) in
    let xy = (Holds-append m.buffer m.position (xs ++ ys) zs held).0 in
    let fst : get 2 m ≡ (pos.x, advance 2 m) =
      get-Holds 2 pos.x m (omega arith) h.0 (Holds-append m.buffer m.position xs ys xy).0 in
    let at_y = rw lx at (Holds-advance xs ys m (omega (arith, lx)) xy) in
    let snd : get 2 (advance 2 m) ≡ (pos.y, advance 4 m) =
      get-Holds 2 pos.y (advance 2 m) (Readable-advance 2 2 m (omega arith)).0 h.1 at_y
      ∙ rw (advance-advance 2 2 m) in
    let at_z = rw lxy at (Holds-advance (xs ++ ys) zs m (omega (arith, lxy)) held) in
    let thd : get_byte (advance 4 m) ≡ (pos.z, advance 5 m) =
      get_byte-Holds pos.z (advance 4 m) h.2 (Readable-advance 4 1 m r).0 at_z
      ∙ rw (advance-advance 4 1 m) in
    unfold get_position in rw (fst, snd, thd)

-- Where a field's bytes stand at the position, `read` returns the field and moves past it.
pub read_lem :
    (f : Field) (m : NetworkMessage)
    → Fits f
    → Readable m (size f)
    → Holds m.buffer m.position (encode f)
    → read (shape f) m ≡ (f, advance (size f) m)
unfolding read shape
read_lem (Field.byte v) m h r held = rw (get_byte-Holds v m h r held)
read_lem (Field.word n v) m h r held = rw (get-Holds n v m r h held)
read_lem (Field.text bs) m h r held = rw (get_string-Holds bs m h r held)
read_lem (Field.place pos) m h r held = rw (get_position-Holds pos m h r held)
