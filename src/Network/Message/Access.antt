-- ===== src/Network/Message/Access.antt =====
-- What the accessors of `NetworkMessage` do where they fit: a read returns the bytes at the
-- position and moves it on, a write is one copy.
use forgotten_land.Base.{ℕ, ◌+◌, ◌^◌, ◌≤◌, ◌<◌, ◌≡◌, ◌∙◌, List, ◌++◌, length, length-append, arith}
use forgotten_land.Base.Words.{u16}
use forgotten_land.Network.Message.{
  NetworkMessage, max_size, max_body_length, put, advance, can_add, can_read, get, get_byte,
  get_bytes, add, add_byte,
}
use forgotten_land.Network.Message.Bytes.{
  store-append, load, load-Holds, Holds, le_bytes, length-le_bytes, from_le, from_le-le_bytes,
}

abbrev pub Readable : NetworkMessage → ℕ → Type 0
Readable m size = (m.position + size ≤ m.length + 8) × (m.position + size < max_size)

pub get_lem :
    (size : ℕ) (m : NetworkMessage)
    → Readable m size
    → get size m ≡ (from_le (load m.buffer m.position size), advance size m)
unfolding get can_read
get_lem size m h = ground arith

pub get_byte_lem :
    (m : NetworkMessage) → Readable m 1 → get_byte m ≡ (m.buffer m.position, advance 1 m)
unfolding get_byte can_read
get_byte_lem m h = ground arith

pub get_bytes_lem :
    (size : ℕ) (m : NetworkMessage)
    → Readable m size
    → get_bytes size m ≡ (load m.buffer m.position size, advance size m)
unfolding get_bytes can_read
get_bytes_lem size m h = ground arith

-- A word that stands at the position.
pub get-Holds :
    (size v : ℕ) (m : NetworkMessage)
    → Readable m size
    → v < 256 ^ size
    → Holds m.buffer m.position (le_bytes size v)
    → get size m ≡ (v, advance size m)
get-Holds size v m r h held =
    let e = load-Holds m.buffer m.position (le_bytes size v) held in
    let e' : load m.buffer m.position size ≡ le_bytes size v = rw (length-le_bytes size v) at e in
    get_lem size m r ∙ rw e' (rw (from_le-le_bytes size v h))

pub get_bytes-Holds :
    (bs : List ℕ) (m : NetworkMessage)
    → Readable m (length bs)
    → Holds m.buffer m.position bs
    → get_bytes (length bs) m ≡ (bs, advance (length bs) m)
get_bytes-Holds bs m r held =
    get_bytes_lem (length bs) m r ∙ rw (load-Holds m.buffer m.position bs held)

pub put-append :
    (xs ys : List ℕ) (m : NetworkMessage)
    → m.position + length xs < 2 ^ 16
    → put ys (put xs m) ≡ put (xs ++ ys) m
unfolding put
put-append xs ys m h =
    let e : u16 (m.position + length xs) ≡ m.position + length xs = omega arith in
    let p : u16 (m.position + length xs + length ys) ≡ u16 (m.position + length (xs ++ ys)) =
      omega (arith, length-append xs ys) in
    let l : u16 (u16 (m.length + length xs) + length ys) ≡ u16 (m.length + length (xs ++ ys)) =
      omega (arith, length-append xs ys) in
    rw (e, p, l, store-append m.buffer m.position xs ys)

pub add_lem :
    (size v : ℕ) (m : NetworkMessage)
    → m.position + size < max_body_length
    → add size v m ≡ put (le_bytes size v) m
unfolding add can_add
add_lem size v m h = ground arith

pub add_byte_lem :
    (v : ℕ) (m : NetworkMessage)
    → m.position + 1 < max_body_length
    → add_byte v m ≡ put (le_bytes 1 v) m
unfolding add_byte can_add
add_byte_lem v m h = ground arith
