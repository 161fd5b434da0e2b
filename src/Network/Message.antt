-- ===== src/Network/Message.antt =====
-- `NetworkMessage` of src/server/network/message/networkmessage.{h,cpp}: a fixed buffer of bytes
-- with a length, a position and an overrun flag. The buffer is a function of the index, so the
-- bytes that the constructor leaves uninitialised are arbitrary; an index from `max_size` on is
-- outside the array. `get<T>` and `add<T>` copy memory: words are little endian, as on the
-- machines that the server is built for. Strings are lists of bytes.
pub mod Bytes
pub mod Access
pub mod Fields
pub mod RoundTrip
pub mod Bounds
use Prim.Native.Nat.{bit_or}
use forgotten_land.Base.{
  ℕ, zero, suc, ◌+◌, ◌-◌, ◌*◌, ◌^◌, Bool, true, false, ◌||◌, not, List, [], ◌∷◌, ltb, leb, ◌==◌,
  if◌then◌else◌, length,
}
use forgotten_land.Base.Words.{u16, u64}
use Bytes.{Buffer, store, load, le_bytes, from_le, replicate}

-- NETWORKMESSAGE_MAXSIZE of utils/const.h, the size of the array.
abbrev pub max_size : ℕ
max_size = 24590

-- NETWORKMESSAGE_MAXSIZE - HEADER_LENGTH - CHECKSUM_LENGTH - XTEA_MULTIPLE
abbrev pub max_body_length : ℕ
max_body_length = max_size - 2 - 4 - 8

abbrev pub initial_buffer_position : ℕ
initial_buffer_position = 8

pub record NetworkMessage : Type 0 where
  pub buffer : Buffer
  pub length : ℕ
  pub position : ℕ
  pub overrun : Bool

pub record Position : Type 0 where
  pub x : ℕ
  pub y : ℕ
  pub z : ℕ

unfoldable pub reset : NetworkMessage → NetworkMessage
reset m = record m { length = 0; position = initial_buffer_position; overrun = false }

-- The sum is a `size_t`, which wraps.
unfoldable pub can_add : NetworkMessage → ℕ → Bool
can_add m size = ltb (u64 (size + m.position)) max_body_length

-- `max_size - position` is at most 0 in the source where it is 0 here, and sizes are not negative.
unfoldable pub can_read : NetworkMessage → ℕ → Bool × NetworkMessage
can_read m size =
    if ltb (m.length + 8) (m.position + size) || leb (max_size - m.position) size
    then (false, record m { overrun = true })
    else (true, m)

-- `info.position += size`
unfoldable pub advance : ℕ → NetworkMessage → NetworkMessage
advance size m = record m { position = u16 (m.position + size) }

-- `memcpy(buffer + info.position, …)`, and both counters move on.
unfoldable pub put : List ℕ → NetworkMessage → NetworkMessage
put bytes m = record m {
  buffer = store m.buffer m.position bytes;
  position = u16 (m.position + length bytes);
  length = u16 (m.length + length bytes);
}

unfoldable pub get_byte : NetworkMessage → ℕ × NetworkMessage
get_byte m =
    let (fits, m') = can_read m 1 in if fits then (m'.buffer m'.position, advance 1 m') else (0, m')

-- `get<T>` at a `T` of `size` bytes.
unfoldable pub get : ℕ → NetworkMessage → ℕ × NetworkMessage
get size m =
    let (fits, m') = can_read m size in
    if fits then (from_le (load m'.buffer m'.position size), advance size m') else (0, m')

unfoldable pub get_previous_byte : NetworkMessage → ℕ × NetworkMessage
get_previous_byte m =
    let m' : NetworkMessage = record m { position = u16 (m.position + (2 ^ 16 - 1)) } in
    (m'.buffer m'.position, m')

-- The part of `getString` after the length is known.
unfoldable pub get_bytes : ℕ → NetworkMessage → List ℕ × NetworkMessage
get_bytes size m =
    let (fits, m') = can_read m size in
    if fits then (load m'.buffer m'.position size, advance size m') else ([], m')

unfoldable pub get_string : ℕ → NetworkMessage → List ℕ × NetworkMessage
get_string string_len m =
    let (size, m') = get 2 m in
    if string_len == 0 then get_bytes size m' else get_bytes string_len m

unfoldable pub get_position : NetworkMessage → Position × NetworkMessage
get_position m =
    let (x, m₁) = get 2 m in
    let (y, m₂) = get 2 m₁ in let (z, m₃) = get_byte m₂ in (record { x = x; y = y; z = z }, m₃)

-- `count` is the bit pattern of the `int16_t`, so -4 is `2 ^ 16 - 4`.
unfoldable pub skip_bytes : ℕ → NetworkMessage → NetworkMessage
skip_bytes count m = advance count m

-- The parameter is a `uint8_t`, which cuts the argument to a byte.
unfoldable pub add_byte : ℕ → NetworkMessage → NetworkMessage
add_byte value m = if can_add m 1 then put (le_bytes 1 value) m else m

-- `add<T>` at a `T` of `size` bytes, which cuts the argument to that width.
unfoldable pub add : ℕ → ℕ → NetworkMessage → NetworkMessage
add size value m = if can_add m size then put (le_bytes size value) m else m

unfoldable pub add_bytes : List ℕ → NetworkMessage → NetworkMessage
add_bytes bytes m =
    if not (can_add m (length bytes)) || ltb 8192 (length bytes) then m else put bytes m

-- The padding follows the last byte; the position stays before it.
unfoldable pub add_padding_bytes : ℕ → NetworkMessage → NetworkMessage
add_padding_bytes n m = if not (can_add m n) then m else record m {
  buffer = store m.buffer m.position (replicate n 0x33);
  length = u16 (m.length + n);
}

unfoldable pub add_string : List ℕ → NetworkMessage → NetworkMessage
add_string value m =
    if not (can_add m (length value + 2)) || ltb 8192 (length value)
    then m
    else put value (add 2 (length value) m)

unfoldable pub add_position : Position → NetworkMessage → NetworkMessage
add_position pos m = add_byte pos.z (add 2 pos.y (add 2 pos.x m))

-- The item table is the server's data: `client_id` stands for `Item::items[itemId].clientId`.
unfoldable pub add_item_id : (ℕ → ℕ) → ℕ → NetworkMessage → NetworkMessage
add_item_id client_id item_id m = add 2 (client_id item_id) m

unfoldable pub set_length : ℕ → NetworkMessage → NetworkMessage
set_length new_length m = record m { length = u16 new_length }

unfoldable pub set_buffer_position : ℕ → NetworkMessage → NetworkMessage
set_buffer_position new_position m = record m { position = u16 new_position }

unfoldable pub get_length_header : NetworkMessage → ℕ
get_length_header m = u16 (bit_or (m.buffer 0) (m.buffer 1 * 2 ^ 8))

unfoldable pub decode_header : NetworkMessage → ℕ × NetworkMessage
decode_header m =
    let new_size = bit_or (m.buffer 0) (m.buffer 1 * 2 ^ 8) in
    (u16 new_size, record m { length = u16 new_size })

-- Returns the index that the body starts at.
unfoldable pub get_body_buffer : NetworkMessage → ℕ × NetworkMessage
get_body_buffer m = (2, record m { position = 2 })
