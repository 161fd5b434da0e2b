-- ===== src/Network/Output.antt =====
-- `OutputMessage` of src/server/network/message/outputmessage.h: a message whose headers are
-- written in front of its body, from index 8 down. An assertion that fails is `none`.
use forgotten_land.Base.{ℕ, ◌+◌, ◌-◌, List, Option, none, some, ◌>>=◌, ltb, ◌==◌, if◌then◌else◌}
use forgotten_land.Base.Words.{u16, u32}
use forgotten_land.Network.Message.{NetworkMessage, put}
use forgotten_land.Network.Message.Bytes.{store, load, le_bytes}
use forgotten_land.Network.Adler.{adler_checksum}

pub record OutputMessage : Type 0 where
  pub msg : NetworkMessage
  pub output_buffer_start : ℕ

-- `add_header` at a type of `size` bytes.
unfoldable pub add_header : ℕ → ℕ → OutputMessage → Option OutputMessage
add_header size header o =
    let start = o.output_buffer_start - size in
    let m = o.msg in
    if ltb o.output_buffer_start size
    then none
    else some (record {
      msg = record m {
        buffer = store m.buffer start (le_bytes size header);
        length = u16 (m.length + size);
      };
      output_buffer_start = start;
    })

unfoldable pub write_message_length : OutputMessage → Option OutputMessage
write_message_length o = add_header 2 o.msg.length o

-- The bytes from the first header to the end.
unfoldable pub output : OutputMessage → List ℕ
output o = load o.msg.buffer o.output_buffer_start o.msg.length

-- The sequence number is a reference that the call may count up.
unfoldable pub add_crypto_header : ℕ → ℕ → OutputMessage → Option (OutputMessage × ℕ)
add_crypto_header add_checksum sequence o =
    if add_checksum == 1
    then (do
      o' ← add_header 4 (adler_checksum (output o)) o
      o'' ← write_message_length o'
      some (o'', sequence))
    else if add_checksum == 2
    then (do
      o' ← add_header 4 sequence o
      o'' ← write_message_length o'
      some (o'', u32 (sequence + 1)))
    else (do o' ← write_message_length o; some (o', sequence))

-- Both overloads: the body of another message is copied with no check of the room.
unfoldable pub append : NetworkMessage → OutputMessage → OutputMessage
append other o = record o { msg = put (load other.buffer 8 other.length) o.msg }
