-- ===== src/Network/Protocol.antt =====
-- `Protocol` of src/server/network/protocol/protocol.{h,cpp}: what happens to a message between
-- the game and the socket. A fault (an assertion, or memory read past the message) is `none`.
pub mod Memory
pub mod Frame
pub mod Unframe
use forgotten_land.Base.{
  ℕ, ◌+◌, ◌-◌, ◌%◌, ◌^◌, Bool, true, false, not, List, Option, none, some, ◌>>=◌, ltb, ◌==◌,
  if◌then◌else◌,
}
use forgotten_land.Network.Message.{
  NetworkMessage, max_body_length, get, set_length, add_padding_bytes,
}
use forgotten_land.Network.Message.Bytes.{store, load}
use forgotten_land.Network.Output.{OutputMessage, output, write_message_length, add_crypto_header}
use forgotten_land.Network.Xtea.{Key, encrypt, decrypt}

pub record Protocol : Type 0 where
  pub key : Key
  pub sequence_number : ℕ
  pub encryption_enabled : Bool
  pub checksum_enabled : Bool
  pub compact_crypt : Bool
  pub raw_messages : Bool

-- The padding that makes a length a multiple of 8.
unfoldable pub pad : OutputMessage → OutputMessage
pad o =
    let padding_bytes = o.msg.length % 8 in
    if padding_bytes == 0 then o else record o { msg = add_padding_bytes (8 - padding_bytes) o.msg }

unfoldable pub xtea_encrypt : Protocol → OutputMessage → Option OutputMessage
xtea_encrypt p o =
    let o' = pad o in
    let m = o'.msg in
    do
      bytes ← encrypt p.key (output o')
      some (record o' { msg = record m { buffer = store m.buffer o'.output_buffer_start bytes } })

-- `(length - 6) & 7` is computed in `int`: of a length below 6 it is not 0.
unfoldable pub xtea_decrypt : Protocol → NetworkMessage → Option (Bool × NetworkMessage)
xtea_decrypt p m = if not ((m.length + 2) % 8 == 0) then some (false, m) else (do
  bytes ← decrypt p.key (load m.buffer m.position (m.length - 6))
  let m' : NetworkMessage = record m { buffer = store m.buffer m.position bytes }
  let (inner_length, m'') = get 2 m'
  if ltb m''.length (inner_length + 8)
      then some (false, m'')
      else some (true, set_length inner_length m''))

unfoldable pub on_send_message : Protocol → OutputMessage → Option (OutputMessage × Protocol)
on_send_message p o = if p.raw_messages then some (o, p) else (do
  o₁ ← write_message_length o
  if not p.encryption_enabled then some (o₁, p) else (do
    o₂ ← xtea_encrypt p o₁
    (o₃, sequence) ←
        add_crypto_header (if p.compact_crypt then 2 else if p.checksum_enabled then 1 else 0)
          p.sequence_number o₂
    some (o₃, record p { sequence_number = sequence })))

-- Whether `parsePacket` is called, and the message, which is decrypted in place.
unfoldable pub on_recv_message : Protocol → NetworkMessage → Option (Bool × NetworkMessage)
on_recv_message p m = if not p.encryption_enabled then some (true, m) else xtea_decrypt p m
