-- ===== src/Network/Connection/Conversation.antt =====
-- From the `add…` calls of the game on one side to the `get…` calls of a parser on the other, through
-- src/server/network/protocol/protocol.cpp and src/server/network/connection/connection.cpp.
use forgotten_land.Base.{
  ℕ, ◌+◌, ◌/◌, ◌≤◌, ◌<◌, ◌≡◌, refl, ap, ◌⊎◌, true, false, List, [], ◌∷◌, some, map, All, AreBytes,
  arith,
}
use forgotten_land.Base.Words.{u32}
use forgotten_land.Network.Message.{NetworkMessage, max_body_length, put, reset}
use forgotten_land.Network.Message.Bytes.{Holds, store-Holds, store}
use forgotten_land.Network.Message.Fields.{Field, shape, Fits}
use forgotten_land.Network.Message.RoundTrip.{
  write_all, read_all, encode_all, total, length-encode_all, write_all_lem, read_all_lem,
  reset_counters,
}
use forgotten_land.Network.Output.{OutputMessage}
use forgotten_land.Network.Protocol.{Protocol, on_send_message}
use forgotten_land.Network.Protocol.Frame.{IsWritten}
use forgotten_land.Network.Protocol.Memory.{IsBytes, Holds-ext, store-IsBytes}
use forgotten_land.Network.Protocol.Unframe.{IsDelivered}
use forgotten_land.Network.Connection.{Connection, Action, time_passed, parse_header, parse_packet}
use forgotten_land.Network.Connection.Delivery.{established, feed, parse_packet-on_send_message}

module _ (fs : List Field) (m : NetworkMessage) (fits : All Fits fs)
    (room : 16 + total fs < max_body_length) where
  written_lem : write_all fs (reset m) ≡ put (encode_all fs) (reset m)
  written_lem =
      write_all_lem fs (reset m) fits (omega (arith, reset_counters m))
        (omega (arith, reset_counters m))

  put_facts :
      ((put (encode_all fs) (reset m)).length ≡ total fs)
      × ((put (encode_all fs) (reset m)).position ≡ 8 + total fs)
      × ((put (encode_all fs) (reset m)).buffer ≡ store m.buffer 8 (encode_all fs))
  unfolding put reset
  put_facts = (omega (arith, length-encode_all fs), omega (arith, length-encode_all fs), refl)

  write_all-IsWritten :
      IsBytes m.buffer → AreBytes (encode_all fs) → IsWritten (write_all fs (reset m))
  write_all-IsWritten bytes are = rw written_lem (record {
    at_end = omega (arith, put_facts);
    room = omega (arith, put_facts);
    bytes = rw put_facts.2 (store-IsBytes m.buffer 8 (encode_all fs) bytes are);
  })

  read_all-IsDelivered :
      (got : NetworkMessage)
      → IsDelivered (write_all fs (reset m)) got
      → (read_all (map shape fs) got).0 ≡ fs
  read_all-IsDelivered got d =
      let d' : IsDelivered (put (encode_all fs) (reset m)) got = rw written_lem at d in
      let held : Holds got.buffer 8 (encode_all fs) =
        Holds-ext (put (encode_all fs) (reset m)).buffer got.buffer 8 (encode_all fs)
          (λ k lo hi. d'.content k lo (omega (arith, put_facts, length-encode_all fs)))
          (rw put_facts.2 (store-Holds m.buffer 8 (encode_all fs))) in
      ap (λ r. r.0)
        (read_all_lem fs got fits (omega (arith, d'.length, d'.position, put_facts))
          (rw d'.position held))

-- What the game wrote is what a parser reads. Fields that fit their types and the body, made of
-- bytes, are written to a fresh message; the protocol of the sender frames it and an established
-- receiver with the same key and within its packet rate is fed the frame. The receiver calls
-- `parsePacket` with a message from which the matching calls read the same fields in order.
pub read_all-on_send_message :
    (max_packets : ℕ) (name : List ℕ) (now : ℕ) (p r : Protocol) (fs : List Field)
    (m : NetworkMessage) (c : Connection)
    → All Fits fs
    → AreBytes (encode_all fs)
    → 16 + total fs < max_body_length
    → IsBytes m.buffer
    → p.raw_messages ≡ false
    → p.encryption_enabled ≡ true
    → (p.compact_crypt ≡ true) ⊎ (p.checksum_enabled ≡ true)
    → r.key ≡ p.key
    → r.encryption_enabled ≡ true
    → u32 (c.packets_sent + 1) / time_passed now c ≤ u32 max_packets
    → (o : OutputMessage) × (p' : Protocol) × (size : ℕ) × (on_send_message p
          (record { msg = write_all fs (reset m); output_buffer_start = 8 })
        ≡ some (o, p'))
      × (let headed =
            parse_header max_packets name false now (established r (feed 0 2 o.msg.buffer c)) in
          (headed.1 ≡ Action.read_into 2 size ∷ [])
          × ((c' : Connection) × (got : NetworkMessage) × (parse_packet false
                  (feed 2 size o.msg.buffer headed.0)
                ≡ some (c', Action.parse_packet_of got ∷ Action.read_into 0 2 ∷ []))
              × ((read_all (map shape fs) got).0 ≡ fs)))
read_all-on_send_message max_packets name now p r fs m c fits are room bytes raw enc numbered key
      enc' rate =
    let (o, p', size, sent, _, _, (asks, (c', got, parsed, d))) =
      parse_packet-on_send_message max_packets name now p r (write_all fs (reset m)) c
        (write_all-IsWritten fs m fits room bytes are) raw enc numbered key enc' rate in
    (o, p', size, sent, (asks, (c', got, parsed, read_all-IsDelivered fs m fits room got d)))
