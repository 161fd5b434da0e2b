-- ===== src/Network/Connection/Delivery.antt =====
-- From one end of a connection to the other: a message that the sender's protocol frames reaches
-- the parser of a receiver that shares the key.
use forgotten_land.Base.{
  ℕ, ◌+◌, ◌-◌, ◌*◌, ◌/◌, ◌%◌, ◌^◌, ◌≤◌, ◌<◌, ◌≡◌, refl, ap, ◌⊎◌, inl, inr, Bool, true, false, List,
  [], ◌∷◌, some, arith, Bool-cases, ltb, leb, ◌==◌, if◌then◌else◌, ◌&&◌, ◌||◌, not,
}
use forgotten_land.Base.Bits.{bit_or-shift}
use forgotten_land.Base.Words.{u16, u32}
use forgotten_land.Network.Message.{
  NetworkMessage, max_size, max_body_length, get, advance, set_length, get_length_header,
  get_body_buffer,
}
use forgotten_land.Network.Message.Access.{get_lem}
use forgotten_land.Network.Message.Bytes.{Buffer, store, load, le_bytes, length-le_bytes, Holds}
use forgotten_land.Network.Output.{OutputMessage}
use forgotten_land.Network.Protocol.{Protocol, on_send_message, on_recv_message}
use forgotten_land.Network.Protocol.Frame.{IsFrame, IsWritten, on_send_message-IsFrame}
use forgotten_land.Network.Protocol.Memory.{Holds-ext, store-load}
use forgotten_land.Network.Protocol.Unframe.{
  IsDelivered, delivered, delivered-IsDelivered, on_recv_message-frame,
}
use forgotten_land.Network.Connection.{
  Connection, ConnectionState, Action, Handled, read_body, time_passed, parse_header, parse_packet,
}

-- A connection in the game state that has had its first message.
abbrev pub established : Protocol → Connection → Connection
established r c = record c {
  state = ConnectionState.game;
  protocol = some r;
  received_first = true;
}

-- The socket copies `n` bytes of the stream `src` to the buffer from `index` on.
abbrev pub feed : ℕ → ℕ → Buffer → Connection → Connection
feed index n src c =
    let m = c.msg in
    record c { msg = record m { buffer = store m.buffer index (load src index n) } }

get_length_header-Holds :
    (m : NetworkMessage) (v : ℕ)
    → v < 2 ^ 16
    → Holds m.buffer 0 (le_bytes 2 v)
    → get_length_header m ≡ v
unfolding get_length_header le_bytes
get_length_header-Holds m v h held =
    rw (held.0, held.1.0) (omega (arith, bit_or-shift 8 (v % 256) (v / 256 % 256) (omega arith)))

-- The state in which the body of `v` bytes is read.
ready : ℕ → ℕ → ℕ → Connection → Connection
ready now passed v c =
    let m = c.msg in
    let c' : Connection =
      if ltb 2 passed
      then record c { time_connected = now; packets_sent = 0 }
      else record c { packets_sent = u32 (c.packets_sent + 1) } in
    record c' { msg = record m { length = u16 (v + 2); position = 2 } }

msg-ready :
    (now passed v : ℕ) (c : Connection)
    → let m = c.msg in (ready now passed v c).msg ≡ record m { length = u16 (v + 2); position = 2 }
unfolding ready
msg-ready now passed v c = refl

and_false : (b : Bool) → (b && false) ≡ false
and_false true = refl
and_false false = refl

counted : Connection → Connection
counted c = record c { packets_sent = u32 (c.packets_sent + 1) }

module _ (r : Protocol) where
  read_body_game :
      (c : Connection) (now passed v : ℕ)
      → get_length_header c.msg ≡ v
      → 0 < v
      → v < max_size - 16
      → read_body now passed (established r (counted c))
        ≡ (established r (ready now passed v c), Action.read_into 2 v ∷ [])
  unfolding read_body ready counted set_length get_body_buffer
  read_body_game c now passed v size pos small =
      let e : (v == 0) || leb (max_size - 16) v ≡ false = ground arith in
      elim (Bool-cases c.received_last_char) [
        | inl a ↦ elim (Bool-cases (ltb 2 passed)) [
          | inl b ↦ rw (a, b, size, e)
          | inr b ↦ rw (a, b, size, e)
        ]
        | inr a ↦ elim (Bool-cases (ltb 2 passed)) [
          | inl b ↦ rw (a, b, size, e)
          | inr b ↦ rw (a, b, size, e)
        ]
      ]

  parse_packet_game :
      (c : Connection) (got : NetworkMessage)
      → c.msg.position ≡ 2
      → on_recv_message r (advance 4 c.msg) ≡ some (true, got)
      → parse_packet false (established r c)
        ≡ some (
          established r (record c { msg = got }),
          Action.parse_packet_of got ∷ Action.read_into 0 2 ∷ [],
        )
  unfolding parse_packet
  parse_packet_game c got pos received =
      let e : (get 4 c.msg).1 ≡ advance 4 c.msg =
        ap (λ (x : ℕ × NetworkMessage). x.1) (get_lem 4 c.msg (omega arith)) in
      rw (e, received)

module _ (max_packets : ℕ) (name : List ℕ) (now : ℕ) (r : Protocol) where
  parse_header_game :
      (c : Connection) (v : ℕ)
      → ltb (u32 max_packets) (u32 (c.packets_sent + 1) / time_passed now c) ≡ false
      → get_length_header c.msg ≡ v
      → 0 < v
      → v < max_size - 16
      → parse_header max_packets name false now (established r c)
        ≡ (established r (ready now (time_passed now c) v c), Action.read_into 2 v ∷ [])
  unfolding parse_header time_passed counted
  parse_header_game c v rate size pos small =
      rw (rate, and_false (not c.received_last_char))
        (read_body_game r c now (time_passed now c) v size pos small)

  module _ (m : NetworkMessage) (o : OutputMessage) (f : IsFrame r.key m o)
      (small : m.length + 16 < max_body_length) (c : Connection)
      (rate : ltb (u32 max_packets) (u32 (c.packets_sent + 1) / time_passed now c) ≡ false) where
    abbrev wire : Buffer
    wire = o.msg.buffer

    abbrev body_size : ℕ
    body_size = 8 * f.q + 4

    abbrev waiting : Connection
    waiting = ready now (time_passed now c) body_size (feed 0 2 wire c)

    header_read :
        parse_header max_packets name false now (established r (feed 0 2 wire c))
        ≡ (established r waiting, Action.read_into 2 body_size ∷ [])
    unfolding time_passed
    header_read =
        let c₀ = feed 0 2 wire c in
        let held : Holds c₀.msg.buffer 0 (le_bytes 2 body_size) =
          Holds-ext wire c₀.msg.buffer 0 (le_bytes 2 body_size)
            (λ i lo hi.
              store-load wire c.msg.buffer 0 2 i lo (omega (arith, length-le_bytes 2 body_size)))
            f.header in
        parse_header_game c₀ body_size rate
          (get_length_header-Holds c₀.msg body_size (omega (arith, f.tight)) held) (omega arith)
          (omega (arith, f.tight))

    abbrev fed : NetworkMessage
    fed = (feed 2 body_size wire waiting).msg

    body_held : Holds (advance 4 fed).buffer 6 f.cipher
    unfolding ready advance
    body_held =
        Holds-ext wire fed.buffer 6 f.cipher
          (λ i lo hi.
            store-load wire (feed 0 2 wire c).msg.buffer 2 body_size i (omega arith)
              (omega (arith, f.blocks)))
          f.body

    counters :
        (fed.position ≡ 2) × ((advance 4 fed).position ≡ 6) × ((advance 4 fed).length ≡ 8 * f.q + 6)
    unfolding ready advance
    counters = (refl, refl, omega (arith, f.tight))

    body_read :
        r.encryption_enabled ≡ true
        → parse_packet false (established r (feed 2 body_size wire waiting))
          ≡ some (
            established r (record waiting { msg = delivered r m o f small (advance 4 fed) }),
            Action.parse_packet_of (delivered r m o f small (advance 4 fed))
                ∷ Action.read_into 0 2
                ∷ [],
          )
    body_read enc =
        parse_packet_game r (feed 2 body_size wire waiting) _ counters.0
          (on_recv_message-frame r m o f small (advance 4 fed) counters.1 counters.2 body_held enc)

-- What the protocol of a sender makes of a message that was only written to (encrypting, and
-- numbering or checking its messages), a receiver in the game state with the same key and within
-- its packet rate hands to its parser: after the two bytes of the size it asks for exactly the rest
-- of the frame, which is all that is on the wire, then calls parsePacket with a message of the same
-- length and bytes, at its first byte, and waits for the next frame.
pub parse_packet-on_send_message :
    (max_packets : ℕ) (name : List ℕ) (now : ℕ) (p r : Protocol) (m : NetworkMessage)
    (c : Connection)
    → IsWritten m
    → p.raw_messages ≡ false
    → p.encryption_enabled ≡ true
    → (p.compact_crypt ≡ true) ⊎ (p.checksum_enabled ≡ true)
    → r.key ≡ p.key
    → r.encryption_enabled ≡ true
    → u32 (c.packets_sent + 1) / time_passed now c ≤ u32 max_packets
    → (o : OutputMessage) × (p' : Protocol) × (size : ℕ) × (on_send_message p
          (record { msg = m; output_buffer_start = 8 })
        ≡ some (o, p'))
      × (o.output_buffer_start ≡ 0)
      × (o.msg.length ≡ size + 2)
      × (let headed =
            parse_header max_packets name false now (established r (feed 0 2 o.msg.buffer c)) in
          (headed.1 ≡ Action.read_into 2 size ∷ [])
          × ((c' : Connection) × (got : NetworkMessage) × (parse_packet false
                  (feed 2 size o.msg.buffer headed.0)
                ≡ some (c', Action.parse_packet_of got ∷ Action.read_into 0 2 ∷ []))
              × IsDelivered m got))
parse_packet-on_send_message max_packets name now p r m c w raw enc numbered key enc' rate =
    let (o, sent, frame) = on_send_message-IsFrame p m w raw enc numbered in
    let f : IsFrame r.key m o = rw key frame in
    let small = w.room in
    let in_rate : ltb (u32 max_packets) (u32 (c.packets_sent + 1) / time_passed now c) ≡ false =
      ground arith in
    let header = header_read max_packets name now r m o f small c in_rate in
    let body = body_read max_packets name now r m o f small c in_rate enc' in
    let at = counters max_packets name now r m o f small c in_rate in
    let held = body_held max_packets name now r m o f small c in_rate in
    let arrived = advance 4 (fed max_packets name now r m o f small c in_rate) in
    let got = delivered r m o f small arrived in
    let next : Connection = record (waiting max_packets name now r m o f small c in_rate) {
      msg = got;
    } in
    (
      o,
      _,
      8 * f.q + 4,
      sent,
      f.start,
      omega (arith, f.total),
      (
        ap (λ (h : Handled). h.1) header,
        (
          established r next,
          got,
          rw header body,
          delivered-IsDelivered r m o f small arrived at.1 at.2 held,
        ),
      ),
    )
