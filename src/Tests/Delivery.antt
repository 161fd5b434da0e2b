-- ===== src/Tests/Delivery.antt =====
-- A message of three bytes on its way through a connection.
use forgotten_land.Base.{
  ℕ, ◌+◌, ◌/◌, ◌≤◌, ◌≡◌, refl, List, AreBytes, map, true, false, [], ◌∷◌, none, some, inr, arith,
}
use forgotten_land.Network.Message.{NetworkMessage, reset}
use forgotten_land.Network.Message.Bytes.{le_bytes}
use forgotten_land.Network.Message.Fields.{Field, shape}
use forgotten_land.Network.Message.RoundTrip.{encode_all, write_all, read_all}
use forgotten_land.Network.Output.{OutputMessage}
use forgotten_land.Network.Protocol.{Protocol, on_send_message}
use forgotten_land.Network.Protocol.Frame.{IsWritten}
use forgotten_land.Network.Protocol.Unframe.{IsDelivered}
use forgotten_land.Network.Connection.{
  Connection, ConnectionState, Action, time_passed, parse_header, parse_packet,
}
use forgotten_land.Network.Connection.Conversation.{read_all-on_send_message}
use forgotten_land.Network.Connection.Delivery.{established, feed, parse_packet-on_send_message}

abbrev key : ℕ → ℕ
key i = 77 + i

abbrev protocol : Protocol
protocol = record {
  key = key;
  sequence_number = 5;
  encryption_enabled = true;
  checksum_enabled = true;
  compact_crypt = false;
  raw_messages = false;
}

abbrev message : NetworkMessage
message = record { buffer = λ k. 3; length = 3; position = 11; overrun = false }

abbrev client : Connection
client = record {
  msg = record { buffer = λ k. 0; length = 0; position = 8; overrun = false };
  message_queue = [];
  services = [];
  protocol = none;
  time_connected = 100;
  packets_sent = 1;
  state = ConnectionState.pending;
  received_first = false;
  server_name_time = 0;
  received_name = false;
  received_last_char = true;
}

message-IsWritten : IsWritten message
message-IsWritten = record { at_end = omega arith; room = omega arith; bytes = λ k. omega arith }

in_rate : 2 / time_passed 101 client ≤ 25
unfolding time_passed
in_rate = omega arith

parse_packet-on_send_message_example :
    (o : OutputMessage) × (p' : Protocol) × (size : ℕ) × (on_send_message protocol
        (record { msg = message; output_buffer_start = 8 })
      ≡ some (o, p'))
    × (o.output_buffer_start ≡ 0)
    × (o.msg.length ≡ size + 2)
    × (let headed =
          parse_header 25 [] false 101 (established protocol (feed 0 2 o.msg.buffer client)) in
        (headed.1 ≡ Action.read_into 2 size ∷ [])
        × ((c' : Connection) × (got : NetworkMessage) × (parse_packet false
                (feed 2 size o.msg.buffer headed.0)
              ≡ some (c', Action.parse_packet_of got ∷ Action.read_into 0 2 ∷ []))
            × IsDelivered message got))
parse_packet-on_send_message_example =
    parse_packet-on_send_message 25 [] 101 protocol protocol message client message-IsWritten refl
      refl (inr refl) refl refl in_rate

-- The answer of a login: an opcode, a number and a name.
abbrev answer : List Field
answer = Field.byte 0x14 ∷ Field.word 4 70000 ∷ Field.text (71 ∷ 111 ∷ 100 ∷ []) ∷ []

answer-AreBytes : AreBytes (encode_all answer)
unfolding le_bytes
answer-AreBytes = (
  omega arith,
  (
    omega arith,
    (
      omega arith,
      (
        omega arith,
        (
          omega arith,
          (omega arith, (omega arith, (omega arith, (omega arith, (omega arith, tt))))),
        ),
      ),
    ),
  ),
)

read_all-on_send_message_example :
    (o : OutputMessage) × (p' : Protocol) × (size : ℕ) × (on_send_message protocol
        (record { msg = write_all answer (reset message); output_buffer_start = 8 })
      ≡ some (o, p'))
    × (let headed =
          parse_header 25 [] false 101 (established protocol (feed 0 2 o.msg.buffer client)) in
        (headed.1 ≡ Action.read_into 2 size ∷ [])
        × ((c' : Connection) × (got : NetworkMessage) × (parse_packet false
                (feed 2 size o.msg.buffer headed.0)
              ≡ some (c', Action.parse_packet_of got ∷ Action.read_into 0 2 ∷ []))
            × ((read_all (map shape answer) got).0 ≡ answer)))
read_all-on_send_message_example =
    read_all-on_send_message 25 [] 101 protocol protocol answer message client
      (omega arith, (omega arith, (omega arith, tt))) answer-AreBytes (omega arith)
      (λ k. omega arith) refl refl (inr refl) refl refl in_rate
