-- ===== src/Tests/Message.antt =====
-- Examples for `NetworkMessage`: a login-like packet of four fields, and a truncated one.
use forgotten_land.Base.{◌≡◌, refl, true, false, List, [], ◌∷◌, map, arith}
use forgotten_land.Network.Message.{
  NetworkMessage, reset, put, add, add_byte, add_string, add_position, can_add, can_read, get,
  get_byte, get_bytes, get_string, get_position, advance, set_buffer_position,
}
use forgotten_land.Network.Message.Bytes.{store, update, load, le_bytes, from_le, replicate}
use forgotten_land.Network.Message.Fields.{Field, Shape, shape, write, read}
use forgotten_land.Network.Message.RoundTrip.{write_all, read_all, read_all-write_all}
use forgotten_land.Network.Message.Bounds.{
  Write, run, run-Confined, Confined, read_all-Keeps, Keeps,
}

abbrev blank : NetworkMessage
blank = record { buffer = λ k. 0; length = 0; position = 8; overrun = false }

abbrev packet : List Field
packet =
    Field.byte 0x14
    ∷ Field.word 2 1100
    ∷ Field.text (b'a' ∷ b'b' ∷ [])
    ∷ Field.place (record { x = 32000; y = 32001; z = 7 })
    ∷ []

program : Unit {0}
unfolding reset put add add_byte add_string add_position can_add can_read get get_byte get_bytes
    get_string get_position advance set_buffer_position store update load le_bytes from_le replicate
    shape write read write_all read_all run
program = tt

packet_length : (write_all packet (reset blank)).length ≡ 12
unfolding program
packet_length = refl

packet_bytes :
    load (write_all packet (reset blank)).buffer 8 7 ≡ 0x14 ∷ 76 ∷ 4 ∷ 2 ∷ 0 ∷ b'a' ∷ b'b' ∷ []
unfolding program
packet_bytes = refl

read_all-write_all_example :
    (read_all (map shape packet) (set_buffer_position 8 (write_all packet (reset blank)))).0
    ≡ packet
read_all-write_all_example = (read_all-write_all packet blank (omega arith) (omega arith)).0

run-Confined_example : Confined blank (run (Write.word 4 99) blank)
run-Confined_example = run-Confined (Write.word 4 99) blank (omega arith) (omega arith)

read_all-Keeps_example : Keeps blank (read_all (Shape.word 4 ∷ Shape.text ∷ []) blank).1
read_all-Keeps_example = read_all-Keeps (Shape.word 4 ∷ Shape.text ∷ []) blank

-- A word of 16 bytes does not fit an empty message: it reads as 0 and is noted.
overrun_read : (get 16 blank).1.overrun ≡ true
unfolding program
overrun_read = refl
