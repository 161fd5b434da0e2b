-- ===== src/Network/Connection.antt =====
-- `Connection` of src/server/network/connection/connection.{h,cpp}: the handlers of a client's
-- socket. Boost's socket and timers are outside: a handler returns the new state and the requests
-- that it makes of them and of the protocol, in order. Handlers run under the connection's lock,
-- one at a time. Exceptions of boost are not modelled; they close the connection.
pub mod Delivery
pub mod Conversation
use forgotten_land.Base.{
  ℕ, zero, suc, ◌+◌, ◌-◌, ◌/◌, ◌%◌, ◌^◌, max, Bool, true, false, not, ◌&&◌, ◌||◌, List, [], ◌∷◌,
  ◌++◌, Option, none, some, ◌>>=◌, ltb, leb, ◌==◌, if◌then◌else◌,
}
use forgotten_land.Base.Words.{u32}
use forgotten_land.Network.Message.{
  NetworkMessage, max_size, get, get_byte, skip_bytes, get_length_header, set_length,
  get_body_buffer,
}
use forgotten_land.Network.Output.{OutputMessage, output}
use forgotten_land.Network.Protocol.{Protocol, on_send_message, on_recv_message}

pub data ConnectionState : Type 0 where
  disconnected connecting_stage1 connecting_stage2 game pending : ConnectionState

-- A service of the port: its protocol identifier, and the protocol that it makes.
pub record Service : Type 0 where
  pub identifier : ℕ
  pub is_checksummed : Bool
  pub protocol : Protocol

pub record Connection : Type 0 where
  pub msg : NetworkMessage
  pub message_queue : List OutputMessage
  pub services : List Service
  pub protocol : Option Protocol
  pub time_connected : ℕ
  pub packets_sent : ℕ
  pub state : ConnectionState
  pub received_first : Bool
  pub server_name_time : ℕ
  pub received_name : Bool
  pub received_last_char : Bool

-- `read_into index size` asks for `size` bytes at `buffer[index]`.
pub data Action : Type 0 where
  read_into : ℕ → ℕ → Action
  write : List ℕ → Action
  release_protocol : Action
  close_socket : Action
  first_message : NetworkMessage → Action
  parse_packet_of : NetworkMessage → Action

abbrev pub Handled : Type 0
Handled = Connection × List Action

abbrev pub is_stage2 : ConnectionState → Bool
is_stage2 ConnectionState.connecting_stage2 = true
is_stage2 _ = false

abbrev pub is_disconnected : ConnectionState → Bool
is_disconnected ConnectionState.disconnected = true
is_disconnected _ = false

abbrev is_empty {ℓ} : {A : Type ℓ} → List A → Bool
is_empty [] = true
is_empty (_ ∷ _) = false

unfoldable pub close : Bool → Connection → Handled
close force c =
    let release : List Action = elim c.protocol [
      | none ↦ []
      | some _ ↦ Action.release_protocol ∷ []
    ] in
    let shut = if is_empty c.message_queue || force then Action.close_socket ∷ [] else [] in
    (record c { state = ConnectionState.disconnected }, release ++ shut)

-- The overload without a protocol: wait for the next two bytes, or for the next letter of the
-- server's name.
unfoldable pub accept : Connection → Handled
accept c =
    let state : ConnectionState = elim c.state [
      | ConnectionState.pending ↦ ConnectionState.connecting_stage1
      | other ↦ other
    ] in
    let size = if not c.received_last_char && (c.received_name && is_stage2 state) then 1 else 2 in
    (record c { state = state }, Action.read_into 0 size ∷ [])

-- Character `i` of a `std::string`, whose end reads as 0.
abbrev pub char_at : List ℕ → ℕ → ℕ
char_at [] i = 0
char_at (x ∷ xs) zero = x
char_at (x ∷ xs) (suc i) = char_at xs i

-- The end of `parseHeader`, from the change to the game state on.
unfoldable pub read_body : ℕ → ℕ → Connection → Handled
read_body now time_passed c =
    let state =
      if c.received_last_char && is_stage2 c.state then ConnectionState.game else c.state in
    let c₁ : Connection = record c { state = state } in
    let c₂ : Connection =
      if ltb 2 time_passed then record c₁ { time_connected = now; packets_sent = 0 } else c₁ in
    let size = get_length_header c₂.msg in
    let (index, msg) = get_body_buffer (set_length (size + 2) c₂.msg) in
    if size == 0 || leb (max_size - 16) size
    then close true c₂
    else (record c₂ { msg = msg }, Action.read_into index size ∷ [])

-- The check of the server's name, which a game client sends before its first packet.
unfoldable pub check_name : List ℕ → ℕ → ℕ → Connection → Handled
check_name config_name now time_passed c =
    let name = config_name ++ 10 ∷ [] in
    let b₀ = c.msg.buffer 0 in
    let b₁ = c.msg.buffer 1 in
    if not c.received_name && b₁ == 0
    then read_body now time_passed (record c { received_last_char = true })
    else if not c.received_name
    then (if b₀ == char_at name 0 && b₁ == char_at name 1
        then accept (record c { received_name = true; server_name_time = 1 })
        else close true c)
    else (let i = u32 (c.server_name_time + 1) in
        let c' : Connection = record c { server_name_time = i } in
        if b₀ == char_at name i
        then accept (record c' { received_last_char = b₀ == 0x0A || c'.received_last_char })
        else close true c')

-- `(time(nullptr) - timeConnected) + 1` is cut to 32 bits.
unfoldable pub time_passed : ℕ → Connection → ℕ
time_passed now c = max 1 (u32 (now + 1 + (2 ^ 64 - c.time_connected % 2 ^ 64)))

-- `max_packets` and `config_name` are the configured MAX_PACKETS_PER_SECOND and SERVER_NAME.
unfoldable pub parse_header : ℕ → List ℕ → Bool → ℕ → Connection → Handled
parse_header max_packets config_name error now c =
    let passed = time_passed now c in
    let packets = u32 (c.packets_sent + 1) in
    let c' : Connection = record c { packets_sent = packets } in
    if error
    then close true c
    else if is_disconnected c.state
    then (c, [])
    else if ltb (u32 max_packets) (packets / passed)
    then close false c'
    else if not c.received_last_char && is_stage2 c.state
    then check_name config_name now passed c'
    else read_body now passed c'

-- `ServicePort::make_protocol` of src/server/server.cpp, called with `checksummed` true.
find_service : Bool → ℕ → List Service → Option Protocol
find_service checksummed id [] = none
find_service checksummed id (s ∷ ss) =
    if id == s.identifier && (checksummed && s.is_checksummed || not s.is_checksummed)
    then some s.protocol
    else find_service checksummed id ss

unfoldable pub make_protocol : List Service → NetworkMessage → Option Protocol × NetworkMessage
unfolding find_service
make_protocol services msg = let (id, msg') = get_byte msg in (find_service true id services, msg')

-- A fault of the protocol is `none`.
unfoldable pub parse_packet : Bool → Connection → Option Handled
parse_packet error c =
    let (_, msg) = get 4 c.msg in
    let again = Action.read_into 0 2 ∷ [] in
    let c₁ : Connection = record c { msg = msg; received_first = true } in
    let skipped = if ltb msg.length 280 then skip_bytes (2 ^ 16 - 4) msg else msg in
    let (made, msg') = make_protocol c.services skipped in
    let first = skip_bytes 1 msg in
    if error
    then some (close true c)
    else if is_disconnected c.state
    then some (c, [])
    else if not c.received_first
    then elim c.protocol [
      | none ↦ elim made [
        | none ↦ some (close true (record c₁ { msg = msg' }))
        | some p ↦
            some (record c₁ { msg = msg'; protocol = some p }, Action.first_message msg' ∷ again)
      ]
      | some p ↦ some (record c₁ { msg = first }, Action.first_message first ∷ again)
    ]
    else elim c.protocol [
      | none ↦ none
      | some p ↦ do
        (accepted, m) ← on_recv_message p msg
        let parsed = if accepted then Action.parse_packet_of m ∷ [] else []
        some (record c₁ { msg = m }, parsed ++ again)
    ]

unfoldable pub internal_send : OutputMessage → Connection → Option Handled
internal_send o c = elim c.protocol [
  | none ↦ none
  | some p ↦ do
    (o', p') ← on_send_message p o
    some (record c { protocol = some p' }, Action.write (output o') ∷ [])
]

unfoldable pub send : OutputMessage → Connection → Option Handled
send o c =
    let c' : Connection = record c { message_queue = c.message_queue ++ o ∷ [] } in
    let started = internal_send o c' in
    if is_disconnected c.state
    then some (c, [])
    else if is_empty c.message_queue
    then started
    else some (c', [])

unfoldable pub on_write_operation : Bool → Connection → Option Handled
on_write_operation error c = elim c.message_queue [
  | [] ↦ none
  | _ ∷ rest ↦
      let c' : Connection = record c { message_queue = rest } in
      if error then some (close true (record c { message_queue = [] })) else elim rest [
        | o ∷ _ ↦ internal_send o c'
        | [] ↦ some (c', if is_disconnected c.state then Action.close_socket ∷ [] else [])
      ]
]

-- `handleTimeout`: a timer that was cancelled does nothing.
unfoldable pub handle_timeout : Bool → Connection → Handled
handle_timeout aborted c = if aborted then (c, []) else close true c
