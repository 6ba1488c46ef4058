-- ===== src/Net/Connection/Handlers.antt =====
-- The handlers of src/connection.cpp.
use tib.Common.{
  ℕ, ◌+◌, ◌-◌, ◌*◌, ◌/◌, ◌%◌, Bool, true, false, not, ◌&&◌, ◌||◌, List, [], ◌∷◌, ◌++◌, none, some,
  ltb, leb, ◌==◌, if◌then◌else◌, get_elem?,
}
use tib.Common.Word.{add_u32, sub_u32, u32_mod}
use tib.Net.Message.{max_size}
use tib.Net.Connection.{
  connecting_stage2, game, is_disconnected, is_stage2, leave_pending, Reading, no_read, header,
  body, Connection, close_socket, is_nil, close,
}

-- The start of a read, where the library takes it.
unfoldable pub start_read : Bool → Reading → Connection → Connection
start_read works reading c = if works then record c { reading = reading } else close true c

unfoldable pub accept : Bool → Connection → Connection
accept works c =
    let size =
      if not c.received_last_char && c.received_name && is_stage2 (leave_pending c.state)
      then 1
      else 2 in
    start_read works (header size) (record c { state = leave_pending c.state })

-- `accept` of a protocol that sends first.
unfoldable pub accept_protocol : Bool → Connection → Connection
accept_protocol works c = accept works (record c { has_protocol = true; state = connecting_stage2 })

-- `serverName[i]`, which is 0 at the end.
abbrev pub char_at : List ℕ → ℕ → ℕ
char_at name i = elim (get_elem? name i) [ none ↦ 0 | some c ↦ c ]

-- What the start of the game protocol asks: the client's first bytes spell the server's name.
pub data Greeting : Type 0 where
  goes_on refused waits : Connection → Greeting

-- The characters behind the first two, one at a time.
unfoldable pub next_char : List ℕ → ℕ → Connection → Greeting
next_char server_name b0 c =
    let c' = record c { server_name_time = add_u32 c.server_name_time 1 } in
    if b0 == char_at server_name c'.server_name_time
    then waits (record c' { received_last_char = c.received_last_char || b0 == 0x0A })
    else refused c'

unfoldable pub first_chars : List ℕ → ℕ → ℕ → Connection → Greeting
first_chars server_name b0 b1 c =
    if b0 == char_at server_name 0 && b1 == char_at server_name 1
    then waits (record c { received_name = true; server_name_time = 1 })
    else refused c

-- `server_name` is the configured name with a newline behind it.
unfoldable pub greet : List ℕ → ℕ → ℕ → Connection → Greeting
greet server_name b0 b1 c =
    if not c.received_last_char && is_stage2 c.state
    then if not c.received_name && b1 == 0
      then goes_on (record c { received_last_char = true })
      else if not c.received_name
      then first_chars server_name b0 b1 c
      else next_char server_name b0 c
    else goes_on c

-- The state of the game protocol, and a new count of packets.
unfoldable pub enter_game : ℕ → ℕ → Connection → Connection
enter_game now time_passed c = record c {
  state = if c.received_last_char && is_stage2 c.state then game else c.state;
  time_connected = if ltb 2 time_passed then now else c.time_connected;
  packets_sent = if ltb 2 time_passed then 0 else c.packets_sent;
}

-- The length of the body.
unfoldable pub parse_length : Bool → ℕ → ℕ → Connection → Connection
parse_length works b0 b1 c =
    let size = b0 + 256 * b1 in
    if size == 0 || leb (max_size - 16) size then close true c else start_read works (body size) c

unfoldable pub after_greeting : Bool → ℕ → ℕ → ℕ → ℕ → Greeting → Connection
after_greeting works now time_passed b0 b1 (goes_on c) =
    parse_length works b0 b1 (enter_game now time_passed c)
after_greeting works now time_passed b0 b1 (refused c) = close true c
after_greeting works now time_passed b0 b1 (waits c) = accept works c

-- `std::max<uint32_t>(1, (time(nullptr) - timeConnected) + 1)`.
unfoldable pub seconds_passed : ℕ → Connection → ℕ
seconds_passed now c =
    let t = add_u32 (sub_u32 (now % u32_mod) c.time_connected) 1 in if ltb 1 t then t else 1

unfoldable pub parse_header : Bool → Bool → ℕ → ℕ → List ℕ → ℕ → ℕ → Connection → Connection
parse_header error works now max_packets server_name b0 b1 old =
    let c = record old { reading = no_read } in
    if error
    then close true c
    else if is_disconnected c.state
    then c
    else let time_passed = seconds_passed now c in
      let counted = record c { packets_sent = add_u32 c.packets_sent 1 } in
      if ltb max_packets (counted.packets_sent / time_passed)
      then close false counted
      else after_greeting works now time_passed b0 b1 (greet server_name b0 b1 counted)

-- A write that starts, or that the library refuses.
unfoldable pub internal_send : Bool → ℕ → Connection → Connection
internal_send works msg c =
    if works then record c { is_writing = true; started = c.started ++ msg ∷ [] } else close true c

unfoldable pub send : Bool → ℕ → Connection → Connection
send works msg c =
    if is_disconnected c.state
    then c
    else let queued = record c {
      message_queue = c.message_queue ++ msg ∷ [];
      accepted = c.accepted ++ msg ∷ [];
    } in
      if is_nil c.message_queue then internal_send works msg queued else queued

-- What a protocol does to its connection while it handles a message.
pub data ProtocolCall : Type 0 where
  calls_send : (works : Bool) (msg : ℕ) → ProtocolCall
  calls_close : (force : Bool) → ProtocolCall

unfoldable pub call : ProtocolCall → Connection → Connection
call (calls_send works msg) c = send works msg c
call (calls_close force) c = close force c

unfoldable pub call_all : List ProtocolCall → Connection → Connection
call_all [] c = c
call_all (p ∷ ps) c = call_all ps (call p c)

-- `makes` is whether the service port has a protocol for the first message, and `calls` is what the
-- protocol does.
unfoldable pub parse_packet : Bool → Bool → Bool → List ProtocolCall → Connection → Connection
parse_packet error works makes calls old =
    let c = record old { reading = no_read } in
    if error
    then close true c
    else if is_disconnected c.state
    then c
    else if c.received_first || c.has_protocol || makes
    then start_read works (header 2)
        (call_all calls (record c { received_first = true; has_protocol = true }))
    else close true (record c { received_first = true })

unfoldable pub pop_front : List ℕ → List ℕ
pop_front [] = []
pop_front (m ∷ ms) = ms

-- What a finished write leaves to do.
unfoldable pub write_next : Bool → List ℕ → Connection → Connection
write_next works [] c = if is_disconnected c.state then close_socket c else c
write_next works (m ∷ ms) c = internal_send works m c

unfoldable pub on_write_operation : Bool → Bool → Connection → Connection
on_write_operation error works c =
    let popped = record c { is_writing = false; message_queue = pop_front c.message_queue } in
    if error
    then close true (record popped { message_queue = [] })
    else write_next works popped.message_queue popped

-- `aborted` is a timer that was cancelled.
unfoldable pub handle_timeout : Bool → Connection → Connection
handle_timeout aborted c = if aborted then c else close true c

-- What the manager does to each connection in its set at the end.
unfoldable pub close_all : Connection → Connection
close_all c = record c { is_open = false; is_registered = false }
