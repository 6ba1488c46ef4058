-- ===== src/Net/Connection.antt =====
-- src/connection.h and src/connection.cpp: the state of a connection and its handlers. The sockets and
-- timers of the library are seen through what the handlers ask of them: which read waits, whether a
-- write is in flight, whether the socket is open. `works` is whether the library takes an operation
-- or throws. A message is a number. The lock lets one handler run at a time.
pub mod Handlers
pub mod Writing
pub mod Sending
pub mod Order
pub mod Bounds
mod Examples
use tib.Common.{
  ℕ, suc, ◌+◌, ◌/◌, ◌%◌, Bool, true, false, not, ◌&&◌, ◌||◌, List, [], ◌∷◌, ◌++◌, Option, none,
  some, ltb, leb, ◌==◌, if◌then◌else◌, get_elem?,
}

pub data ConnectionState : Type 0 where
  disconnected connecting_stage1 connecting_stage2 game pending : ConnectionState

abbrev pub is_disconnected : ConnectionState → Bool
is_disconnected disconnected = true
is_disconnected connecting_stage1 = false
is_disconnected connecting_stage2 = false
is_disconnected game = false
is_disconnected pending = false

abbrev pub is_stage2 : ConnectionState → Bool
is_stage2 disconnected = false
is_stage2 connecting_stage1 = false
is_stage2 connecting_stage2 = true
is_stage2 game = false
is_stage2 pending = false

abbrev pub leave_pending : ConnectionState → ConnectionState
leave_pending disconnected = disconnected
leave_pending connecting_stage1 = connecting_stage1
leave_pending connecting_stage2 = connecting_stage2
leave_pending game = game
leave_pending pending = connecting_stage1

-- The read that waits: one byte or two for `parseHeader`, or a body for `parsePacket`.
pub data Reading : Type 0 where
  no_read : Reading
  header : ℕ → Reading
  body : ℕ → Reading

-- `is_registered` is the place in the manager's set; `started` and `accepted` list the messages that
-- went to the socket and those that `send` took, in order.
pub record Connection : Type 0 where
  pub state : ConnectionState
  pub message_queue : List ℕ
  pub is_writing : Bool
  pub started : List ℕ
  pub accepted : List ℕ
  pub reading : Reading
  pub is_open : Bool
  pub is_registered : Bool
  pub has_protocol : Bool
  pub time_connected : ℕ
  pub packets_sent : ℕ
  pub received_first : Bool
  pub server_name_time : ℕ
  pub received_name : Bool
  pub received_last_char : Bool

-- `createConnection`, at time `now`.
unfoldable pub create_connection : ℕ → Connection
create_connection now = record {
  state = pending;
  message_queue = [];
  is_writing = false;
  started = [];
  accepted = [];
  reading = no_read;
  is_open = true;
  is_registered = true;
  has_protocol = false;
  time_connected = now;
  packets_sent = 0;
  received_first = false;
  server_name_time = 0;
  received_name = false;
  received_last_char = false;
}

unfoldable pub close_socket : Connection → Connection
close_socket c = record c { is_open = false }

abbrev pub is_nil : List ℕ → Bool
is_nil [] = true
is_nil (m ∷ ms) = false

unfoldable pub close : Bool → Connection → Connection
close force c =
    let closed = record c { state = disconnected; is_registered = false } in
    if is_nil c.message_queue || force then close_socket closed else closed
