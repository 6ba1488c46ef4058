-- ===== src/Net/Connection/Bounds.antt =====
-- The bytes that a connection waits for fit into the buffer of its message.
use tib.Common.{
  ℕ, ◌+◌, ◌-◌, ◌*◌, ◌/◌, ◌≡◌, refl, Bool, true, false, not, ◌&&◌, ◌||◌, List, [], ◌∷◌, ◌++◌, arith,
  ltb, leb, ◌==◌, if◌then◌else◌, Bool-cases, inl, inr,
}
use tib.Common.Word.{add_u32}
use tib.Net.Message.{max_size}
use tib.Net.Connection.{
  connecting_stage2, is_disconnected, is_stage2, leave_pending, Reading, no_read, header, body,
  Connection, create_connection, close_socket, is_nil, close,
}
use tib.Net.Connection.Handlers.{
  start_read, accept, accept_protocol, Greeting, goes_on, refused, waits, next_char, first_chars,
  greet, enter_game, parse_length, after_greeting, seconds_passed, parse_header, parse_packet,
  internal_send, send, pop_front, write_next, on_write_operation, handle_timeout, close_all,
  ProtocolCall, calls_send, calls_close, call, call_all,
}
use tib.Net.Connection.Writing.{greeted}
use tib.Net.Connection.Order.{
  Step, accepts, accepts_protocol, parses_header, parses_packet, sends, written, times_out, closes,
  closes_all, Run, done, more,
}

-- A header is read in front of the body, whose buffer starts behind its two bytes.
abbrev pub fits_buffer : Reading → Bool
fits_buffer no_read = true
fits_buffer (header n) = leb n 2
fits_buffer (body n) = ltb 0 n && leb (2 + n) max_size

abbrev pub IsBounded : Connection → Type 0
IsBounded c = fits_buffer c.reading ≡ true

close-IsBounded : (force : Bool) (c : Connection) → IsBounded c → IsBounded (close force c)
unfolding close close_socket
close-IsBounded force c h = elim (Bool-cases (is_nil c.message_queue || force)) [
  | inl now ↦ rw now h
  | inr later ↦ rw later h
]

start_read-IsBounded :
    (works : Bool) (reading : Reading) (c : Connection)
    → fits_buffer reading ≡ true
    → IsBounded c
    → IsBounded (start_read works reading c)
unfolding start_read
start_read-IsBounded true reading c fits h = fits
start_read-IsBounded false reading c fits h = close-IsBounded true c h

accept-IsBounded : (works : Bool) (c : Connection) → IsBounded c → IsBounded (accept works c)
unfolding accept
accept-IsBounded works c h =
    let size =
      if not c.received_last_char && c.received_name && is_stage2 (leave_pending c.state)
      then 1
      else 2 in
    start_read-IsBounded works (header size) (record c { state = leave_pending c.state })
      (one_or_two
        (not c.received_last_char && c.received_name && is_stage2 (leave_pending c.state)))
      h
  where
    one_or_two : (b : Bool) → leb (if b then 1 else 2) 2 ≡ true
    one_or_two true = refl
    one_or_two false = refl

parse_length-IsBounded :
    (works : Bool) (b0 b1 : ℕ) (c : Connection)
    → IsBounded c
    → IsBounded (parse_length works b0 b1 c)
unfolding parse_length
parse_length-IsBounded works b0 b1 c h =
    elim (Bool-cases (b0 + 256 * b1 == 0 || leb (max_size - 16) (b0 + 256 * b1))) [
      | inl bad ↦ rw bad (close-IsBounded true c h)
      | inr fine ↦
          rw fine (start_read-IsBounded works (body (b0 + 256 * b1)) c (ground (arith, fine)) h)
    ]

greet-IsBounded :
    (name : List ℕ) (b0 b1 : ℕ) (c : Connection)
    → IsBounded c
    → IsBounded (greeted (greet name b0 b1 c))
unfolding greet first_chars next_char
greet-IsBounded name b0 b1 c h = ground (arith, h)

after_greeting-IsBounded :
    (works : Bool) (now time_passed b0 b1 : ℕ) (g : Greeting)
    → IsBounded (greeted g)
    → IsBounded (after_greeting works now time_passed b0 b1 g)
unfolding after_greeting enter_game
after_greeting-IsBounded works now time_passed b0 b1 (goes_on c) h =
    parse_length-IsBounded works b0 b1 (enter_game now time_passed c) h
after_greeting-IsBounded works now time_passed b0 b1 (refused c) h = close-IsBounded true c h
after_greeting-IsBounded works now time_passed b0 b1 (waits c) h = accept-IsBounded works c h

if-IsBounded :
    (b : Bool) (c d : Connection) → IsBounded c → IsBounded d → IsBounded (if b then c else d)
if-IsBounded true c d h k = h
if-IsBounded false c d h k = k

parse_header-IsBounded :
    (error works : Bool) (now max_packets : ℕ) (name : List ℕ) (b0 b1 : ℕ) (c : Connection)
    → IsBounded (parse_header error works now max_packets name b0 b1 c)
unfolding parse_header
parse_header-IsBounded error works now max_packets name b0 b1 old =
    let c = record old { reading = no_read } in
    let counted = record c { packets_sent = add_u32 c.packets_sent 1 } in
    let greeted = greet name b0 b1 counted in
    let time_passed = seconds_passed now c in
    let rest = after_greeting works now time_passed b0 b1 greeted in
    let answer =
      if ltb max_packets (counted.packets_sent / time_passed) then close false counted else rest in
    if-IsBounded error (close true c) (if is_disconnected c.state then c else answer)
      (close-IsBounded true c refl)
      (if-IsBounded (is_disconnected c.state) c answer refl (
        if-IsBounded (ltb max_packets (counted.packets_sent / time_passed)) (close false counted)
          rest (close-IsBounded false counted refl)
          (after_greeting-IsBounded works now time_passed b0 b1 greeted
            (greet-IsBounded name b0 b1 counted refl))))

internal_send-IsBounded :
    (works : Bool) (msg : ℕ) (c : Connection) → IsBounded c → IsBounded (internal_send works msg c)
unfolding internal_send
internal_send-IsBounded true msg c h = h
internal_send-IsBounded false msg c h = close-IsBounded true c h

send-IsBounded :
    (works : Bool) (msg : ℕ) (c : Connection) → IsBounded c → IsBounded (send works msg c)
unfolding send
send-IsBounded works msg c h =
    let queued = record c {
      message_queue = c.message_queue ++ msg ∷ [];
      accepted = c.accepted ++ msg ∷ [];
    } in
    let answer = if is_nil c.message_queue then internal_send works msg queued else queued in
    if-IsBounded (is_disconnected c.state) c answer h (
      if-IsBounded (is_nil c.message_queue) (internal_send works msg queued) queued
        (internal_send-IsBounded works msg queued h) h)

call_all-IsBounded :
    (calls : List ProtocolCall) (c : Connection) → IsBounded c → IsBounded (call_all calls c)
unfolding call_all call
call_all-IsBounded [] c h = h
call_all-IsBounded (calls_send works msg ∷ ps) c h =
    call_all-IsBounded ps (send works msg c) (send-IsBounded works msg c h)
call_all-IsBounded (calls_close force ∷ ps) c h =
    call_all-IsBounded ps (close force c) (close-IsBounded force c h)

parse_packet-IsBounded :
    (error works makes : Bool) (calls : List ProtocolCall) (c : Connection)
    → IsBounded (parse_packet error works makes calls c)
unfolding parse_packet
parse_packet-IsBounded error works makes calls old =
    let c = record old { reading = no_read } in
    let handled = call_all calls (record c { received_first = true; has_protocol = true }) in
    let next = start_read works (header 2) handled in
    let refuse = close true (record c { received_first = true }) in
    let answer = if c.received_first || c.has_protocol || makes then next else refuse in
    if-IsBounded error (close true c) (if is_disconnected c.state then c else answer)
      (close-IsBounded true c refl)
      (if-IsBounded (is_disconnected c.state) c answer refl (
        if-IsBounded (c.received_first || c.has_protocol || makes) next refuse
          (start_read-IsBounded works (header 2) handled refl (
            call_all-IsBounded calls (record c { received_first = true; has_protocol = true })
              refl))
          (close-IsBounded true (record c { received_first = true }) refl)))

write_next-IsBounded :
    (works : Bool) (ms : List ℕ) (c : Connection) → IsBounded c → IsBounded (write_next works ms c)
unfolding write_next close_socket
write_next-IsBounded works [] c h = if-IsBounded (is_disconnected c.state) (close_socket c) c h h
write_next-IsBounded works (m ∷ ms) c h = internal_send-IsBounded works m c h

Step-IsBounded : (c d : Connection) → Step c d → IsBounded c → IsBounded d
unfolding handle_timeout close_all on_write_operation accept_protocol
Step-IsBounded c d (accepts works) h = accept-IsBounded works c h
Step-IsBounded c d (accepts_protocol works live) h =
    accept-IsBounded works (record c { has_protocol = true; state = connecting_stage2 }) h
Step-IsBounded c d (parses_header error works now max_packets name b0 b1) h =
    parse_header-IsBounded error works now max_packets name b0 b1 c
Step-IsBounded c d (parses_packet error works makes calls) h =
    parse_packet-IsBounded error works makes calls c
Step-IsBounded c d (sends works msg) h = send-IsBounded works msg c h
Step-IsBounded c d (written true works w) h =
    close-IsBounded true (record c { is_writing = false; message_queue = [] }) h
Step-IsBounded c d (written false works w) h =
    write_next-IsBounded works (pop_front c.message_queue)
      (record c { is_writing = false; message_queue = pop_front c.message_queue }) h
Step-IsBounded c d (times_out true) h = h
Step-IsBounded c d (times_out false) h = close-IsBounded true c h
Step-IsBounded c d (closes force) h = close-IsBounded force c h
Step-IsBounded c d closes_all h = h

-- Whatever handlers run on a new connection and whatever bytes the client sends: the connection never
-- waits for more than two bytes of a header, nor for a body that is empty or that reaches past the end
-- of the message's buffer when it stands behind the two bytes of its length.
pub Run-bounds :
    (now : ℕ) (c : Connection) → Run (create_connection now) c → fits_buffer c.reading ≡ true
unfolding create_connection
Run-bounds now c done = refl
Run-bounds now c (more {d = m} run step) = Step-IsBounded m c step (Run-bounds now m run)
