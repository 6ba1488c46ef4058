-- ===== src/Net/Connection/Examples.antt =====
-- Runs of a connection, and its theorems at concrete inputs.
use tib.Common.{ℕ, ◌≡◌, refl, true, false, List, [], ◌∷◌, ◌++◌}
use tib.Net.Connection.{
  Connection, connecting_stage2, is_disconnected, is_nil, create_connection, close, body,
}
use tib.Net.Connection.Handlers.{
  accept, start_read, send, internal_send, on_write_operation, pop_front, write_next, parse_header,
  parse_length, after_greeting, greet, next_char, first_chars, enter_game, seconds_passed,
}
use tib.Net.Connection.Order.{
  accepts, sends, written, closes, Run, done, more, Run-order, Run-shut, parses_header,
}
use tib.Net.Connection.Bounds.{fits_buffer, Run-bounds}

-- Three messages, the first of which was written; then a close that is not forced.
abbrev sent : Connection
sent = send true 7 (send true 6 (send true 5 (accept true (create_connection 100))))

sent-Run : Run (create_connection 100) sent
sent-Run =
    more (more (more (more done (accepts true)) (sends true 5)) (sends true 6)) (sends true 7)

abbrev closing : Connection
closing = close false (on_write_operation false true sent)

closing-Run : Run (create_connection 100) closing
unfolding create_connection accept start_read send internal_send
closing-Run = more (more sent-Run (written false true refl)) (closes false)

closing_run : (closing.started ≡ 5 ∷ 6 ∷ []) × (closing.is_open ≡ true)
unfolding create_connection accept start_read send internal_send on_write_operation pop_front
    write_next close
closing_run = (refl, refl)

-- The client's "Tib\n", in the reads of a server of that name, and then the length of a body.
greeting_run :
    (parse_header false true 101 25
      (b'T' ∷ b'i' ∷ b'b' ∷ 0x0A ∷ [])
      0x0A
      0
      (record (create_connection 100) {
        state = connecting_stage2;
        received_name = true;
        server_name_time = 2;
      })).received_last_char
    ≡ true
unfolding create_connection parse_header seconds_passed greet next_char first_chars after_greeting
    accept start_read
greeting_run = refl

Run-order_example :
    ((rest : List ℕ) × (closing.accepted ≡ closing.started ++ rest))
    × (closing.is_writing ≡ false
        → is_disconnected closing.state ≡ false
        → closing.accepted ≡ closing.started)
    × (closing.is_writing ≡ true → is_nil closing.message_queue ≡ false)
Run-order_example = Run-order 100 closing closing-Run

Run-shut_example :
    (closing.is_registered ≡ false) × (closing.is_open ≡ true → closing.is_writing ≡ true)
unfolding create_connection accept start_read send internal_send on_write_operation pop_front
    write_next close
Run-shut_example = Run-shut 100 closing closing-Run refl

-- A header with the length 20.
abbrev heard : Connection
heard = parse_header false true 101 25 (b'T' ∷ 0x0A ∷ []) 20 0 (accept true (create_connection 100))

heard_run : heard.reading ≡ body 20
unfolding create_connection accept start_read parse_header seconds_passed greet after_greeting
    enter_game parse_length
heard_run = refl

Run-bounds_example : fits_buffer heard.reading ≡ true
Run-bounds_example =
    Run-bounds 100 heard
      (more (more done (accepts true)) (parses_header false true 101 25 (b'T' ∷ 0x0A ∷ []) 20 0))
