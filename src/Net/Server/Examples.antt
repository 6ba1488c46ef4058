-- ===== src/Net/Server/Examples.antt =====
-- A port that fails and is opened again, and the port's theorem there.
use tib.Common.{◌≡◌, refl, true, false, [], ◌∷◌, some, arith}
use tib.Net.Connection.{create_connection, close, close_socket}
use tib.Net.Server.{
  Service, ServicePort, new_port, close_port, schedule_open, no_option, whole, open_with, open_port,
  open_acceptor, on_accept, accept_next, failed, connected, add_service, any_single, admit,
  take_connection, on_accept_connection, make_protocol,
}
use tib.Net.Server.Listening.{
  Run, opened, more, connects, fails, reopens, IsListening, Run-IsListening,
}

abbrev game : Service
game = record { is_single_socket = true; is_checksummed = true; protocol_identifier = 0 }

abbrev login : Service
login = record { is_single_socket = false; is_checksummed = true; protocol_identifier = 1 }

-- The first opening works, an accept fails, the second opening throws at the option of the acceptor,
-- and the third one works.
abbrev again : ServicePort
again = on_accept connected (
    open_acceptor whole (
      open_acceptor no_option
        (on_accept failed (add_service game (open_port whole 7172 new_port)).1)))

again-Run : Run 7172 game again
unfolding open_port open_with close_port schedule_open add_service accept_next any_single on_accept
    open_acceptor
again-Run =
    more
      (more (more (more (opened whole) (fails refl)) (reopens no_option (omega arith)))
        (reopens whole (omega arith)))
      (connects refl)

Run-IsListening_example : IsListening again
Run-IsListening_example = Run-IsListening 7172 game again again-Run

-- A client without an address is closed, and leaves the throttle's table as it is.
refused_run :
    (on_accept_connection true (game ∷ []) [] 0 100 (create_connection 100)).1.is_open ≡ false
unfolding on_accept_connection admit take_connection close close_socket create_connection
refused_run = refl

chosen_run : make_protocol true 1 (game ∷ login ∷ []) ≡ some login
unfolding make_protocol
chosen_run = refl
