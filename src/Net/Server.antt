-- ===== src/Net/Server.antt =====
-- The port of a service in src/server.h and src/server.cpp: it accepts connections, lets the throttle
-- decide on each, and is opened again after an error. Of the library's acceptor the model keeps whether
-- it is open, whether an accept waits on it, and how many accepts were aborted whose handlers have not
-- run yet. `reopenings` counts the scheduled calls of `openAcceptor`.
pub mod Listening
mod Examples
use tib.Common.{
  ℕ, zero, suc, ◌+◌, ◌-◌, Bool, true, false, not, ◌&&◌, ◌||◌, List, [], ◌∷◌, ◌++◌, Option, none,
  some, ◌==◌, if◌then◌else◌,
}
use tib.Net.Throttle.{IpConnectMap, accept_connection}
use tib.Net.Connection.{Connection, create_connection, close}
use tib.Net.Connection.Handlers.{accept, accept_protocol}

pub record Service : Type 0 where
  pub is_single_socket : Bool
  pub is_checksummed : Bool
  pub protocol_identifier : ℕ

pub record ServicePort : Type 0 where
  pub services : List Service
  pub is_open : Bool
  pub accepts : Bool
  pub aborted : ℕ
  pub server_port : ℕ
  pub pending_start : Bool
  pub reopenings : ℕ

abbrev pub new_port : ServicePort
new_port = record {
  services = [];
  is_open = false;
  accepts = false;
  aborted = 0;
  server_port = 0;
  pending_start = false;
  reopenings = 0;
}

-- The accept of a port that has an acceptor.
unfoldable pub accept_next : ServicePort → ServicePort
accept_next p = record p { accepts = true }

-- Closing the acceptor aborts the accept that waits.
unfoldable pub close_port : ServicePort → ServicePort
close_port p =
    if p.is_open
    then record p {
      is_open = false;
      accepts = false;
      aborted = if p.accepts then p.aborted + 1 else p.aborted;
    }
    else p

unfoldable pub schedule_open : ServicePort → ServicePort
schedule_open p = record p { pending_start = true; reopenings = p.reopenings + 1 }

-- What the library does with the acceptor of a port: it throws and there is none, it throws at the
-- option of one that is open, or all works.
pub data Opening : Type 0 where
  no_acceptor no_option whole : Opening

unfoldable pub open_with : Opening → ServicePort → ServicePort
open_with no_acceptor p = schedule_open p
open_with no_option p = schedule_open (record p { is_open = true })
open_with whole p = accept_next (record p { is_open = true })

unfoldable pub open_port : Opening → ℕ → ServicePort → ServicePort
open_port opening port p =
    open_with opening (record (close_port p) { server_port = port; pending_start = false })

-- The scheduler's call.
unfoldable pub open_acceptor : Opening → ServicePort → ServicePort
open_acceptor opening p =
    open_port opening p.server_port (record p { reopenings = p.reopenings - 1 })

-- Whether the client's address is known and the throttle takes it, and the throttle's table.
unfoldable pub admit : IpConnectMap → ℕ → ℕ → IpConnectMap × Bool
admit bans remote_ip now =
    if remote_ip == 0 then (bans, false) else accept_connection bans remote_ip now

-- What becomes of the new connection.
unfoldable pub take_connection : Bool → Service → Bool → Connection → Connection
take_connection works service admitted c =
    if admitted
    then (if service.is_single_socket then accept_protocol works c else accept works c)
    else close true c

-- How an accept ends.
pub data Accepted : Type 0 where
  connected operation_aborted failed : Accepted

abbrev pub on_connected : List Service → ServicePort → ServicePort
on_connected [] p = p
on_connected (s ∷ ss) p = accept_next p

-- `onAccept`, for the port; the accept that ended waits no longer.
unfoldable pub on_accept : Accepted → ServicePort → ServicePort
on_accept connected p = on_connected p.services (record p { accepts = false })
on_accept operation_aborted p = record p { aborted = p.aborted - 1 }
on_accept failed p =
    let ended = record p { accepts = false } in
    if ended.pending_start then ended else schedule_open (close_port ended)

-- `onAccept`, for the connection and the throttle.
unfoldable pub on_accept_connection :
    Bool → List Service → IpConnectMap → ℕ → ℕ → Connection → IpConnectMap × Connection
on_accept_connection works [] bans remote_ip now c = (bans, c)
on_accept_connection works (service ∷ services) bans remote_ip now c =
    let answer = admit bans remote_ip now in (answer.0, take_connection works service answer.1 c)

unfoldable pub on_stop_server : ServicePort → ServicePort
on_stop_server p = close_port p

unfoldable pub any_single : List Service → Bool
any_single [] = false
any_single (s ∷ ss) = s.is_single_socket || any_single ss

unfoldable pub add_service : Service → ServicePort → Bool × ServicePort
add_service new_svc p =
    if any_single p.services
    then (false, p)
    else (true, record p { services = p.services ++ new_svc ∷ [] })

-- The first service with the number of the protocol, which is the first byte of a message.
unfoldable pub make_protocol : Bool → ℕ → List Service → Option Service
make_protocol checksummed protocol_id [] = none
make_protocol checksummed protocol_id (service ∷ services) =
    let later = make_protocol checksummed protocol_id services in
    if not (protocol_id == service.protocol_identifier)
    then later
    else if checksummed && service.is_checksummed || not service.is_checksummed
    then some service
    else later
