-- ===== src/Net/Connection/Order.antt =====
-- Messages go to the socket one at a time, in the order in which they were sent.
use tib.Common.{ℕ, ◌≡◌, ◌∙◌, refl, ap, Bool, true, false, List, [], ◌∷◌, ◌++◌, Bool-cases, inl, inr}
use mathlib.Core.List.{append-nil}
use tib.Net.Connection.{is_disconnected, Connection, create_connection, close_socket, is_nil, close}
use tib.Net.Connection.Handlers.{
  accept, accept_protocol, parse_header, parse_packet, send, pop_front, write_next,
  on_write_operation, handle_timeout, close_all, ProtocolCall,
}
use tib.Net.Connection.Writing.{
  IsFlowing, close-IsFlowing, accept-IsFlowing, accept_protocol-IsFlowing, parse_header-IsFlowing,
}
use tib.Net.Connection.Sending.{parse_packet-IsFlowing, send-IsFlowing, internal_send-IsFlowing}

write_next-IsFlowing :
    (works : Bool) (ms : List ℕ) (c : Connection)
    → c.message_queue ≡ ms
    → c.accepted ≡ c.started ++ ms
    → c.is_writing ≡ false
    → (is_disconnected c.state ≡ true → c.is_registered ≡ false)
    → IsFlowing (write_next works ms c)
write_next-IsFlowing works [] c queue order idle unlisted =
    elim (Bool-cases (is_disconnected c.state)) [
      | inl gone ↦
          unfold write_next in
          unfold close_socket in
          rw gone (record {
            rest = [];
            order = order;
            flight = λ w. absurd (clash c.is_writing idle w);
            idle = λ w g. (queue, refl);
            unlisted = unlisted;
            shut = λ g o. cc;
          })
      | inr live ↦
          unfold write_next in
          rw live (record {
            rest = [];
            order = order;
            flight = λ w. absurd (clash c.is_writing idle w);
            idle = λ w g. (queue, refl);
            unlisted = unlisted;
            shut = λ g o. absurd (clash (is_disconnected c.state) live g);
          })
    ]
  where
    clash : (b : Bool) → b ≡ false → b ≡ true → ⊥
    clash b p q = cc
write_next-IsFlowing works (m ∷ ms) c queue order idle unlisted =
    unfold write_next in internal_send-IsFlowing works m ms c queue order idle unlisted

on_write_operation-IsFlowing :
    (error works : Bool) (c : Connection)
    → c.is_writing ≡ true
    → IsFlowing c
    → IsFlowing (on_write_operation error works c)
unfolding on_write_operation
on_write_operation-IsFlowing true works c w f =
    unfold close in
    unfold close_socket in
    record {
      rest = f.rest;
      order = f.order;
      flight = λ e. cc;
      idle = λ e g. cc;
      unlisted = λ g. refl;
      shut = λ g o. cc;
    }
on_write_operation-IsFlowing false works c w f =
    write_next-IsFlowing works (pop_front c.message_queue)
      (record c { is_writing = false; message_queue = pop_front c.message_queue }) refl
      (f.order ∙ ap (λ ms. c.started ++ ms) (f.flight w).1) refl f.unlisted

-- The library calls `onWriteOperation` once for each write that it took, and a protocol that sends
-- first is accepted while the connection stands.
pub data Step (c : Connection) : Connection → Type 0 where
  accepts : (works : Bool) → Step c (accept works c)
  accepts_protocol :
      (works : Bool) → is_disconnected c.state ≡ false → Step c (accept_protocol works c)
  parses_header :
      (error works : Bool) (now max_packets : ℕ) (name : List ℕ) (b0 b1 : ℕ)
      → Step c (parse_header error works now max_packets name b0 b1 c)
  parses_packet :
      (error works makes : Bool) (calls : List ProtocolCall)
      → Step c (parse_packet error works makes calls c)
  sends : (works : Bool) (msg : ℕ) → Step c (send works msg c)
  written : (error works : Bool) → c.is_writing ≡ true → Step c (on_write_operation error works c)
  times_out : (aborted : Bool) → Step c (handle_timeout aborted c)
  closes : (force : Bool) → Step c (close force c)
  closes_all : Step c (close_all c)

pub data Run (c : Connection) : Connection → Type 0 where
  done : Run c c
  more : {d e : Connection} → Run c d → Step d e → Run c e

Step-IsFlowing : (c d : Connection) → Step c d → IsFlowing c → IsFlowing d
Step-IsFlowing c d (accepts works) f = accept-IsFlowing works c f
Step-IsFlowing c d (accepts_protocol works live) f = accept_protocol-IsFlowing works c live f
Step-IsFlowing c d (parses_header error works now max_packets name b0 b1) f =
    parse_header-IsFlowing error works now max_packets name b0 b1 c f
Step-IsFlowing c d (parses_packet error works makes calls) f =
    parse_packet-IsFlowing error works makes calls c f
Step-IsFlowing c d (sends works msg) f = send-IsFlowing works msg c f
Step-IsFlowing c d (written error works w) f = on_write_operation-IsFlowing error works c w f
Step-IsFlowing c d (times_out true) f = unfold handle_timeout in f
Step-IsFlowing c d (times_out false) f = unfold handle_timeout in close-IsFlowing true c f
Step-IsFlowing c d (closes force) f = close-IsFlowing force c f
Step-IsFlowing c d closes_all f =
    unfold close_all in
    record {
      rest = f.rest;
      order = f.order;
      flight = f.flight;
      idle = f.idle;
      unlisted = λ g. refl;
      shut = λ g o. cc;
    }

Run-IsFlowing : (c d : Connection) → Run c d → IsFlowing c → IsFlowing d
Run-IsFlowing c d done f = f
Run-IsFlowing c d (more {d = m} run step) f = Step-IsFlowing m d step (Run-IsFlowing c m run f)

created-IsFlowing : (now : ℕ) → IsFlowing (create_connection now)
unfolding create_connection
created-IsFlowing now = record {
  rest = [];
  order = refl;
  flight = λ w. cc;
  idle = λ w g. (refl, refl);
  unlisted = λ g. cc;
  shut = λ g o. cc;
}

-- Whatever handlers run on a new connection and whatever fails: the messages that went to the socket
-- are the first ones that were sent, in their order and each once. While the connection is not
-- disconnected and no write is in flight, they are all of them. When a write is in flight, the queue
-- is not empty, so the end of the write takes out the message that was written.
pub Run-order :
    (now : ℕ) (c : Connection)
    → Run (create_connection now) c
    → ((rest : List ℕ) × (c.accepted ≡ c.started ++ rest))
      × (c.is_writing ≡ false → is_disconnected c.state ≡ false → c.accepted ≡ c.started)
      × (c.is_writing ≡ true → is_nil c.message_queue ≡ false)
Run-order now c run =
    let f = Run-IsFlowing (create_connection now) c run (created-IsFlowing now) in
    (
      (f.rest, f.order),
      λ w g. f.order ∙ ap (λ ms. c.started ++ ms) (f.idle w g).1 ∙ append-nil c.started,
      λ w. (f.flight w).0,
    )

-- Whatever handlers run on a new connection: one that is disconnected is not in the manager's set,
-- and its socket is open only while a write is in flight.
pub Run-shut :
    (now : ℕ) (c : Connection)
    → Run (create_connection now) c
    → is_disconnected c.state ≡ true
    → (c.is_registered ≡ false) × (c.is_open ≡ true → c.is_writing ≡ true)
Run-shut now c run gone =
    let f = Run-IsFlowing (create_connection now) c run (created-IsFlowing now) in
    (f.unlisted gone, f.shut gone)
