-- ===== src/Net/Connection/Sending.antt =====
-- The messages of a connection and what its protocol does keep the ties of queue and write.
use tib.Common.{
  ℕ, ◌≡◌, ◌∙◌, refl, sym, ap, Bool, true, false, ◌||◌, List, [], ◌∷◌, ◌++◌, arith, Bool-cases, inl,
  inr,
}
use mathlib.Core.List.{append_assoc, append-nil}
use tib.Net.Connection.{is_disconnected, no_read, header, Connection, close_socket, is_nil, close}
use tib.Net.Connection.Handlers.{
  parse_packet, internal_send, send, pop_front, ProtocolCall, calls_send, calls_close, call,
  call_all,
}
use tib.Net.Connection.Writing.{IsFlowing, close-IsFlowing, start_read-IsFlowing}

is_nil-append : (ms : List ℕ) (m : ℕ) → is_nil (ms ++ m ∷ []) ≡ false
is_nil-append [] m = refl
is_nil-append (k ∷ ms) m = refl

pop_front-append :
    (ms : List ℕ) (m : ℕ) → is_nil ms ≡ false → pop_front (ms ++ m ∷ []) ≡ pop_front ms ++ m ∷ []
unfolding pop_front
pop_front-append [] m h = cc
pop_front-append (k ∷ ms) m h = refl

-- The only message of the queue goes to the socket, or the connection closes.
pub internal_send-IsFlowing :
    (works : Bool) (msg : ℕ) (rest : List ℕ) (c : Connection)
    → c.message_queue ≡ msg ∷ rest
    → c.accepted ≡ c.started ++ msg ∷ rest
    → c.is_writing ≡ false
    → (is_disconnected c.state ≡ true → c.is_registered ≡ false)
    → IsFlowing (internal_send works msg c)
unfolding internal_send
internal_send-IsFlowing true msg rest c queue order idle unlisted = record {
  rest = rest;
  order = order ∙ sym (append_assoc c.started (msg ∷ []) rest);
  flight = λ w. (ap is_nil queue, unfold pop_front in sym (ap pop_front queue));
  idle = λ w g. cc;
  unlisted = unlisted;
  shut = λ g o. refl;
}
internal_send-IsFlowing false msg rest c queue order idle unlisted =
    unfold close in
    unfold close_socket in
    rw (or_true (is_nil c.message_queue)) (record {
      rest = msg ∷ rest;
      order = order;
      flight = λ w. cc;
      idle = λ w g. cc;
      unlisted = λ g. refl;
      shut = λ g o. cc;
    })
  where
    or_true : (b : Bool) → (b || true) ≡ true
    or_true true = refl
    or_true false = refl

pub send-IsFlowing :
    (works : Bool) (msg : ℕ) (c : Connection) → IsFlowing c → IsFlowing (send works msg c)
unfolding send
send-IsFlowing works msg c f = elim (Bool-cases (is_disconnected c.state)) [
  | inl gone ↦ rw gone f
  | inr live ↦ elim (Bool-cases (is_nil c.message_queue)) [
    | inl empty ↦
        let not_writing : c.is_writing ≡ false = ground (arith, empty, f.flight) in
        let drained = f.idle not_writing live in
        rw (live, empty)
          (internal_send-IsFlowing works msg []
            (record c {
              message_queue = c.message_queue ++ msg ∷ [];
              accepted = c.accepted ++ msg ∷ [];
            })
            (ap (λ ms. ms ++ msg ∷ []) drained.0)
            (ap (λ ms. ms ++ msg ∷ [])
              (f.order ∙ ap (λ ms. c.started ++ ms) drained.1 ∙ append-nil c.started))
            not_writing f.unlisted)
    | inr busy ↦
        rw (live, busy)
          (record {
            rest = f.rest ++ msg ∷ [];
            order = ap (λ ms. ms ++ msg ∷ []) f.order ∙ append_assoc c.started f.rest (msg ∷ []);
            flight = λ w. (
              is_nil-append c.message_queue msg,
              ap (λ ms. ms ++ msg ∷ []) (f.flight w).1
                  ∙ sym (pop_front-append c.message_queue msg busy),
            );
            idle = λ w g.
                absurd (not_idle (is_nil c.message_queue) busy (ap is_nil (f.idle w live).0));
            unlisted = f.unlisted;
            shut = f.shut;
          })
  ]
]
  where
    not_idle : (b : Bool) → b ≡ false → b ≡ true → ⊥
    not_idle b p q = cc

call_all-IsFlowing :
    (calls : List ProtocolCall) (c : Connection) → IsFlowing c → IsFlowing (call_all calls c)
unfolding call_all call
call_all-IsFlowing [] c f = f
call_all-IsFlowing (calls_send works msg ∷ ps) c f =
    call_all-IsFlowing ps (send works msg c) (send-IsFlowing works msg c f)
call_all-IsFlowing (calls_close force ∷ ps) c f =
    call_all-IsFlowing ps (close force c) (close-IsFlowing force c f)

pub parse_packet-IsFlowing :
    (error works makes : Bool) (calls : List ProtocolCall) (c : Connection)
    → IsFlowing c
    → IsFlowing (parse_packet error works makes calls c)
unfolding parse_packet
parse_packet-IsFlowing true works makes calls c f =
    close-IsFlowing true (record c { reading = no_read }) f
parse_packet-IsFlowing false works makes calls c f = elim (Bool-cases (is_disconnected c.state)) [
  | inl gone ↦ rw gone f
  | inr live ↦ elim (Bool-cases (c.received_first || c.has_protocol || makes)) [
    | inl goes ↦
        rw (live, goes)
          (start_read-IsFlowing works (header 2)
            (call_all calls
              (record c { reading = no_read; received_first = true; has_protocol = true }))
            (call_all-IsFlowing calls
              (record c { reading = no_read; received_first = true; has_protocol = true }) f))
    | inr none_made ↦
        rw (live, none_made)
          (close-IsFlowing true (record c { reading = no_read; received_first = true }) f)
  ]
]
