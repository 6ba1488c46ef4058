-- ===== src/Net/Connection/Writing.antt =====
-- What ties the queue, the write in flight and the messages sent, and that the handlers keep it.
use tib.Common.{
  ℕ, ◌+◌, ◌-◌, ◌*◌, ◌/◌, ◌≡◌, refl, sym, Bool, true, false, ◌&&◌, ◌||◌, List, [], ◌++◌, arith, ltb,
  leb, ◌==◌, if◌then◌else◌, Bool-cases, inl, inr,
}
use tib.Common.Word.{add_u32}
use tib.Net.Message.{max_size}
use tib.Net.Connection.{
  ConnectionState, disconnected, connecting_stage1, connecting_stage2, game, pending,
  is_disconnected, is_stage2, leave_pending, Reading, no_read, body, Connection, close_socket,
  is_nil, close,
}
use tib.Net.Connection.Handlers.{
  start_read, accept, accept_protocol, Greeting, goes_on, refused, waits, next_char, first_chars,
  greet, enter_game, parse_length, after_greeting, seconds_passed, parse_header, pop_front,
}

-- Of a connection: whether it is disconnected, its queue, whether a write is in flight, what went to
-- the socket and what was taken, whether the socket is open and the connection registered.
pub record Flow (gone : Bool) (queue : List ℕ) (writing : Bool) (started accepted : List ℕ)
    (is_open registered : Bool) : Type 0 where
  pub rest : List ℕ
  pub order : accepted ≡ started ++ rest
  pub flight : writing ≡ true → (is_nil queue ≡ false) × (rest ≡ pop_front queue)
  pub idle : writing ≡ false → gone ≡ false → (queue ≡ []) × (rest ≡ [])
  pub unlisted : gone ≡ true → registered ≡ false
  pub shut : gone ≡ true → is_open ≡ true → writing ≡ true

abbrev pub IsFlowing : Connection → Type 0
IsFlowing c =
    Flow (is_disconnected c.state) c.message_queue c.is_writing c.started c.accepted c.is_open
      c.is_registered

pub close-IsFlowing : (force : Bool) (c : Connection) → IsFlowing c → IsFlowing (close force c)
unfolding close close_socket
close-IsFlowing force c f = elim (Bool-cases (is_nil c.message_queue || force)) [
  | inl now ↦ rw now (record {
    rest = f.rest;
    order = f.order;
    flight = f.flight;
    idle = λ w g. cc;
    unlisted = λ g. refl;
    shut = λ g o. cc;
  })
  | inr later ↦ rw later (record {
    rest = f.rest;
    order = f.order;
    flight = f.flight;
    idle = λ w g. cc;
    unlisted = λ g. refl;
    shut = λ g o. ground (arith, later, f.idle, f.shut);
  })
]

pub start_read-IsFlowing :
    (works : Bool) (reading : Reading) (c : Connection)
    → IsFlowing c
    → IsFlowing (start_read works reading c)
unfolding start_read
start_read-IsFlowing true reading c f = f
start_read-IsFlowing false reading c f = close-IsFlowing true c f

is_disconnected-leave_pending :
    (s : ConnectionState) → is_disconnected (leave_pending s) ≡ is_disconnected s
is_disconnected-leave_pending disconnected = refl
is_disconnected-leave_pending connecting_stage1 = refl
is_disconnected-leave_pending connecting_stage2 = refl
is_disconnected-leave_pending game = refl
is_disconnected-leave_pending pending = refl

-- A connection that is not disconnected before or after flows as it did.
state-IsFlowing :
    (s : ConnectionState) (c : Connection)
    → is_disconnected s ≡ is_disconnected c.state
    → IsFlowing c
    → IsFlowing (record c { state = s })
state-IsFlowing s c e f = rw e f

pub accept-IsFlowing : (works : Bool) (c : Connection) → IsFlowing c → IsFlowing (accept works c)
unfolding accept
accept-IsFlowing works c f =
    start_read-IsFlowing works _ (record c { state = leave_pending c.state })
      (state-IsFlowing (leave_pending c.state) c (is_disconnected-leave_pending c.state) f)

pub accept_protocol-IsFlowing :
    (works : Bool) (c : Connection)
    → is_disconnected c.state ≡ false
    → IsFlowing c
    → IsFlowing (accept_protocol works c)
unfolding accept_protocol
accept_protocol-IsFlowing works c live f =
    accept-IsFlowing works (record c { has_protocol = true; state = connecting_stage2 })
      (state-IsFlowing connecting_stage2 (record c { has_protocol = true }) (sym live) f)

abbrev pub greeted : Greeting → Connection
greeted (goes_on c) = c
greeted (refused c) = c
greeted (waits c) = c

greet-IsFlowing :
    (name : List ℕ) (b0 b1 : ℕ) (c : Connection)
    → IsFlowing c
    → IsFlowing (greeted (greet name b0 b1 c))
unfolding greet first_chars next_char
greet-IsFlowing name b0 b1 c f = ground (arith, f)

is_disconnected-game :
    (last : Bool) (s : ConnectionState)
    → is_disconnected (if last && is_stage2 s then game else s) ≡ is_disconnected s
is_disconnected-game last disconnected = ground arith
is_disconnected-game last connecting_stage1 = ground arith
is_disconnected-game last connecting_stage2 = ground arith
is_disconnected-game last game = ground arith
is_disconnected-game last pending = ground arith

enter_game-IsFlowing :
    (now time_passed : ℕ) (c : Connection) → IsFlowing c → IsFlowing (enter_game now time_passed c)
unfolding enter_game
enter_game-IsFlowing now time_passed c f =
    state-IsFlowing _ c (is_disconnected-game c.received_last_char c.state) f

parse_length-IsFlowing :
    (works : Bool) (b0 b1 : ℕ) (c : Connection)
    → IsFlowing c
    → IsFlowing (parse_length works b0 b1 c)
unfolding parse_length
parse_length-IsFlowing works b0 b1 c f =
    elim (Bool-cases (b0 + 256 * b1 == 0 || leb (max_size - 16) (b0 + 256 * b1))) [
      | inl bad ↦ rw bad (close-IsFlowing true c f)
      | inr good ↦ rw good (start_read-IsFlowing works (body (b0 + 256 * b1)) c f)
    ]

after_greeting-IsFlowing :
    (works : Bool) (now time_passed b0 b1 : ℕ) (g : Greeting)
    → IsFlowing (greeted g)
    → IsFlowing (after_greeting works now time_passed b0 b1 g)
unfolding after_greeting
after_greeting-IsFlowing works now time_passed b0 b1 (goes_on c) f =
    parse_length-IsFlowing works b0 b1 (enter_game now time_passed c)
      (enter_game-IsFlowing now time_passed c f)
after_greeting-IsFlowing works now time_passed b0 b1 (refused c) f = close-IsFlowing true c f
after_greeting-IsFlowing works now time_passed b0 b1 (waits c) f = accept-IsFlowing works c f

pub parse_header-IsFlowing :
    (error works : Bool) (now max_packets : ℕ) (name : List ℕ) (b0 b1 : ℕ) (c : Connection)
    → IsFlowing c
    → IsFlowing (parse_header error works now max_packets name b0 b1 c)
unfolding parse_header
parse_header-IsFlowing true works now max_packets name b0 b1 c f =
    close-IsFlowing true (record c { reading = no_read }) f
parse_header-IsFlowing false works now max_packets name b0 b1 c f =
    elim (Bool-cases (is_disconnected c.state)) [
      | inl gone ↦ rw gone f
      | inr live ↦
          let counted : Connection = record c {
            reading = no_read;
            packets_sent = add_u32 c.packets_sent 1;
          } in
          elim (Bool-cases (
            ltb max_packets
              (counted.packets_sent / seconds_passed now (record c { reading = no_read })))) [
                | inl many ↦ rw (live, many) (close-IsFlowing false counted f)
                | inr few ↦
                    rw (live, few)
                      (after_greeting-IsFlowing works now
                        (seconds_passed now (record c { reading = no_read })) b0 b1
                        (greet name b0 b1 counted) (greet-IsFlowing name b0 b1 counted f))
              ]
    ]
