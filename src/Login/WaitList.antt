-- ===== src/Login/WaitList.antt =====
-- src/waitlist.cpp: the queue of players that wait for a free place. A list keeps the order of the
-- `std::list`. Each reading of `OTSYS_TIME()` is an argument; the configuration's number of players
-- and the number online are too. `std::size_t` has 64 bits, and `timeout - time` is unsigned, as
-- the conversions of C++ make it.
pub mod Slots
pub mod Queue
pub mod Outcome
mod Examples
use tib.Common.{
  ℕ, suc, ◌+◌, ◌*◌, Bool, true, false, ◌&&◌, ◌||◌, List, [], ◌∷◌, ◌++◌, length, ltb, leb, ◌==◌,
  if◌then◌else◌,
}
use tib.Common.Word.{add_u64, sub_u64}

pub record Wait : Type 0 where
  pub timeout : ℕ
  pub player_guid : ℕ

pub record WaitListInfo : Type 0 where
  pub priority_wait_list : List Wait
  pub wait_list : List Wait

-- What the queue asks of a player.
pub record Player : Type 0 where
  pub guid : ℕ
  pub can_always_login : Bool
  pub is_gamemaster : Bool
  pub is_premium : Bool

pub cleanup_list : ℕ → List Wait → List Wait
cleanup_list time [] = []
cleanup_list time (w ∷ ws) =
    let rest = cleanup_list time ws in if leb (sub_u64 w.timeout time) 0 then rest else w ∷ rest

pub get_time : ℕ → ℕ
get_time slot =
    if ltb slot 5
    then 5
    else if ltb slot 10
    then 10
    else if ltb slot 20
    then 20
    else if ltb slot 50
    then 60
    else 120

pub get_timeout : ℕ → ℕ
unfolding get_time
get_timeout slot = get_time slot + 15

-- Where a search has come to: the list in which the player stands, or the end, with the slot.
pub data Found : Type 0 where
  in_priority in_wait at_end : ℕ → Found

-- The loop over the second list.
find_wait : List Wait → ℕ → ℕ → Found
find_wait [] guid slot = at_end slot
find_wait (w ∷ ws) guid slot =
    let rest = find_wait ws guid (slot + 1) in if w.player_guid == guid then in_wait slot else rest

-- The loop over the first list, and the second one after it.
pub find_priority : List Wait → List Wait → ℕ → ℕ → Found
unfolding find_wait
find_priority [] ws guid slot = find_wait ws guid slot
find_priority (p ∷ ps) ws guid slot =
    let rest = find_priority ps ws guid (slot + 1) in
    if p.player_guid == guid then in_priority slot else rest

pub find_client : WaitListInfo → ℕ → Found
unfolding find_priority
find_client info guid = find_priority info.priority_wait_list info.wait_list guid 1

-- `erase` of the entry that the search found, and the write of its timeout.
pub erase_client : ℕ → List Wait → List Wait
erase_client guid [] = []
erase_client guid (w ∷ ws) = if w.player_guid == guid then ws else w ∷ erase_client guid ws

pub delay_client : ℕ → ℕ → List Wait → List Wait
delay_client guid timeout [] = []
delay_client guid timeout (w ∷ ws) =
    if w.player_guid == guid
    then record w { timeout = timeout } ∷ ws
    else w ∷ delay_client guid timeout ws

-- `clientLogin` answers true or false; `undefined` is an `erase` from a list that does not hold the
-- entry, to which the language gives no meaning.
pub data Login : Type 0 where
  admitted refused : WaitListInfo → Login
  undefined : Login

-- A player that the search found, at time `now`.
login_found : WaitListInfo → ℕ → Found → ℕ → ℕ → ℕ → Login → Login
unfolding erase_client delay_client get_timeout
login_found info guid (in_priority slot) max_players online now new =
    if leb (online + slot) max_players
    then undefined
    else refused (record info {
      priority_wait_list =
          delay_client guid (add_u64 now (get_timeout slot * 1000)) info.priority_wait_list;
    })
login_found info guid (in_wait slot) max_players online now new =
    if leb (online + slot) max_players
    then admitted (record info { wait_list = erase_client guid info.wait_list })
    else refused (record info {
      wait_list = delay_client guid (add_u64 now (get_timeout slot * 1000)) info.wait_list;
    })
login_found info guid (at_end slot) max_players online now new = new

-- A player that was not found goes to the end of its list.
login_new : WaitListInfo → Player → ℕ → Login
unfolding get_timeout
login_new info player now =
    let priority = length info.priority_wait_list in
    let slot = priority + length info.wait_list in
    if player.is_premium
    then refused (record info {
      priority_wait_list =
          info.priority_wait_list
          ++ record {
            timeout = add_u64 now (get_timeout (priority + 1) * 1000);
            player_guid = player.guid;
          }
            ∷ [];
    })
    else refused (record info {
      wait_list =
          info.wait_list
          ++ record {
            timeout = add_u64 now (get_timeout (slot + 1) * 1000);
            player_guid = player.guid;
          }
            ∷ [];
    })

is_empty : List Wait → Bool
is_empty [] = true
is_empty (w ∷ ws) = false

-- The lists after the two cleanups, which read the clock one after the other.
pub cleanup : WaitListInfo → ℕ → ℕ → WaitListInfo
unfolding cleanup_list
cleanup info t1 t2 = record {
  priority_wait_list = cleanup_list t1 info.priority_wait_list;
  wait_list = cleanup_list t2 info.wait_list;
}

-- The two tests that let a player in at once.
pub has_right : Player → Bool
has_right player = player.can_always_login || player.is_gamemaster

pub has_room : WaitListInfo → ℕ → ℕ → Bool
unfolding is_empty
has_room info max_players online =
    max_players == 0
    || is_empty info.priority_wait_list && is_empty info.wait_list && ltb online max_players

pub client_login : WaitListInfo → Player → ℕ → ℕ → ℕ → ℕ → ℕ → Login
unfolding cleanup find_client login_found login_new has_right has_room
client_login info player max_players online t1 t2 t3 =
    let clean = cleanup info t1 t2 in
    if has_right player
    then admitted info
    else if has_room info max_players online
    then admitted info
    else login_found clean player.guid (find_client clean player.guid) max_players online t3
        (login_new clean player t3)

slot_of : Found → ℕ
slot_of (in_priority slot) = slot
slot_of (in_wait slot) = slot
slot_of (at_end slot) = 0

-- `it == waitList.end()` is false for an entry of either list. The code asks only this.
pub get_client_slot : WaitListInfo → ℕ → ℕ
unfolding find_client slot_of
get_client_slot info guid = slot_of (find_client info guid)
