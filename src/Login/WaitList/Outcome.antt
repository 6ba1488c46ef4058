-- ===== src/Login/WaitList/Outcome.antt =====
-- What a login that is not let in at once leads to, a slot for the player that is turned away, and
-- what the cleanup does to entries whose time ran out.
use tib.Common.{
  ℕ, ◌+◌, ◌*◌, ◌<◌, ◌≡◌, ◌≢◌, refl, sym, Bool, true, false, List, [], ◌∷◌, arith, leb, ◌==◌,
  if◌then◌else◌, All, ==_refl,
}
use tib.Common.Word.{u64_mod, add_u64, sub_u64}
use tib.Login.WaitList.{
  Wait, WaitListInfo, Player, Found, in_priority, in_wait, at_end, cleanup_list, cleanup, find_wait,
  find_priority, find_client, get_timeout, Login, admitted, refused, undefined, login_found,
  login_new, has_right, has_room, client_login, get_client_slot,
}
use tib.Login.WaitList.Slots.{guids, queue, place, get_client_slot-place}
use tib.Login.WaitList.Queue.{count, total-count, delay_client-guids, pushed-queue}

place-pos : (guid : ℕ) (xs : List ℕ) → 0 < count guid xs → 0 < place guid xs
unfolding place
place-pos guid [] h = absurd (omega arith)
place-pos guid (x ∷ xs) h = ground (arith, place-pos guid xs)

-- The player stands in the queue, if the login turned it away.
abbrev Waits : ℕ → Login → Type 0
Waits guid (admitted info) = Unit {0}
Waits guid (refused info) = 0 < count guid (queue info)
Waits guid undefined = Unit {0}

Waits-if :
    (guid : ℕ) (b : Bool) (x y : Login)
    → Waits guid x
    → Waits guid y
    → Waits guid (if b then x else y)
Waits-if guid true x y h k = h
Waits-if guid false x y h k = k

is_end : Found → Bool
is_end (in_priority slot) = false
is_end (in_wait slot) = false
is_end (at_end slot) = true

find_wait-found :
    (ws : List Wait) (guid slot : ℕ)
    → is_end (find_wait ws guid slot) ≡ false
    → 0 < count guid (guids ws)
unfolding find_wait is_end
find_wait-found [] guid slot h = cc
find_wait-found (w ∷ ws) guid slot h = ground (arith, find_wait-found ws guid (slot + 1))

find_priority-found :
    (ps ws : List Wait) (guid slot : ℕ)
    → is_end (find_priority ps ws guid slot) ≡ false
    → 0 < count guid (guids ps) + count guid (guids ws)
unfolding find_priority is_end
find_priority-found [] ws guid slot h = omega (arith, find_wait-found ws guid slot h)
find_priority-found (p ∷ ps) ws guid slot h =
    ground (arith, find_priority-found ps ws guid (slot + 1))

delayed-Waits :
    (info other : WaitListInfo) (guid : ℕ)
    → guids other.priority_wait_list ≡ guids info.priority_wait_list
    → guids other.wait_list ≡ guids info.wait_list
    → 0 < count guid (queue info)
    → 0 < count guid (queue other)
delayed-Waits info other guid e f h =
    rw (total-count guid other, e, f, sym (total-count guid info)) h

login_found-Waits :
    (info : WaitListInfo) (guid : ℕ) (found : Found) (max_players online now : ℕ) (new : Login)
    → (is_end found ≡ false → 0 < count guid (queue info))
    → Waits guid new
    → Waits guid (login_found info guid found max_players online now new)
unfolding login_found is_end
login_found-Waits info guid (in_priority slot) max_players online now new h n =
    Waits-if guid (leb (online + slot) max_players) _ _ tt (
      delayed-Waits info _ guid
        (delay_client-guids guid (add_u64 now (get_timeout slot * 1000)) info.priority_wait_list)
        refl (h refl))
login_found-Waits info guid (in_wait slot) max_players online now new h n =
    Waits-if guid (leb (online + slot) max_players) _ _ tt (
      delayed-Waits info _ guid refl
        (delay_client-guids guid (add_u64 now (get_timeout slot * 1000)) info.wait_list) (h refl))
login_found-Waits info guid (at_end slot) max_players online now new h n = n

login_new-Waits :
    (info : WaitListInfo) (player : Player) (now : ℕ)
    → Waits player.guid (login_new info player now)
unfolding login_new
login_new-Waits info player now =
    let self : (player.guid == player.guid) ≡ true = ==_refl player.guid in
    Waits-if player.guid player.is_premium _ _
      (rw ((pushed-queue info _ player.guid).0, self) (omega arith))
      (rw ((pushed-queue info _ player.guid).1, self) (omega arith))

client_login-Waits :
    (info : WaitListInfo) (player : Player) (max_players online t1 t2 t3 : ℕ)
    → Waits player.guid (client_login info player max_players online t1 t2 t3)
unfolding client_login find_client
client_login-Waits info player max_players online t1 t2 t3 =
    let clean = cleanup info t1 t2 in
    let guid = player.guid in
    Waits-if guid (has_right player) (admitted info) _ tt (
      Waits-if guid (has_room info max_players online) (admitted info) _ tt (
        login_found-Waits clean guid (find_client clean guid) max_players online t3
          (login_new clean player t3)
          (λ found.
            rw (total-count guid clean)
              (find_priority-found clean.priority_wait_list clean.wait_list guid 1 found))
          (login_new-Waits clean player t3)))

-- A player that is turned away has a slot in the queue from then on.
pub client_login-get_client_slot :
    (info next : WaitListInfo) (player : Player) (max_players online t1 t2 t3 : ℕ)
    → client_login info player max_players online t1 t2 t3 ≡ refused next
    → 0 < get_client_slot next player.guid
client_login-get_client_slot info next player max_players online t1 t2 t3 e =
    let waits : 0 < count player.guid (queue next) =
      rw e at (client_login-Waits info player max_players online t1 t2 t3) in
    rw (get_client_slot-place next player.guid) (place-pos player.guid (queue next) waits)

-- An entry stays as long as its time differs from the clock: one whose time ran out before the
-- cleanup, even by a millisecond, is kept, since the unsigned difference is at most 0 only at 0.
pub cleanup_list-keeps_expired :
    (time : ℕ) (ws : List Wait)
    → time < u64_mod
    → All (λ w. (w.timeout < u64_mod) × (w.timeout ≢ time)) ws
    → cleanup_list time ws ≡ ws
unfolding cleanup_list
cleanup_list-keeps_expired time [] h all = refl
cleanup_list-keeps_expired time (w ∷ ws) h all =
    let rest = cleanup_list-keeps_expired time ws h all.1 in
    let stays : leb (sub_u64 w.timeout time) 0 ≡ false = ground (arith, all.0) in rw (stays, rest)
