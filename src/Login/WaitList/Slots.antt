-- ===== src/Login/WaitList/Slots.antt =====
-- The slot of a player is its place in the two lists, one behind the other.
use tib.Common.{ℕ, ◌+◌, ◌-◌, ◌≡◌, refl, List, [], ◌∷◌, ◌++◌, arith, ◌==◌, if◌then◌else◌}
use tib.Login.WaitList.{
  Wait, WaitListInfo, find_wait, find_priority, find_client, slot_of, get_client_slot,
}

-- The queue as it is served: who waits, first to last.
abbrev pub guids : List Wait → List ℕ
guids [] = []
guids (w ∷ ws) = w.player_guid ∷ guids ws

abbrev pub queue : WaitListInfo → List ℕ
queue info = guids info.priority_wait_list ++ guids info.wait_list

-- The place of the first occurrence, counted from 1, or 0.
unfoldable pub place : ℕ → List ℕ → ℕ
place guid [] = 0
place guid (x ∷ xs) =
    let later = place guid xs in if x == guid then 1 else if later == 0 then 0 else later + 1

-- The same, counted on from a slot.
abbrev from_slot : ℕ → ℕ → ℕ
from_slot slot n = if n == 0 then 0 else slot + (n - 1)

find_wait-place :
    (ws : List Wait) (guid slot : ℕ)
    → slot_of (find_wait ws guid slot) ≡ from_slot slot (place guid (guids ws))
unfolding find_wait slot_of place
find_wait-place [] guid slot = refl
find_wait-place (w ∷ ws) guid slot = ground (arith, find_wait-place ws guid (slot + 1))

find_priority-place :
    (ps ws : List Wait) (guid slot : ℕ)
    → slot_of (find_priority ps ws guid slot) ≡ from_slot slot (place guid (guids ps ++ guids ws))
unfolding find_priority slot_of place
find_priority-place [] ws guid slot = find_wait-place ws guid slot
find_priority-place (p ∷ ps) ws guid slot =
    ground (arith, find_priority-place ps ws guid (slot + 1))

-- The slot that a player is told is its place in the queue that has the priority list first and
-- the other list behind it, counted from 1, and 0 for a player that does not wait.
pub get_client_slot-place :
    (info : WaitListInfo) (guid : ℕ) → get_client_slot info guid ≡ place guid (queue info)
unfolding get_client_slot find_client
get_client_slot-place info guid =
    ground (arith, find_priority-place info.priority_wait_list info.wait_list guid 1)
