-- ===== src/Login/WaitList/Examples.antt =====
-- Runs of the queue, and its theorems at concrete inputs.
use tib.Common.{ℕ, ◌<◌, ◌≡◌, refl, Bool, true, false, [], ◌∷◌, arith}
use tib.Login.WaitList.{
  Wait, WaitListInfo, Player, cleanup_list, admitted, refused, client_login, get_client_slot,
}
use tib.Login.WaitList.Slots.{place, queue, get_client_slot-place}
use tib.Login.WaitList.Queue.{After, IsDistinct, client_login-IsDistinct}
use tib.Login.WaitList.Outcome.{client_login-get_client_slot, cleanup_list-keeps_expired}

abbrev entry : ℕ → Wait
entry guid = record { timeout = 90000; player_guid = guid }

-- Player 5 stands in the priority list, and 6 and 7 behind it.
abbrev crowd : WaitListInfo
crowd = record { priority_wait_list = entry 5 ∷ []; wait_list = entry 6 ∷ entry 7 ∷ [] }

abbrev player : ℕ → Bool → Player
player guid premium = record {
  guid = guid;
  can_always_login = false;
  is_gamemaster = false;
  is_premium = premium;
}

turn_run :
    client_login crowd (player 6 false) 100 98 1000 1000 1000
    ≡ admitted (record { priority_wait_list = entry 5 ∷ []; wait_list = entry 7 ∷ [] })
unfolding client_login
turn_run = refl

abbrev after_join : WaitListInfo
after_join = record {
  priority_wait_list = entry 5 ∷ record { timeout = 21000; player_guid = 9 } ∷ [];
  wait_list = entry 6 ∷ entry 7 ∷ [];
}

join_run : client_login crowd (player 9 true) 100 98 1000 1000 1000 ≡ refused after_join
unfolding client_login
join_run = refl

get_client_slot-place_example : get_client_slot crowd 7 ≡ place 7 (queue crowd)
get_client_slot-place_example = get_client_slot-place crowd 7

crowd-IsDistinct : IsDistinct crowd
crowd-IsDistinct guid = ground arith

client_login-IsDistinct_example :
    After IsDistinct (client_login crowd (player 9 true) 100 98 1000 1000 1000)
client_login-IsDistinct_example =
    client_login-IsDistinct crowd (player 9 true) 100 98 1000 1000 1000 crowd-IsDistinct

client_login-get_client_slot_example : 0 < get_client_slot after_join 9
client_login-get_client_slot_example =
    client_login-get_client_slot crowd after_join (player 9 true) 100 98 1000 1000 1000 join_run

cleanup_list-keeps_expired_example : cleanup_list 95000 (entry 5 ∷ []) ≡ entry 5 ∷ []
cleanup_list-keeps_expired_example =
    cleanup_list-keeps_expired 95000 (entry 5 ∷ []) (omega arith) (omega arith)
