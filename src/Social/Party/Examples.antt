-- ===== src/Social/Party/Examples.antt =====
-- Runs of parties, and their theorems at concrete inputs.
use tib.Common.{◌+◌, ◌≡◌, refl, true, false, [], ◌∷◌, some}
use tib.Social.Party.{Context, Party, update_shared_experience, update_vocations_list}
use tib.Social.Party.Actions.{
  World, set, is_at, leave_party, create, store, invite_player, join_party,
}
use tib.Social.Party.Roster.{IsSound}
use tib.Social.Party.Requests.{
  invites, joins, serve, Reached, start, served, nobody, get_party, is_inviting,
}
use tib.Social.Party.Departure.{HasLeft, leave_party-HasLeft}
use tib.Social.Party.Sound.{Reached-IsSound}
use tib.Social.Party.Requests.{handle}

abbrev context : Context
context = record {
  level = λ player. 30 + player;
  vocation = λ player. player;
  position = λ player. record { x = 100; y = 100; z = 7 };
  no_gain_in_fight = λ player. false;
  is_online = λ player. true;
  in_fight = λ player. false;
  min_level = λ level. 20;
  now = 5000;
  pz_locked = 1000;
  may_disband = true;
  may_leave = true;
  may_join = true;
}

abbrev invited_world : World
invited_world = serve context (invites 1 2 100) nobody

abbrev joined_world : World
joined_world = serve context (joins 2 1) invited_world

joined-Reached : Reached joined_world
joined-Reached =
    served context (joins 2 1) invited_world refl tt
      (served context (invites 1 2 100) nobody refl refl start)

abbrev pair : Party
pair = record {
  leader = 1;
  member_list = 2 ∷ [];
  invite_list = [];
  ticks_map = [];
  extra_exp_rate = 30;
  shared_exp_active = false;
  shared_exp_enabled = false;
}

joined_run : joined_world.parties 100 ≡ some pair
unfolding serve handle get_party is_inviting create set invite_player store join_party
    update_vocations_list update_shared_experience
joined_run = refl

Reached-IsSound_example : IsSound joined_world
Reached-IsSound_example = Reached-IsSound joined_world joined-Reached

leave_party-HasLeft_example :
    ((leave_party context 100 pair 1 joined_world).0 ≡ true)
    × HasLeft 100 1 joined_world (leave_party context 100 pair 1 joined_world).1
unfolding is_at serve handle get_party is_inviting create set invite_player store join_party
    update_vocations_list update_shared_experience
leave_party-HasLeft_example = leave_party-HasLeft context 100 1 pair joined_world refl refl
