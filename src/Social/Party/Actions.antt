-- ===== src/Social/Party/Actions.antt =====
-- The operations of src/party.cpp that change who belongs to a party, and those of src/player.cpp
-- on a player's invitations. Every pointer from a player to its party, and every list of
-- invitations, stands in one record, as the operations of a party change those of other players.
use tib.Common.{
  ℕ, Bool, true, false, not, ◌&&◌, ◌||◌, List, [], ◌∷◌, ◌++◌, Option, none, some, ◌==◌,
  if◌then◌else◌, contains, erase,
}
unfoldable pub use tib.Common.Maps.{set, is_at}
use tib.Social.Party.{
  Context, Party, is_empty, update_shared_experience, update_vocations_list, clear_player_points,
}

-- `none` is a player without a party, or a party that was deleted.
pub record World : Type 0 where
  pub party_of : ℕ → Option ℕ
  pub invites_of : ℕ → List ℕ
  pub parties : ℕ → Option Party

-- `std::list::remove` takes out every copy.
unfoldable pub remove_all : ℕ → List ℕ → List ℕ
remove_all p [] = []
remove_all p (q ∷ qs) = let rest = remove_all p qs in if q == p then rest else q ∷ rest

unfoldable pub add_party_invitation : ℕ → ℕ → (ℕ → List ℕ) → ℕ → List ℕ
add_party_invitation p player invites =
    if contains p (invites player) then invites else set player (p ∷ invites player) invites

unfoldable pub remove_party_invitation : ℕ → ℕ → (ℕ → List ℕ) → ℕ → List ℕ
remove_party_invitation p player invites = set player (remove_all p (invites player)) invites

-- The constructor. A new party is at an address where none is.
unfoldable pub create : ℕ → ℕ → World → World
create p leader w = record w {
  party_of = set leader (some p) w.party_of;
  parties =
      set p
        (some (record {
          leader = leader;
          member_list = [];
          invite_list = [];
          ticks_map = [];
          extra_exp_rate = 20;
          shared_exp_active = false;
          shared_exp_enabled = false;
        }))
        w.parties;
}

-- The loops over the members and the invitees.
unfoldable pub leave_all : List ℕ → (ℕ → Option ℕ) → ℕ → Option ℕ
leave_all [] party_of = party_of
leave_all (m ∷ ms) party_of = leave_all ms (set m none party_of)

unfoldable pub withdraw_all : ℕ → List ℕ → (ℕ → List ℕ) → ℕ → List ℕ
withdraw_all p [] invites = invites
withdraw_all p (i ∷ is) invites = withdraw_all p is (remove_party_invitation p i invites)

-- `party` is what stands at `p`.
unfoldable pub disband : Context → ℕ → Party → World → World
disband g p party w =
    if g.may_disband
    then record {
      party_of = leave_all party.member_list (set party.leader none w.party_of);
      invites_of = withdraw_all p party.invite_list w.invites_of;
      parties = set p none w.parties;
    }
    else w

-- The write of a party after a change.
unfoldable pub store : ℕ → Party → World → World
store p party w = record w { parties = set p (some party) w.parties }

-- The answer, and the party: the new leader leaves its place, and the old one goes to the front.
unfoldable pub pass_leadership : Context → Party → ℕ → Party
pass_leadership g party player =
    update_shared_experience g (record party {
      leader = player;
      member_list = party.leader ∷ erase player party.member_list;
    })

unfoldable pub pass_party_leadership : Context → ℕ → Party → ℕ → World → Bool × World
pass_party_leadership g p party player w =
    if party.leader == player || not (is_at (w.party_of player) p)
    then (false, w)
    else (true, store p (pass_leadership g party player) w)

-- Who leads after the leader goes: nobody if the party then ends.
unfoldable pub next_leader : List ℕ → List ℕ → Option ℕ
next_leader [] invites = none
next_leader (m ∷ []) [] = none
next_leader (m ∷ []) (i ∷ is) = some m
next_leader (m ∷ n ∷ ms) invites = some m

-- The call of `passPartyLeadership` in `leaveParty`, of which only the party is used.
unfoldable pub hand_over : Context → ℕ → Party → ℕ → World → Party
hand_over g p party player w =
    if party.leader == player || not (is_at (w.party_of player) p)
    then party
    else pass_leadership g party player

-- The end of `leaveParty`, from the removal of the player on.
unfoldable pub leave_rest : Context → ℕ → ℕ → Bool → Party → World → World
leave_rest g p player missing_leader party w =
    let rest = clear_player_points g player (
      update_vocations_list g (
        update_shared_experience g
          (record party { member_list = erase player party.member_list }))) in
    let left = store p rest (record w { party_of = set player none w.party_of }) in
    if missing_leader || is_empty rest then disband g p rest left else left

unfoldable pub leader_leaves : Context → ℕ → Party → ℕ → World → Option ℕ → World
leader_leaves g p party player w none = leave_rest g p player true party w
leader_leaves g p party player w (some m) = leave_rest g p player false (hand_over g p party m w) w

unfoldable pub leave_party : Context → ℕ → Party → ℕ → World → Bool × World
leave_party g p party player w =
    if not (is_at (w.party_of player) p) && not (party.leader == player)
    then (false, w)
    else if not g.may_leave
    then (false, w)
    else if party.leader == player
    then (true, leader_leaves g p party player w (next_leader party.member_list party.invite_list))
    else (true, leave_rest g p player false party w)

unfoldable pub join_party : Context → ℕ → Party → ℕ → World → Bool × World
join_party g p party player w =
    if not g.may_join
    then (false, w)
    else if contains player party.invite_list
    then (
      true,
      record {
        party_of = set player (some p) w.party_of;
        invites_of = remove_party_invitation p player w.invites_of;
        parties =
            set p
              (some (
                update_vocations_list g (
                  update_shared_experience g (record party {
                    invite_list = erase player party.invite_list;
                    member_list = party.member_list ++ player ∷ [];
                  }))))
              w.parties;
      },
    )
    else (false, w)

unfoldable pub remove_invite : Context → ℕ → Party → ℕ → Bool → World → Bool × World
remove_invite g p party player remove_from_player w =
    if contains player party.invite_list
    then (
      true,
      let rest = record party { invite_list = erase player party.invite_list } in
          let invites =
            if remove_from_player
            then remove_party_invitation p player w.invites_of
            else w.invites_of in
          let left = store p rest (record w { invites_of = invites }) in
          if is_empty rest then disband g p rest left else left,
    )
    else (false, w)

unfoldable pub invite_player : ℕ → Party → ℕ → World → Bool × World
invite_player p party player w = if contains player party.invite_list then (false, w) else (
  true,
  store p (record party { invite_list = party.invite_list ++ player ∷ [] })
      (record w { invites_of = add_party_invitation p player w.invites_of }),
)
