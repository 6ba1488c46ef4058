-- ===== src/Social/Party/Requests.antt =====
-- What players ask for about parties: the handlers of src/game.cpp that find the party and test
-- who asks. `fresh` is the address of the party that is made where there is none.
use tib.Common.{
  ◌&&◌, ℕ, ◌≡◌, Bool, true, false, [], Option, none, some, ◌==◌, if◌then◌else◌, contains,
}
use tib.Social.Party.{Context, Party}
use tib.Social.Party.Actions.{
  World, is_at, create, invite_player, join_party, remove_invite, pass_party_leadership,
  leave_party,
}

-- `player->getParty()`, with its address.
unfoldable pub get_party : World → ℕ → Option (ℕ × Party)
get_party w player = elim (w.party_of player) [
  | none ↦ none
  | some p ↦ elim (w.parties p) [ none ↦ none | some party ↦ some (p, party) ]
]

unfoldable pub is_inviting : World → ℕ → ℕ → Bool
is_inviting w player other = elim (get_party w player) [
  | none ↦ false
  | some (p, party) ↦ if party.leader == player then contains other party.invite_list else false
]

pub data Request : Type 0 where
  invites : (player invited fresh : ℕ) → Request
  joins : (player leader : ℕ) → Request
  revokes : (player invited : ℕ) → Request
  passes : (player member : ℕ) → Request
  leaves : (player : ℕ) → Request

-- What a handler does with the party that it found.
abbrev pub at_party : (ℕ → Party → World) → World → Option (ℕ × Party) → World
at_party act w none = w
at_party act w (some (p, party)) = act p party

-- And only if the player leads it.
abbrev pub led : ℕ → Party → World → World → World
led player party done w = if party.leader == player then done else w

abbrev pub invite_from : World → ℕ → ℕ → ℕ → World
invite_from w player invited fresh = elim (w.party_of player) [
  | none ↦
      let made = create fresh player w in
      at_party (λ p party. (invite_player p party invited made).1) made (get_party made player)
  | some p ↦
      at_party (λ q party. led player party (invite_player q party invited w).1 w) w
        (get_party w player)
]

abbrev pub when_alone : Option ℕ → World → World → World
when_alone none done w = done
when_alone (some p) done w = w

unfoldable pub handle : Context → Request → World → World
handle g (invites player invited fresh) w =
    if is_inviting w invited player
    then w
    else when_alone (w.party_of invited) (invite_from w player invited fresh) w
handle g (joins player leader) w =
    if is_inviting w leader player
    then at_party
        (λ p party.
          led leader party (when_alone (w.party_of player) (join_party g p party player w).1 w) w)
        w (get_party w leader)
    else w
handle g (revokes player invited) w =
    at_party
      (λ p party.
        led player party
          (if is_inviting w player invited then (remove_invite g p party invited true w).1 else w)
          w)
      w (get_party w player)
handle g (passes player member) w =
    at_party
      (λ p party.
        led player party
          (if is_at (w.party_of member) p then (pass_party_leadership g p party member w).1 else w)
          w)
      w (get_party w player)
handle g (leaves player) w =
    if g.in_fight player
    then w
    else at_party (λ p party. (leave_party g p party player w).1) w (get_party w player)

-- Everyone that a request names.
abbrev pub are_online : Context → Request → Bool
are_online g (invites player invited fresh) = g.is_online player && g.is_online invited
are_online g (joins player leader) = g.is_online player && g.is_online leader
are_online g (revokes player invited) = g.is_online player && g.is_online invited
are_online g (passes player member) = g.is_online player && g.is_online member
are_online g (leaves player) = g.is_online player

unfoldable pub serve : Context → Request → World → World
serve g r w = if are_online g r then handle g r w else w

-- A party that is made needs an address at which none stands.
abbrev pub IsFree : World → Request → Type 0
IsFree w (invites player invited fresh) = w.parties fresh ≡ none
IsFree w (joins player leader) = Unit
IsFree w (revokes player invited) = Unit
IsFree w (passes player member) = Unit
IsFree w (leaves player) = Unit

-- Nobody is in a party.
abbrev pub nobody : World
nobody = record { party_of = λ player. none; invites_of = λ player. []; parties = λ p. none }

-- The worlds that come about by requests, each with its own clock, players and answers of scripts.
pub data Reached : World → Type 0 where
  start : Reached nobody
  served :
      (g : Context) (r : Request) (w : World)
      → g.may_disband ≡ true
      → IsFree w r
      → Reached w
      → Reached (serve g r w)
