-- ===== src/Social/Party.antt =====
-- src/party.h and src/party.cpp: parties of players, with the part of src/player.cpp that keeps a
-- player's invitations. Players and parties are numbers, for their addresses. What a party asks of
-- its players, of the clock, of the configuration and of the event scripts is a record `Context`.
-- Messages to clients change no state.

pub mod Actions
pub mod Lists
pub mod Roster
pub mod Kept
pub mod Leaving
pub mod Ending
pub mod Leader
pub mod Departure
pub mod Requests
pub mod Sound
mod Examples
use tib.Common.{
  ℕ, suc, ◌+◌, ◌*◌, ◌-◌, Bool, true, false, not, ◌&&◌, ◌||◌, List, [], ◌∷◌, Option, none, some, ltb,
  leb, ◌==◌, if◌then◌else◌, contains, length,
}
use tib.Common.Word.{sub_u64}
use tib.Common.Assoc.{lookup, insert, remove}
use tib.Net.Message.{Position}

-- `min_level` is two thirds of a level, rounded up, as the arithmetic of floats gives it. A script
-- that answers false forbids what it is asked about.
pub record Context : Type 0 where
  pub level : ℕ → ℕ
  pub vocation : ℕ → ℕ
  pub position : ℕ → Position
  pub no_gain_in_fight : ℕ → Bool
  pub is_online : ℕ → Bool
  pub in_fight : ℕ → Bool
  pub min_level : ℕ → ℕ
  pub now : ℕ
  pub pz_locked : ℕ
  pub may_disband : Bool
  pub may_leave : Bool
  pub may_join : Bool

-- `extra_exp_rate` is in hundredths.
pub record Party : Type 0 where
  pub leader : ℕ
  pub member_list : List ℕ
  pub invite_list : List ℕ
  pub ticks_map : List (ℕ × ℕ)
  pub extra_exp_rate : ℕ
  pub shared_exp_active : Bool
  pub shared_exp_enabled : Bool

pub is_empty : Party → Bool
is_empty party = elim party.member_list [
  | [] ↦ elim party.invite_list [ [] ↦ true | x ∷ xs ↦ false ]
  | x ∷ xs ↦ false
]

highest_level : Context → ℕ → List ℕ → ℕ
highest_level g highest [] = highest
highest_level g highest (m ∷ ms) =
    highest_level g (if ltb highest (g.level m) then g.level m else highest) ms

distance : ℕ → ℕ → ℕ
distance a b = (a - b) + (b - a)

-- `Position::areInRange<30, 30, 1>`.
in_range : Position → Position → Bool
unfolding distance
in_range p q = leb (distance p.x q.x) 30 && leb (distance p.y q.y) 30 && leb (distance p.z q.z) 1

-- A player that may not gain in a fight need not have fought.
is_active : Context → Option ℕ → Bool
is_active g none = false
is_active g (some at) = leb (sub_u64 g.now at) g.pz_locked

pub can_use_shared_experience : Context → Party → ℕ → Bool
unfolding highest_level in_range is_active
can_use_shared_experience g party player = elim party.member_list [
  | [] ↦ false
  | m ∷ ms ↦
      leb (g.min_level (highest_level g (g.level party.leader) (m ∷ ms))) (g.level player)
      && in_range (g.position party.leader) (g.position player)
      && (g.no_gain_in_fight player || is_active g (lookup player party.ticks_map))
]

can_all_use : Context → Party → List ℕ → Bool
unfolding can_use_shared_experience
can_all_use g party [] = true
can_all_use g party (m ∷ ms) = can_use_shared_experience g party m && can_all_use g party ms

pub can_enable_shared_experience : Context → Party → Bool
unfolding can_all_use
can_enable_shared_experience g party =
    can_use_shared_experience g party party.leader && can_all_use g party party.member_list

pub update_shared_experience : Context → Party → Party
unfolding can_enable_shared_experience
update_shared_experience g party =
    if party.shared_exp_active
    then record party { shared_exp_enabled = can_enable_shared_experience g party }
    else party

-- The set of vocations; VOCATION_NONE is 0.
add_vocation : ℕ → List ℕ → List ℕ
add_vocation id ids = if id == 0 || contains id ids then ids else id ∷ ids

vocations : Context → List ℕ → List ℕ
unfolding add_vocation
vocations g [] = []
vocations g (p ∷ ps) = add_vocation (g.vocation p) (vocations g ps)

rate : ℕ → ℕ
rate size = if ltb 1 size then size * (10 + (size - 1) * 5) else 20

pub update_vocations_list : Context → Party → Party
unfolding vocations rate
update_vocations_list g party = record party {
  extra_exp_rate = rate (length (vocations g (party.leader ∷ party.member_list)));
}

pub clear_player_points : Context → ℕ → Party → Party
unfolding update_shared_experience
clear_player_points g player party = elim (lookup player party.ticks_map) [
  | none ↦ party
  | some at ↦
      update_shared_experience g (record party { ticks_map = remove player party.ticks_map })
]

pub update_player_ticks : Context → ℕ → ℕ → Party → Party
unfolding update_shared_experience
update_player_ticks g player points party =
    if not (points == 0) && not (g.no_gain_in_fight player)
    then update_shared_experience g
        (record party { ticks_map = insert player g.now party.ticks_map })
    else party

-- The answer, and the party.
pub set_shared_experience : Context → ℕ → Bool → Party → Bool × Party
unfolding can_enable_shared_experience
set_shared_experience g player active party =
    if not (party.leader == player)
    then (false, party)
    else (true, switch active party.shared_exp_active)
  where
    switch : Bool → Bool → Party
    switch true false = record party {
      shared_exp_active = true;
      shared_exp_enabled =
          can_enable_shared_experience g (record party { shared_exp_active = true });
    }
    switch false true = record party { shared_exp_active = false }
    switch true true = party
    switch false false = party
