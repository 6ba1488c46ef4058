-- ===== src/Social/Party/Departure.antt =====
-- Who leaves a party is in none, and the others stay in theirs unless the party ends.
use tib.Common.{
  ℕ, ◌≡◌, ◌∙◌, refl, Bool, true, false, not, ◌&&◌, ◌||◌, ◌⊎◌, List, [], ◌∷◌, Option, none, some,
  ◌==◌, if◌then◌else◌, Bool-cases, inl, inr, ==_refl,
}
use tib.Social.Party.{Context, Party, is_empty}
use tib.Social.Party.Actions.{
  World, set, is_at, disband, store, leave_all, next_leader, hand_over, leave_rest, leader_leaves,
  leave_party,
}
use tib.Social.Party.Kept.{set_self}
use tib.Social.Party.Ending.{left_party}

-- A player stays where it was, or it is in no party and the party at `p` has ended.
abbrev Stays : ℕ → ℕ → World → World → Type 0
Stays p a w v = (v.party_of a ≡ w.party_of a) ⊎ ((v.party_of a ≡ none) × (v.parties p ≡ none))

set-either : (key a : ℕ) (f : ℕ → Option ℕ) → (set key none f a ≡ f a) ⊎ (set key none f a ≡ none)
unfolding set
set-either key a f = elim (Bool-cases (a == key)) [
  | inl here ↦ inr (rw here refl)
  | inr there ↦ inl (rw there refl)
]

leave_all-either :
    (ms : List ℕ) (f : ℕ → Option ℕ) (a : ℕ) → (leave_all ms f a ≡ f a) ⊎ (leave_all ms f a ≡ none)
unfolding leave_all
leave_all-either [] f a = inl refl
leave_all-either (m ∷ ms) f a = elim (leave_all-either ms (set m none f) a) [
  | inr gone ↦ inr gone
  | inl same ↦ elim (set-either m a f) [
    | inl kept ↦ inl (same ∙ kept)
    | inr gone ↦ inr (same ∙ gone)
  ]
]

disband-Stays :
    (g : Context) (p a : ℕ) (party : Party) (w : World) → Stays p a w (disband g p party w)
unfolding disband
disband-Stays g p a party w = elim (Bool-cases g.may_disband) [
  | inr never ↦ rw never (inl refl)
  | inl may ↦
      let ended = set_self p none w.parties in
      rw may (elim (leave_all-either party.member_list (set party.leader none w.party_of) a) [
        | inr gone ↦ inr (gone, ended)
        | inl same ↦ elim (set-either party.leader a w.party_of) [
          | inl kept ↦ inl (same ∙ kept)
          | inr gone ↦ inr (same ∙ gone, ended)
        ]
      ])
]

ends-Stays :
    (g : Context) (p a : ℕ) (party : Party) (w : World) (ends : Bool)
    → Stays p a w (if ends then disband g p party w else w)
ends-Stays g p a party w true = disband-Stays g p a party w
ends-Stays g p a party w false = inl refl

-- What a departure leaves of the players: who goes is in no party, and anyone else stays, or is in no
-- party and the one at `p` has ended.
pub record HasLeft (p player : ℕ) (w v : World) : Type 0 where
  pub gone : v.party_of player ≡ none
  pub others :
      (a : ℕ)
      → (v.party_of a ≡ (if a == player then none else w.party_of a))
        ⊎ ((v.party_of a ≡ none) × (v.parties p ≡ none))

Stays-HasLeft :
    (p player : ℕ) (w u v : World)
    → ((a : ℕ) → u.party_of a ≡ (if a == player then none else w.party_of a))
    → ((a : ℕ) → Stays p a u v)
    → HasLeft p player w v
Stays-HasLeft p player w u v e stays = record {
  gone = elim (stays player) [
    | inl same ↦
        let itself : (player == player) ≡ true = ==_refl player in same ∙ e player ∙ rw itself refl
    | inr ended ↦ ended.0
  ];
  others = λ a. elim (stays a) [ inl same ↦ inl (same ∙ e a) | inr ended ↦ inr ended ];
}

leave_rest-HasLeft :
    (g : Context) (p player : ℕ) (missing_leader : Bool) (party : Party) (w : World)
    → HasLeft p player w (leave_rest g p player missing_leader party w)
unfolding leave_rest store set
leave_rest-HasLeft g p player missing_leader party w =
    let rest = left_party g player party in
    let left = store p rest (record w { party_of = set player none w.party_of }) in
    Stays-HasLeft p player w left _ (λ a. refl)
      (λ a. ends-Stays g p a rest left (missing_leader || is_empty rest))

leader_leaves-HasLeft :
    (g : Context) (p player : ℕ) (party : Party) (w : World) (o : Option ℕ)
    → HasLeft p player w (leader_leaves g p party player w o)
unfolding leader_leaves
leader_leaves-HasLeft g p player party w none = leave_rest-HasLeft g p player true party w
leader_leaves-HasLeft g p player party w (some m) =
    leave_rest-HasLeft g p player false (hand_over g p party m w) w

-- The tests of `leaveParty`, where it lets the player go.
granted-HasLeft :
    (there leads may : Bool) (p player : ℕ) (w x y : World)
    → (there || leads) ≡ true
    → may ≡ true
    → HasLeft p player w x
    → HasLeft p player w y
    → let v : Bool × World =
        if not there && not leads
        then (false, w)
        else if not may
        then (false, w)
        else if leads
        then (true, x)
        else (true, y) in
      (v.0 ≡ true) × HasLeft p player w v.1
granted-HasLeft there true true p player w x y h k a b = elim (Bool-cases there) [
  | inl in_it ↦ rw in_it (refl, a)
  | inr out ↦ rw out (refl, a)
]
granted-HasLeft true false true p player w x y h k a b = (refl, b)
granted-HasLeft false false true p player w x y h k a b = cc
granted-HasLeft there leads false p player w x y h k a b = cc

-- A player that is of a party or leads it, and that the script lets go, leaves it with the answer
-- true, whether it leads or not: it is in no party then, and every other player is where it was,
-- unless the party has ended, when a player may be in none.
pub leave_party-HasLeft :
    (g : Context) (p player : ℕ) (party : Party) (w : World)
    → (is_at (w.party_of player) p || party.leader == player) ≡ true
    → g.may_leave ≡ true
    → ((leave_party g p party player w).0 ≡ true)
      × HasLeft p player w (leave_party g p party player w).1
unfolding leave_party
leave_party-HasLeft g p player party w of_party may =
    granted-HasLeft (is_at (w.party_of player) p) (party.leader == player) g.may_leave p player w _
      _ of_party may
      (leader_leaves-HasLeft g p player party w (next_leader party.member_list party.invite_list))
      (leave_rest-HasLeft g p player false party w)
