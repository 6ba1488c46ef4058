-- ===== src/Social/Party/Ending.antt =====
-- Withdrawn invitations and departures, with the end of the party where it comes to that.
use tib.Common.{
  ℕ, ◌≡◌, sym, refl, Bool, true, false, Option, none, some, arith, ◌==◌, if◌then◌else◌, contains,
  erase, Bool-cases, inl, inr, ==_refl,
}
use tib.Social.Party.{
  Context, Party, is_empty, update_shared_experience, update_vocations_list, clear_player_points,
}
use tib.Social.Party.Actions.{
  World, set, is_at, disband, store, remove_party_invitation, remove_invite, leave_rest,
}
use tib.Social.Party.Lists.{bit, tally, tally-erase, tally-remove_party_invitation}
use tib.Social.Party.Roster.{roster, IsSound, IsSound-IsEnding, disband-IsSound, apart_at}
use tib.Social.Party.Kept.{set_self, placed-IsSound}
use tib.Social.Party.Leaving.{
  HasPeople, HasPeople-trans, update_shared_experience-HasPeople, update_vocations_list-HasPeople,
  clear_player_points-HasPeople,
}

-- A party that stands where it is said to may end or be kept by its script.
pub disband-IsSound_any :
    (g : Context) (p : ℕ) (party : Party) (w : World)
    → w.parties p ≡ some party
    → IsSound w
    → IsSound (disband g p party w)
disband-IsSound_any g p party w e s = elim (Bool-cases g.may_disband) [
  | inl may ↦ disband-IsSound g p party w may (IsSound-IsEnding p party w e s)
  | inr never ↦ unfold disband in rw never s
]

-- The end of a party that may be empty.
pub emptied-IsSound :
    (g : Context) (p : ℕ) (party : Party) (w : World) (ends : Bool)
    → w.parties p ≡ some party
    → IsSound w
    → IsSound (if ends then disband g p party w else w)
emptied-IsSound g p party w true e s = disband-IsSound_any g p party w e s
emptied-IsSound g p party w false e s = s

pub remove_invite-IsSound :
    (g : Context) (p player : ℕ) (party : Party) (w : World)
    → w.parties p ≡ some party
    → IsSound w
    → IsSound (remove_invite g p party player true w).1
unfolding remove_invite store
remove_invite-IsSound g p player party w e s =
    elim (Bool-cases (contains player party.invite_list)) [
      | inr unasked ↦ rw unasked s
      | inl there ↦
          let rest : Party = record party { invite_list = erase player party.invite_list } in
          let asked : (a : ℕ) → tally a party.invite_list ≡ tally p (w.invites_of a) =
            λ a. rw e at (s.known a p) in
          let gone = λ (q : ℕ) (a : ℕ). tally-remove_party_invitation p q player a w.invites_of in
          let left =
            placed-IsSound p rest w w.party_of (remove_party_invitation p player w.invites_of)
              (λ a. rw e at (s.belong a p))
              (λ a. ground (
                arith,
                asked a,
                gone p a,
                tally-erase a player party.invite_list there,
                s.once a p,
                ==_refl p,
              ))
              (λ a. ground (arith, gone p a, s.once a p)) (λ a q other. refl)
              (λ a q other. ground (arith, gone q a, other)) s in
          rw there
            (emptied-IsSound g p rest _ (is_empty rest) (set_self p (some rest) w.parties) left)
    ]

set_twice {ℓ} :
    {A : Type ℓ} (key : ℕ) (old new : A) (f : ℕ → A) → set key new (set key old f) ≡ set key new f
set_twice key old new f = λ i k. pointwise k i
  where
    pointwise : (k : ℕ) → set key new (set key old f) k ≡ set key new f k
    pointwise k = unfold set in ground arith

-- The party after the removal of a player, with what is updated after that.
abbrev pub left_party : Context → ℕ → Party → Party
left_party g player party = clear_player_points g player (
    update_vocations_list g
      (update_shared_experience g (record party { member_list = erase player party.member_list })))

pub left_party-HasPeople :
    (g : Context) (player : ℕ) (party : Party)
    → HasPeople
        (record party { member_list = erase player party.member_list })
        (left_party g player party)
left_party-HasPeople g player party =
    let first : Party = record party { member_list = erase player party.member_list } in
    let second = update_shared_experience g first in
    let third = update_vocations_list g second in
    HasPeople-trans first second (left_party g player party)
      (update_shared_experience-HasPeople g first)
      (HasPeople-trans second third (left_party g player party)
        (update_vocations_list-HasPeople g second) (clear_player_points-HasPeople g player third))

-- Who goes from one party was in no other.
pub gone-elsewhere :
    (p q player a : ℕ) (party_of : ℕ → Option ℕ)
    → (q == p) ≡ false
    → is_at (party_of player) p ≡ true
    → is_at (set player none party_of a) q ≡ is_at (party_of a) q
unfolding set
gone-elsewhere p q player a party_of other there = elim (Bool-cases (player == a)) [
  | inr miss ↦ rw (set, a_first player a miss) refl
  | inl hit ↦
      let same : a ≡ player = ground (arith, hit) in
      rw (same, set, ==_refl player)
        (unfold is_at in sym (apart_at (party_of player) p q other there))
]
  where
    a_first : (x y : ℕ) → (x == y) ≡ false → (y == x) ≡ false
    a_first x y h = ground arith

-- A member goes.
pub leave_rest-IsSound :
    (g : Context) (p player : ℕ) (party : Party) (w : World)
    → contains player party.member_list ≡ true
    → is_at (w.party_of player) p ≡ true
    → IsSound (store p party w)
    → IsSound (leave_rest g p player false party w)
unfolding leave_rest store
leave_rest-IsSound g p player party w member there s =
    let rest = left_party g player party in
    let people = left_party-HasPeople g player party in
    let members : (a : ℕ) → tally a (roster (some party)) ≡ bit (is_at (w.party_of a) p) =
      λ a. rw (set_self p (some party) w.parties) at (s.belong a p) in
    let asked : (a : ℕ) → tally a party.invite_list ≡ tally p (w.invites_of a) =
      λ a. rw (set_self p (some party) w.parties) at (s.known a p) in
    let left =
      placed-IsSound p rest (store p party w) (set player none w.party_of) w.invites_of
        (λ a.
          rw (people.leader, people.members)
            (unfold set in
              unfold is_at in
              ground (
                arith,
                members a,
                tally-erase a player party.member_list member,
                members player,
                there,
              )))
        (λ a. rw people.invites (asked a)) (λ a. s.once a p)
        (λ a q other. gone-elsewhere p q player a w.party_of other there) (λ a q other. refl) s in
    emptied-IsSound g p rest _ (is_empty rest) (set_self p (some rest) w.parties)
      (rw (set_twice p (some party) (some rest) w.parties) at left)
