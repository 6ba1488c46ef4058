-- ===== src/Social/Party/Leaving.antt =====
-- Joining, leaving, and the change of a leader keep players and parties tied.
use tib.Common.{
  ℕ, ◌≡◌, ◌∙◌, ap, refl, true, false, [], ◌∷◌, ◌++◌, none, some, arith, ◌==◌, contains, erase,
  Bool-cases, Option-cases, inl, inr, ==_refl,
}
use tib.Common.Assoc.{lookup, remove}
use tib.Social.Party.{
  Context, Party, update_shared_experience, update_vocations_list, clear_player_points,
}
use tib.Social.Party.Actions.{
  World, set, is_at, store, remove_party_invitation, join_party, pass_leadership,
  pass_party_leadership,
}
use tib.Social.Party.Lists.{
  bit, tally, tally-append, tally-erase, tally-missing, tally-remove_party_invitation,
}
use tib.Social.Party.Roster.{roster, IsSound}
use tib.Social.Party.Kept.{placed-IsSound}

-- Two states of a party with the same people.
pub record HasPeople (party other : Party) : Type 0 where
  pub leader : other.leader ≡ party.leader
  pub members : other.member_list ≡ party.member_list
  pub invites : other.invite_list ≡ party.invite_list

pub update_shared_experience-HasPeople :
    (g : Context) (party : Party) → HasPeople party (update_shared_experience g party)
unfolding update_shared_experience
update_shared_experience-HasPeople g party = elim (Bool-cases party.shared_exp_active) [
  | inl on ↦ rw on (record { leader = refl; members = refl; invites = refl })
  | inr off ↦ rw off (record { leader = refl; members = refl; invites = refl })
]

pub update_vocations_list-HasPeople :
    (g : Context) (party : Party) → HasPeople party (update_vocations_list g party)
unfolding update_vocations_list
update_vocations_list-HasPeople g party = record { leader = refl; members = refl; invites = refl }

pub clear_player_points-HasPeople :
    (g : Context) (player : ℕ) (party : Party)
    → HasPeople party (clear_player_points g player party)
unfolding clear_player_points
clear_player_points-HasPeople g player party = elim (Option-cases (lookup player party.ticks_map)) [
  | inl out ↦
      rw (clear_player_points, out) (record { leader = refl; members = refl; invites = refl })
  | inr (at, there) ↦
      rw (clear_player_points, there)
        (let h =
            update_shared_experience-HasPeople g
              (record party { ticks_map = remove player party.ticks_map }) in
          record { leader = h.leader; members = h.members; invites = h.invites })
]

pub HasPeople-trans : (p q r : Party) → HasPeople p q → HasPeople q r → HasPeople p r
HasPeople-trans p q r h k = record {
  leader = k.leader ∙ h.leader;
  members = k.members ∙ h.members;
  invites = k.invites ∙ h.invites;
}

-- A change of a party that keeps its people, or puts them in another order.
pub store-IsSound :
    (p : ℕ) (old new : Party) (w : World)
    → w.parties p ≡ some old
    → ((a : ℕ) → tally a (roster (some new)) ≡ tally a (roster (some old)))
    → new.invite_list ≡ old.invite_list
    → IsSound w
    → IsSound (store p new w)
unfolding store
store-IsSound p old new w e people invites s =
    let members : (a : ℕ) → tally a (roster (some old)) ≡ bit (is_at (w.party_of a) p) =
      λ a. rw e at (s.belong a p) in
    let asked : (a : ℕ) → tally a old.invite_list ≡ tally p (w.invites_of a) =
      λ a. rw e at (s.known a p) in
    placed-IsSound p new w w.party_of w.invites_of (λ a. people a ∙ members a)
      (λ a. ap (tally a) invites ∙ asked a) (λ a. s.once a p) (λ a q other. refl)
      (λ a q other. refl) s

pub pass_leadership-people :
    (g : Context) (party : Party) (player a : ℕ)
    → contains player party.member_list ≡ true
    → tally a (roster (some (pass_leadership g party player))) ≡ tally a (roster (some party))
unfolding pass_leadership
pass_leadership-people g party player a h =
    let people = update_shared_experience-HasPeople g (record party {
      leader = player;
      member_list = party.leader ∷ erase player party.member_list;
    }) in
    rw (people.leader, people.members) (omega (arith, tally-erase a player party.member_list h))

-- Who is of the party and does not lead it is one of its members.
pub members-contains :
    (p player : ℕ) (party : Party) (w : World)
    → w.parties p ≡ some party
    → IsSound w
    → (party.leader == player) ≡ false
    → is_at (w.party_of player) p ≡ true
    → contains player party.member_list ≡ true
members-contains p player party w e s other there =
    let members : tally player (roster (some party)) ≡ bit (is_at (w.party_of player) p) =
      rw e at (s.belong player p) in
    ground (arith, members, other, there, tally-missing player party.member_list)

pub pass_party_leadership-IsSound :
    (g : Context) (p player : ℕ) (party : Party) (w : World)
    → w.parties p ≡ some party
    → IsSound w
    → IsSound (pass_party_leadership g p party player w).1
unfolding pass_party_leadership
pass_party_leadership-IsSound g p player party w e s = elim (Bool-cases (party.leader == player)) [
  | inl leads ↦ rw leads s
  | inr other ↦ elim (Bool-cases (is_at (w.party_of player) p)) [
    | inl there ↦
        let member = members-contains p player party w e s other there in
        rw (other, there)
          (store-IsSound p party (pass_leadership g party player) w e
            (λ a. pass_leadership-people g party player a member)
            (unfold pass_leadership in (update_shared_experience-HasPeople g _).invites) s)
    | inr away ↦ rw (other, away) s
  ]
]

pub join_party-IsSound :
    (g : Context) (p player : ℕ) (party : Party) (w : World)
    → w.parties p ≡ some party
    → w.party_of player ≡ none
    → IsSound w
    → IsSound (join_party g p party player w).1
unfolding join_party update_shared_experience update_vocations_list
join_party-IsSound g p player party w e alone s = elim (Bool-cases g.may_join) [
  | inr never ↦ rw never s
  | inl may ↦ elim (Bool-cases (contains player party.invite_list)) [
    | inr unasked ↦ rw (may, unasked) s
    | inl there ↦
        let joined : Party = record party {
          invite_list = erase player party.invite_list;
          member_list = party.member_list ++ player ∷ [];
        } in
        let shared = update_shared_experience-HasPeople g joined in
        let members : (a : ℕ) → tally a (roster (some party)) ≡ bit (is_at (w.party_of a) p) =
          λ a. rw e at (s.belong a p) in
        let asked : (a : ℕ) → tally a party.invite_list ≡ tally p (w.invites_of a) =
          λ a. rw e at (s.known a p) in
        let gone = λ (q : ℕ) (a : ℕ). tally-remove_party_invitation p q player a w.invites_of in
        let people =
          HasPeople-trans joined _ _ shared
            (update_vocations_list-HasPeople g (update_shared_experience g joined)) in
        rw (may, there)
          (placed-IsSound p (update_vocations_list g (update_shared_experience g joined)) w
            (set player (some p) w.party_of) (remove_party_invitation p player w.invites_of)
            (λ a.
              rw (people.leader, people.members)
                (unfold set in
                  unfold is_at in
                  ground
                    (arith, members a, tally-append a player party.member_list, alone, ==_refl p)))
            (λ a. rw people.invites (
              ground (
                arith,
                asked a,
                gone p a,
                tally-erase a player party.invite_list there,
                s.once a p,
                ==_refl p,
              )))
            (λ a. ground (arith, gone p a, s.once a p))
            (λ a q other. unfold set in unfold is_at in ground (arith, other, alone))
            (λ a q other. ground (arith, gone q a, other)) s)
  ]
]
