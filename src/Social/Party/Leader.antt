-- ===== src/Social/Party/Leader.antt =====
-- A leader goes, and any player goes.
use tib.Common.{
  ℕ, ◌<◌, ◌≡◌, ◌∙◌, sym, ap, refl, Bool, true, false, List, [], ◌∷◌, Option, none, some, arith,
  ◌==◌, contains, erase, Bool-cases, Option-cases, inl, inr, ==_refl,
}
use tib.Social.Party.{Context, Party}
use tib.Social.Party.Actions.{
  World, set, is_at, store, leave_rest, pass_leadership, next_leader, hand_over, leader_leaves,
  leave_party,
}
use tib.Social.Party.Lists.{bit, tally, tally-contains, tally-missing, erase-absent}
use tib.Social.Party.Roster.{roster, IsSound, IsEnding, disband-IsSound, apart_at}
use tib.Social.Party.Leaving.{
  update_shared_experience-HasPeople, store-IsSound, pass_leadership-people, members-contains,
}
use tib.Social.Party.Ending.{left_party, left_party-HasPeople, gone-elsewhere, leave_rest-IsSound}

at_from : (b : Bool) (n : ℕ) → n ≡ bit b → 0 < n → b ≡ true
at_from b n e h = ground (arith, e, h)

roster-contains :
    (a : ℕ) (party : Party) (b : Bool)
    → tally a (roster (some party)) ≡ bit b
    → b ≡ true
    → contains a (roster (some party)) ≡ true
roster-contains a party b e h = ground (arith, e, h, tally-missing a (roster (some party)))

set-is_at :
    (player a p : ℕ) (party_of : ℕ → Option ℕ)
    → is_at (set player none party_of a) p ≡ true
    → is_at (party_of a) p ≡ true
unfolding set is_at
set-is_at player a p party_of h = ground (arith, h)

-- The party ends with the leader that goes.
last_leader-IsEnding :
    (g : Context) (p : ℕ) (party : Party) (w : World)
    → w.parties p ≡ some party
    → IsSound w
    → IsEnding p (left_party g party.leader party) (
        store p
          (left_party g party.leader party)
          (record w { party_of = set party.leader none w.party_of }))
unfolding store
last_leader-IsEnding g p party w e s =
    let people = left_party-HasPeople g party.leader party in
    let members : (a : ℕ) → tally a (roster (some party)) ≡ bit (is_at (w.party_of a) p) =
      λ a. rw e at (s.belong a p) in
    let asked : (a : ℕ) → tally a party.invite_list ≡ tally p (w.invites_of a) =
      λ a. rw e at (s.known a p) in
    let there : is_at (w.party_of party.leader) p ≡ true =
      ground (arith, members party.leader, ==_refl party.leader) in
    let absent : contains party.leader party.member_list ≡ false = ground (
      arith,
      members party.leader,
      ==_refl party.leader,
      tally-contains party.leader party.member_list,
    ) in
    let same_roster : roster (some (left_party g party.leader party)) ≡ roster (some party) =
      rw (people.leader, people.members)
        (ap (λ ms. party.leader ∷ ms) (erase-absent party.leader party.member_list absent)) in
    let at_party = λ (a : ℕ) (h : contains a (roster (some party)) ≡ true).
      at_from (is_at (w.party_of a) p) (tally a (roster (some party))) (members a)
        (tally-contains a (roster (some party)) h) in
    record {
      belong = λ a q other.
          unfold set in
          rw other (
            s.belong a q ∙ ap bit (sym (gone-elsewhere p q party.leader a w.party_of other there)));
      known = λ a q other. unfold set in rw other (s.known a q);
      once = s.once;
      inside = λ a h.
          ap (contains a) same_roster
          ∙ roster-contains a party (is_at (w.party_of a) p) (members a)
              (set-is_at party.leader a p w.party_of h);
      apart = λ a q h other.
          gone-elsewhere p q party.leader a w.party_of other there
          ∙ apart_at (w.party_of a) p q other (at_party a (sym (ap (contains a) same_roster) ∙ h));
      asked = λ a h. sym (asked a) ∙ tally-missing a party.invite_list (rw people.invites at h);
    }

last_leader-IsSound :
    (g : Context) (p : ℕ) (party : Party) (w : World)
    → g.may_disband ≡ true
    → w.parties p ≡ some party
    → IsSound w
    → IsSound (leave_rest g p party.leader true party w)
unfolding leave_rest
last_leader-IsSound g p party w may e s =
    disband-IsSound g p (left_party g party.leader party) _ may
      (last_leader-IsEnding g p party w e s)

-- The leader hands over to a member, and goes as a member.
next_leader-IsSound :
    (g : Context) (p m : ℕ) (party : Party) (w : World)
    → contains m party.member_list ≡ true
    → w.parties p ≡ some party
    → IsSound w
    → IsSound (leave_rest g p party.leader false (pass_leadership g party m) w)
next_leader-IsSound g p m party w member e s =
    let members : (a : ℕ) → tally a (roster (some party)) ≡ bit (is_at (w.party_of a) p) =
      λ a. rw e at (s.belong a p) in
    let people =
      update_shared_experience-HasPeople g
        (record party { leader = m; member_list = party.leader ∷ erase m party.member_list }) in
    leave_rest-IsSound g p party.leader (pass_leadership g party m) w
      (unfold pass_leadership in rw people.members (ground (arith, ==_refl party.leader)))
      (ground (arith, members party.leader, ==_refl party.leader))
      (store-IsSound p party (pass_leadership g party m) w e
        (λ a. pass_leadership-people g party m a member) (unfold pass_leadership in people.invites)
        s)

next_leader-contains : (ms is : List ℕ) (m : ℕ) → next_leader ms is ≡ some m → contains m ms ≡ true
unfolding next_leader
next_leader-contains [] is m e = cc
next_leader-contains (k ∷ []) [] m e = cc
next_leader-contains (k ∷ []) (i ∷ is) m e = let same : k ≡ m = cc in ground (arith, same)
next_leader-contains (k ∷ n ∷ ms) is m e = let same : k ≡ m = cc in ground (arith, same)

hand_over-member :
    (g : Context) (p m : ℕ) (party : Party) (w : World)
    → contains m party.member_list ≡ true
    → w.parties p ≡ some party
    → IsSound w
    → hand_over g p party m w ≡ pass_leadership g party m
unfolding hand_over
hand_over-member g p m party w member e s =
    let members : tally m (roster (some party)) ≡ bit (is_at (w.party_of m) p) =
      rw e at (s.belong m p) in
    let held = tally-contains m party.member_list member in
    let other : (party.leader == m) ≡ false = ground (arith, members, held) in
    let there : is_at (w.party_of m) p ≡ true = ground (arith, members, held) in
    rw (other, there) refl

leader_leaves-IsSound :
    (g : Context) (p : ℕ) (party : Party) (w : World)
    → g.may_disband ≡ true
    → w.parties p ≡ some party
    → IsSound w
    → IsSound
        (leader_leaves g p party party.leader w (next_leader party.member_list party.invite_list))
unfolding leader_leaves
leader_leaves-IsSound g p party w may e s =
    elim (Option-cases (next_leader party.member_list party.invite_list)) [
      | inl last ↦ rw (leader_leaves, last) (last_leader-IsSound g p party w may e s)
      | inr (m, heir) ↦
          let member = next_leader-contains party.member_list party.invite_list m heir in
          rw (leader_leaves, heir, hand_over-member g p m party w member e s)
            (next_leader-IsSound g p m party w member e s)
    ]

-- Where no script keeps a party from ending, whoever leaves its party, leader or not, leaves players and parties tied to one another.
pub leave_party-IsSound :
    (g : Context) (p player : ℕ) (party : Party) (w : World)
    → g.may_disband ≡ true
    → w.parties p ≡ some party
    → IsSound w
    → IsSound (leave_party g p party player w).1
unfolding leave_party
leave_party-IsSound g p player party w may e s = elim (Bool-cases (party.leader == player)) [
  | inl leads ↦
      let same : player ≡ party.leader = ground (arith, leads) in
      elim (Bool-cases g.may_leave) [
        | inl free ↦
            rw (same, free, ==_refl party.leader)
              (ground (arith, leader_leaves-IsSound g p party w may e s))
        | inr kept ↦ rw (same, kept, ==_refl party.leader) (ground (arith, s))
      ]
  | inr other ↦ elim (Bool-cases (is_at (w.party_of player) p)) [
    | inl there ↦
        let member = members-contains p player party w e s other there in
        let stored = store-IsSound p party party w e (λ a. refl) refl s in
        rw (other, there)
          (ground (arith, leave_rest-IsSound g p player party w member there stored))
    | inr away ↦ rw (other, away) s
  ]
]
