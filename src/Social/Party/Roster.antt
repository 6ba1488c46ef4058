-- ===== src/Social/Party/Roster.antt =====
-- What ties players to parties: a player points to the party in which it stands, once, and a player
-- knows the parties that invite it, once each.
pub use tib.Common.Maps.{apart_at}
use tib.Common.{
  ℕ, ◌≤◌, ◌≡◌, ◌∙◌, sym, refl, true, false, not, ◌&&◌, List, [], ◌∷◌, Option, none, some, arith,
  ◌==◌, contains, Bool-cases, inl, inr, ==_refl,
}
use tib.Social.Party.{Context, Party}
use tib.Social.Party.Actions.{World, set, is_at, leave_all, disband}
use tib.Social.Party.Lists.{
  bit, tally, tally-contains, tally-missing, leave_all-at, tally-withdraw_all,
}

abbrev pub roster : Option Party → List ℕ
roster none = []
roster (some party) = party.leader ∷ party.member_list

abbrev pub invited : Option Party → List ℕ
invited none = []
invited (some party) = party.invite_list

pub record IsSound (w : World) : Type 0 where
  pub belong : (a p : ℕ) → tally a (roster (w.parties p)) ≡ bit (is_at (w.party_of a) p)
  pub known : (a p : ℕ) → tally a (invited (w.parties p)) ≡ tally p (w.invites_of a)
  pub once : (a p : ℕ) → tally p (w.invites_of a) ≤ 1

-- What is asked of a party that is about to end: the other parties are sound, and nobody outside it
-- points to it or is invited by it.
pub record IsEnding (p : ℕ) (party : Party) (w : World) : Type 0 where
  pub belong :
      (a q : ℕ) → (q == p) ≡ false → tally a (roster (w.parties q)) ≡ bit (is_at (w.party_of a) q)
  pub known :
      (a q : ℕ) → (q == p) ≡ false → tally a (invited (w.parties q)) ≡ tally q (w.invites_of a)
  pub once : (a q : ℕ) → tally q (w.invites_of a) ≤ 1
  pub inside : (a : ℕ) → is_at (w.party_of a) p ≡ true → contains a (roster (some party)) ≡ true
  pub apart :
      (a q : ℕ)
      → contains a (roster (some party)) ≡ true
      → (q == p) ≡ false
      → is_at (w.party_of a) q ≡ false
  pub asked : (a : ℕ) → contains a party.invite_list ≡ false → tally p (w.invites_of a) ≡ 0

is_at-none : (q : ℕ) → is_at none q ≡ false
unfolding is_at
is_at-none q = refl

-- Where a player is after all of a party left.
disband-party_of :
    (party : Party) (party_of : ℕ → Option ℕ) (a q : ℕ)
    → is_at (leave_all party.member_list (set party.leader none party_of) a) q
      ≡ not (contains a (roster (some party))) && is_at (party_of a) q
unfolding set is_at
disband-party_of party party_of a q =
    ground (arith, leave_all-at party.member_list (set party.leader none party_of) a)

pub disband-IsSound :
    (g : Context) (p : ℕ) (party : Party) (w : World)
    → g.may_disband ≡ true
    → IsEnding p party w
    → IsSound (disband g p party w)
unfolding disband set
disband-IsSound g p party w may e = rw may (record {
  belong = λ a q. elim (Bool-cases (q == p)) [
    | inl this ↦
        let same_party : q ≡ p = ground (arith, this) in
        rw (set, same_party, ==_refl p)
          (ground (arith, e.inside a, disband-party_of party w.party_of a p))
    | inr other ↦
        rw (set, other)
          (ground
            (arith, e.belong a q other, e.apart a q, other, disband-party_of party w.party_of a q))
  ];
  known = λ a q. elim (Bool-cases (q == p)) [
    | inl this ↦
        let same_party : q ≡ p = ground (arith, this) in
        rw (set, same_party, ==_refl p)
          (ground
            (arith, e.asked a, tally-withdraw_all p p a party.invite_list w.invites_of, ==_refl p))
    | inr other ↦
        rw (set, other)
          (ground (
            arith,
            e.known a q other,
            other,
            tally-withdraw_all p q a party.invite_list w.invites_of,
          ))
  ];
  once = λ a q. ground (arith, e.once a q, tally-withdraw_all p q a party.invite_list w.invites_of);
})

-- A sound world may lose any of its parties.
pub IsSound-IsEnding :
    (p : ℕ) (party : Party) (w : World) → w.parties p ≡ some party → IsSound w → IsEnding p party w
IsSound-IsEnding p party w e s =
    let members : (a : ℕ) → tally a (roster (some party)) ≡ bit (is_at (w.party_of a) p) =
      λ a. rw e at (s.belong a p) in
    let asked : (a : ℕ) → tally a party.invite_list ≡ tally p (w.invites_of a) =
      λ a. rw e at (s.known a p) in
    record {
      belong = λ a q other. s.belong a q;
      known = λ a q other. s.known a q;
      once = s.once;
      inside = λ a h. ground (arith, members a, h, tally-missing a (roster (some party)));
      apart = λ a q h other.
          apart_at (w.party_of a) p q other
            (ground (arith, members a, tally-contains a (roster (some party)) h));
      asked = λ a h. sym (asked a) ∙ tally-missing a party.invite_list h;
    }
