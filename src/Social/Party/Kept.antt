-- ===== src/Social/Party/Kept.antt =====
-- Invitations and joining keep players and parties tied.
pub use tib.Common.Maps.{set_self}
use tib.Common.{
  ℕ, ◌+◌, ◌≤◌, ◌≡◌, ◌∙◌, sym, ap, refl, false, ◌&&◌, List, [], ◌∷◌, ◌++◌, Option, none, some, arith,
  ◌==◌, contains, Bool-cases, inl, inr, ==_refl,
}
use tib.Social.Party.{Party}
use tib.Social.Party.Actions.{World, set, is_at, create, store, invite_player, add_party_invitation}
use tib.Social.Party.Lists.{bit, tally, tally-append, tally-contains, tally-missing}
use tib.Social.Party.Roster.{roster, IsSound}

-- A change to one party, to who points to it and to who is invited by it.
pub placed-IsSound :
    (p : ℕ) (party : Party) (w : World) (party_of : ℕ → Option ℕ) (invites : ℕ → List ℕ)
    → ((a : ℕ) → tally a (roster (some party)) ≡ bit (is_at (party_of a) p))
    → ((a : ℕ) → tally a party.invite_list ≡ tally p (invites a))
    → ((a : ℕ) → tally p (invites a) ≤ 1)
    → ((a q : ℕ) → (q == p) ≡ false → is_at (party_of a) q ≡ is_at (w.party_of a) q)
    → ((a q : ℕ) → (q == p) ≡ false → tally q (invites a) ≡ tally q (w.invites_of a))
    → IsSound w
    → IsSound (record {
      party_of = party_of;
      invites_of = invites;
      parties = set p (some party) w.parties;
    })
unfolding set
placed-IsSound p party w party_of invites belong known once same_party same_invites s = record {
  belong = λ a q. elim (Bool-cases (q == p)) [
    | inl this ↦ let same : q ≡ p = ground (arith, this) in rw (set, same, ==_refl p) (belong a)
    | inr other ↦ rw (set, other) (s.belong a q ∙ ap bit (sym (same_party a q other)))
  ];
  known = λ a q. elim (Bool-cases (q == p)) [
    | inl this ↦ let same : q ≡ p = ground (arith, this) in rw (set, same, ==_refl p) (known a)
    | inr other ↦ rw (set, other) (s.known a q ∙ sym (same_invites a q other))
  ];
  once = λ a q. elim (Bool-cases (q == p)) [
    | inl this ↦ let same : q ≡ p = ground (arith, this) in rw same (once a)
    | inr other ↦ ground (arith, same_invites a q other, s.once a q)
  ];
}

-- A new party at a free address, of a player without a party.
pub create-IsSound :
    (p leader : ℕ) (w : World)
    → w.parties p ≡ none
    → w.party_of leader ≡ none
    → IsSound w
    → IsSound (create p leader w)
unfolding create
create-IsSound p leader w free alone s =
    let outside : (a : ℕ) → 0 ≡ bit (is_at (w.party_of a) p) = λ a. rw free at (s.belong a p) in
    let unasked : (a : ℕ) → 0 ≡ tally p (w.invites_of a) = λ a. rw free at (s.known a p) in
    placed-IsSound p _ w (set leader (some p) w.party_of) w.invites_of
      (λ a. unfold set in unfold is_at in ground (arith, outside a, ==_refl p)) unasked
      (λ a. s.once a p) (λ a q other. unfold set in unfold is_at in ground (arith, other, alone))
      (λ a q other. refl) s

tally-add_party_invitation :
    (p q player a : ℕ) (invites : ℕ → List ℕ)
    → tally p (invites player) ≡ 0
    → tally q (add_party_invitation p player invites a)
      ≡ bit (p == q && player == a) + tally q (invites a)
unfolding add_party_invitation set
tally-add_party_invitation p q player a invites h =
    elim (Bool-cases (contains p (invites player))) [
      | inl there ↦ absurd (omega (arith, h, tally-contains p (invites player) there))
      | inr new ↦ elim (Bool-cases (player == a)) [
        | inl hit ↦
            let same : a ≡ player = ground (arith, hit) in
            rw (same, new, ==_refl player) (ground arith)
        | inr miss ↦ rw new (ground (arith, miss))
      ]
    ]

pub invite_player-IsSound :
    (p player : ℕ) (party : Party) (w : World)
    → w.parties p ≡ some party
    → IsSound w
    → IsSound (invite_player p party player w).1
unfolding invite_player store
invite_player-IsSound p player party w e s =
    let members : (a : ℕ) → tally a (roster (some party)) ≡ bit (is_at (w.party_of a) p) =
      λ a. rw e at (s.belong a p) in
    let asked : (a : ℕ) → tally a party.invite_list ≡ tally p (w.invites_of a) =
      λ a. rw e at (s.known a p) in
    elim (Bool-cases (contains player party.invite_list)) [
      | inl there ↦ rw there s
      | inr new ↦
          let none_yet : tally p (w.invites_of player) ≡ 0 =
            sym (asked player) ∙ tally-missing player party.invite_list new in
          let added =
            λ (q : ℕ) (a : ℕ). tally-add_party_invitation p q player a w.invites_of none_yet in
          rw new (
            placed-IsSound p (record party { invite_list = party.invite_list ++ player ∷ [] }) w
              w.party_of (add_party_invitation p player w.invites_of) members
              (λ a.
                ground
                  (arith, tally-append a player party.invite_list, asked a, added p a, ==_refl p))
              (λ a. ground (arith, added p a, s.once a p, none_yet)) (λ a q other. refl)
              (λ a q other. ground (arith, added q a, other)) s)
    ]
