-- ===== src/Social/Party/Lists.antt =====
-- What the list and map operations of parties do, said of how often a number occurs.
use tib.Common.{
  ℕ, ◌+◌, ◌<◌, ◌≡◌, refl, ap, Bool, true, false, ◌&&◌, List, [], ◌∷◌, ◌++◌, Option, none, arith,
  ◌==◌, if◌then◌else◌, contains, erase, Bool-cases, inl, inr, ==_refl,
}
use tib.Social.Party.Actions.{set, remove_all, remove_party_invitation, leave_all, withdraw_all}

abbrev pub bit : Bool → ℕ
bit true = 1
bit false = 0

abbrev pub tally : ℕ → List ℕ → ℕ
tally a [] = 0
tally a (x ∷ xs) = bit (x == a) + tally a xs

pub tally-append : (a b : ℕ) (xs : List ℕ) → tally a (xs ++ b ∷ []) ≡ tally a xs + bit (b == a)
tally-append a b [] = ground arith
tally-append a b (x ∷ xs) = ground (arith, tally-append a b xs)

pub tally-erase :
    (a b : ℕ) (xs : List ℕ)
    → contains b xs ≡ true
    → bit (b == a) + tally a (erase b xs) ≡ tally a xs
tally-erase a b [] h = cc
tally-erase a b (x ∷ xs) h = elim (Bool-cases (x == b)) [
  | inl hit ↦ ground (arith, hit)
  | inr miss ↦ ground (arith, miss, tally-erase a b xs (rw miss at h))
]

pub tally-contains : (a : ℕ) (xs : List ℕ) → contains a xs ≡ true → 0 < tally a xs
tally-contains a [] h = cc
tally-contains a (x ∷ xs) h = ground (arith, h, tally-contains a xs)

pub tally-missing : (a : ℕ) (xs : List ℕ) → contains a xs ≡ false → tally a xs ≡ 0
tally-missing a [] h = refl
tally-missing a (x ∷ xs) h = ground (arith, h, tally-missing a xs)

pub erase-missing :
    (a b : ℕ) (xs : List ℕ) → contains b xs ≡ false → tally a (erase b xs) ≡ tally a xs
erase-missing a b [] h = refl
erase-missing a b (x ∷ xs) h = ground (arith, h, erase-missing a b xs)

pub tally-remove_all :
    (p q : ℕ) (xs : List ℕ) → tally p (remove_all q xs) ≡ (if q == p then 0 else tally p xs)
unfolding remove_all
tally-remove_all p q [] = ground arith
tally-remove_all p q (x ∷ xs) = ground (arith, tally-remove_all p q xs)

pub leave_all-at :
    (ms : List ℕ) (party_of : ℕ → Option ℕ) (a : ℕ)
    → leave_all ms party_of a ≡ (if contains a ms then none else party_of a)
unfolding leave_all set
leave_all-at [] party_of a = refl
leave_all-at (m ∷ ms) party_of a = ground (arith, leave_all-at ms (set m none party_of) a)

pub tally-remove_party_invitation :
    (p q player a : ℕ) (invites : ℕ → List ℕ)
    → tally q (remove_party_invitation p player invites a)
      ≡ (if player == a && p == q then 0 else tally q (invites a))
unfolding remove_party_invitation set
tally-remove_party_invitation p q player a invites = elim (Bool-cases (player == a)) [
  | inl hit ↦
      let same_player : a ≡ player = ground (arith, hit) in
      rw (same_player, ==_refl player) (tally-remove_all q p (invites player))
  | inr miss ↦ ground (arith, miss)
]

pub tally-withdraw_all :
    (p q a : ℕ) (is : List ℕ) (invites : ℕ → List ℕ)
    → tally q (withdraw_all p is invites a)
      ≡ (if contains a is && p == q then 0 else tally q (invites a))
unfolding withdraw_all
tally-withdraw_all p q a [] invites = ground arith
tally-withdraw_all p q a (i ∷ is) invites = ground (
  arith,
  tally-withdraw_all p q a is (remove_party_invitation p i invites),
  tally-remove_party_invitation p q i a invites,
)

pub erase-absent : (b : ℕ) (xs : List ℕ) → contains b xs ≡ false → erase b xs ≡ xs
erase-absent b [] h = refl
erase-absent b (x ∷ xs) h = elim (Bool-cases (x == b)) [
  | inl hit ↦ cc (rw hit at h)
  | inr miss ↦ rw miss (ap (λ ys. x ∷ ys) (erase-absent b xs (rw miss at h)))
]
