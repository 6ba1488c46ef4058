-- ===== src/Social/Trade/Tied.antt =====
-- What ties the two sides of a trade and the table of items on offer.
use tib.Common.{
  ℕ, ◌≡◌, ◌∙◌, refl, sym, Bool, true, false, not, ◌&&◌, ◌||◌, List, Option, none, some, arith, ◌==◌,
  if◌then◌else◌, Bool-cases, inl, inr,
}
use tib.Common.Maps.{set, is_at, apart_at}
use tib.Common.Assoc.{lookup, lookup-remove}
use tib.Social.Trade.{
  is_idle, is_initiated, is_acknowledged, is_transfer, Trader, no_trade, World, take_offer,
}

abbrev pub is_null : Option ℕ → Bool
is_null none = true
is_null (some i) = false

-- The state of one player agrees with its partner and its offer.
pub record IsConsistent (t : Trader) : Type 0 where
  pub alone : is_idle t.state ≡ is_null t.partner
  pub steady : is_transfer t.state ≡ false
  pub idle_offer : is_idle t.state ≡ true → is_null t.item ≡ true
  pub asked_offer : is_acknowledged t.state ≡ true → is_null t.item ≡ true
  pub own_offer : is_initiated t.state ≡ true → is_null t.item ≡ false

-- Two players are each other's partners, and the table holds what is on offer.
pub record IsTied (w : World) : Type 0 where
  pub consistent : (a : ℕ) → IsConsistent (w.traders a)
  pub apart : (a : ℕ) → is_at (w.traders a).partner a ≡ false
  pub both : (a b : ℕ) → is_at (w.traders a).partner b ≡ is_at (w.traders b).partner a
  pub listed : (a i : ℕ) → is_at (lookup i w.trade_items) a ≡ is_at (w.traders a).item i

no_trade-IsConsistent : IsConsistent no_trade
no_trade-IsConsistent = record {
  alone = refl;
  steady = refl;
  idle_offer = λ e. refl;
  asked_offer = λ e. cc;
  own_offer = λ e. cc;
}

lookup-take_offer :
    (o : Option ℕ) (i : ℕ) (items : List (ℕ × ℕ))
    → lookup i (take_offer o items) ≡ (if is_at o i then none else lookup i items)
unfolding take_offer is_at
lookup-take_offer none i items = refl
lookup-take_offer (some j) i items = lookup-remove j i items

-- Two players whose sides are both reset.
abbrev pub ended : ℕ → ℕ → (ℕ → Trader) → ℕ → Trader
ended a b traders = set b no_trade (set a no_trade traders)

abbrev is_one : ℕ → ℕ → ℕ → Bool
is_one a b x = x == a || x == b

ended-one :
    (a b x : ℕ) (traders : ℕ → Trader) → is_one a b x ≡ true → ended a b traders x ≡ no_trade
unfolding set
ended-one a b x traders h = ground (arith, h)

ended-other :
    (a b x : ℕ) (traders : ℕ → Trader) → is_one a b x ≡ false → ended a b traders x ≡ traders x
unfolding set
ended-other a b x traders h = ground (arith, h)

is_at-cut :
    (p q : Bool) (o : Option ℕ) (x : ℕ)
    → is_at (if p then none else if q then none else o) x ≡ not p && not q && is_at o x
unfolding is_at
is_at-cut p q o x = ground arith

-- The items on offer without those of two players.
abbrev pub unlisted : Option ℕ → Option ℕ → List (ℕ × ℕ) → List (ℕ × ℕ)
unlisted o o' items = take_offer o' (take_offer o items)

module _ (a b : ℕ) (w : World) (tied : IsTied w)
    (partners : is_at (w.traders a).partner b ≡ true) where
  -- Neither has another partner.
  one-partner :
      (x y : ℕ) → is_one a b x ≡ true → is_one a b y ≡ false → is_at (w.traders y).partner x ≡ false
  one-partner x y h k = elim (Bool-cases (x == a)) [
    | inl hit ↦
        let same : x ≡ a = ground (arith, hit) in
        rw same
          (sym (tied.both a y) ∙ apart_at (w.traders a).partner b y (ground (arith, k)) partners)
    | inr miss ↦
        let same : x ≡ b = ground (arith, miss, h) in
        rw same (
          sym (tied.both b y)
          ∙ apart_at (w.traders b).partner a y (ground (arith, k)) (sym (tied.both a b) ∙ partners))
  ]

  ended-both :
      (x y : ℕ) → is_at (ended a b w.traders x).partner y ≡ is_at (ended a b w.traders y).partner x
  ended-both x y = elim (Bool-cases (is_one a b x)) [
    | inl h ↦ elim (Bool-cases (is_one a b y)) [
      | inl k ↦ rw (ended-one a b x w.traders h, ended-one a b y w.traders k) (unfold is_at in refl)
      | inr k ↦
          rw (ended-one a b x w.traders h, ended-other a b y w.traders k)
            (unfold is_at in sym (one-partner x y h k))
    ]
    | inr h ↦ elim (Bool-cases (is_one a b y)) [
      | inl k ↦
          rw (ended-other a b x w.traders h, ended-one a b y w.traders k)
            (unfold is_at in one-partner y x k h)
      | inr k ↦ rw (ended-other a b x w.traders h, ended-other a b y w.traders k) (tied.both x y)
    ]
  ]

  -- Nobody else offers what one of the two does.
  other-offer :
      (x y i : ℕ)
      → is_one a b x ≡ true
      → is_one a b y ≡ false
      → is_at (w.traders x).item i ≡ true
      → is_at (lookup i w.trade_items) y ≡ false
  other-offer x y i h k offers =
      apart_at (lookup i w.trade_items) x y (ground (arith, h, k)) (tied.listed x i ∙ offers)

  ended-listed :
      (x i : ℕ)
      → is_at (lookup i (unlisted (w.traders a).item (w.traders b).item w.trade_items)) x
        ≡ is_at (ended a b w.traders x).item i
  ended-listed x i =
      rw
        (
          lookup-take_offer (w.traders b).item i (take_offer (w.traders a).item w.trade_items),
          lookup-take_offer (w.traders a).item i w.trade_items,
        )
        (is_at-cut (is_at (w.traders b).item i) (is_at (w.traders a).item i)
            (lookup i w.trade_items) x
          ∙ elim (Bool-cases (is_one a b x)) [
            | inl h ↦ rw (ended-one a b x w.traders h) (unfold is_at in gone x i h)
            | inr h ↦ rw (ended-other a b x w.traders h) (
                ground (
                  arith,
                  tied.listed x i,
                  other-offer a x i (ground arith) h,
                  other-offer b x i (ground arith) h,
                ))
          ])
    where
      gone :
          (x i : ℕ)
          → is_one a b x ≡ true
          → not (is_at (w.traders b).item i)
              && not (is_at (w.traders a).item i)
              && is_at (lookup i w.trade_items) x
            ≡ false
      gone x i h = elim (Bool-cases (x == a)) [
        | inl hit ↦
            let same : x ≡ a = ground (arith, hit) in rw same (ground (arith, tied.listed a i))
        | inr miss ↦
            let same : x ≡ b = ground (arith, miss, h) in rw same (ground (arith, tied.listed b i))
      ]

  ended-IsConsistent : (x : ℕ) → IsConsistent (ended a b w.traders x)
  ended-IsConsistent x = elim (Bool-cases (is_one a b x)) [
    | inl h ↦ rw (ended-one a b x w.traders h) no_trade-IsConsistent
    | inr h ↦ rw (ended-other a b x w.traders h) (tied.consistent x)
  ]

  ended-apart : (x : ℕ) → is_at (ended a b w.traders x).partner x ≡ false
  ended-apart x = elim (Bool-cases (is_one a b x)) [
    | inl h ↦ rw (ended-one a b x w.traders h) (unfold is_at in refl)
    | inr h ↦ rw (ended-other a b x w.traders h) (tied.apart x)
  ]

  -- Two partners whose sides are reset and whose items are off the table.
  pub ended-IsTied :
      (holder : ℕ → ℕ)
      → IsTied (record {
        traders = ended a b w.traders;
        trade_items = unlisted (w.traders a).item (w.traders b).item w.trade_items;
        holder = holder;
      })
  ended-IsTied holder = record {
    consistent = ended-IsConsistent;
    apart = ended-apart;
    both = ended-both;
    listed = ended-listed;
  }
