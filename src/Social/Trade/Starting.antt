-- ===== src/Social/Trade/Starting.antt =====
-- The start of a trade ties two players.
use tib.Common.{
  ℕ, ◌≡◌, ◌∙◌, refl, sym, ap, true, false, ◌&&◌, Option, none, some, arith, ◌==◌, if◌then◌else◌,
  Bool-cases, inl, inr, ==_refl,
}
use tib.Common.Maps.{set, is_at, set_other, is_at→eq}
use tib.Common.Assoc.{lookup, insert, lookup-insert}
use tib.Social.Trade.{
  initiated, acknowledged, is_idle, is_acknowledged, Trader, World, offer, ask,
  internal_start_trade,
}
use tib.Social.Trade.Tied.{is_null, IsConsistent, IsTied}

abbrev pub offering : ℕ → ℕ → Trader
offering b i = record { state = initiated; partner = some b; item = some i }

offering-IsConsistent : (b i : ℕ) → IsConsistent (offering b i)
offering-IsConsistent b i = record {
  alone = refl;
  steady = refl;
  idle_offer = λ e. cc;
  asked_offer = λ e. cc;
  own_offer = λ e. refl;
}

is_at-null : (o : Option ℕ) (x : ℕ) → is_null o ≡ true → is_at o x ≡ false
unfolding is_at
is_at-null none x h = refl
is_at-null (some y) x h = cc

is_null-at : (o : Option ℕ) (x : ℕ) → is_at o x ≡ true → is_null o ≡ false
unfolding is_at
is_null-at none x h = cc
is_null-at (some y) x h = refl

-- The table after an offer of an item that was not on it, by a player that offered nothing.
offer-listed :
    (a b i : ℕ) (w : World) (x j : ℕ)
    → IsTied w
    → lookup i w.trade_items ≡ none
    → is_null (w.traders a).item ≡ true
    → is_at (lookup j (insert i a w.trade_items)) x
      ≡ is_at (set a (offering b i) w.traders x).item j
unfolding set is_at
offer-listed a b i w x j tied free empty =
    rw (lookup-insert i j a w.trade_items) (elim (Bool-cases (x == a)) [
      | inl hit ↦
          rw (set, hit)
            (let same : x ≡ a = ground (arith, hit) in
              rw same (
                unfold is_at in
                ground (arith, ==_refl a, tied.listed a j, is_at-null (w.traders a).item j empty)))
      | inr miss ↦
          rw (set, miss)
            (elim (Bool-cases (i == j)) [
              | inl now ↦
                  let same : j ≡ i = ground (arith, now) in
                  rw (same, ==_refl i)
                    (unfold is_at in ground (arith, miss, none_at (tied.listed x i)))
              | inr later ↦ rw later (tied.listed x j)
            ])
    ])
  where
    none_at :
        is_at (lookup i w.trade_items) x ≡ is_at (w.traders x).item i
        → is_at (w.traders x).item i ≡ false
    none_at e = sym e ∙ ap (λ o. is_at o x) free ∙ unfold is_at in refl

-- What starting a trade asks, told apart: the partner is in no trade, and neither is the player, or
-- the partner has asked the player.
module _ (a b i : ℕ) (w : World) (tied : IsTied w) (two : (b == a) ≡ false)
    (free : lookup i w.trade_items ≡ none) where
  asked-IsTied :
      is_acknowledged (w.traders a).state ≡ true
      → is_at (w.traders a).partner b ≡ true
      → IsTied (offer a b i w)
  unfolding offer
  asked-IsTied ack there = record {
    consistent = λ x. elim (Bool-cases (x == a)) [
      | inl hit ↦ unfold set in rw hit (offering-IsConsistent b i)
      | inr miss ↦ unfold set in rw miss (tied.consistent x)
    ];
    apart = λ x. same_partner x x ∙ tied.apart x;
    both = λ x y. same_partner x y ∙ tied.both x y ∙ sym (same_partner y x);
    listed = λ x j. offer-listed a b i w x j tied free ((tied.consistent a).asked_offer ack);
  }
    where
      same_partner :
          (x y : ℕ)
          → is_at (set a (offering b i) w.traders x).partner y ≡ is_at (w.traders x).partner y
      same_partner x y = elim (Bool-cases (x == a)) [
        | inl hit ↦
            let same : x ≡ a = ground (arith, hit) in
            unfold set in rw (same, ==_refl a, is_at→eq (w.traders a).partner b there) refl
        | inr miss ↦ unfold set in rw miss refl
      ]

  -- The sides of the two after an offer to a partner that was in no trade.
  abbrev asking : ℕ → Trader
  asking =
      set b (record (w.traders b) { state = acknowledged; partner = some a })
        (set a (offering b i) w.traders)

  asking-partner :
      (x y : ℕ)
      → is_at (asking x).partner y
        ≡ is_at (if x == b then some a else if x == a then some b else (w.traders x).partner) y
  unfolding set
  asking-partner x y = ground arith

  asking-item :
      (x j : ℕ) → is_at (asking x).item j ≡ is_at (set a (offering b i) w.traders x).item j
  unfolding set
  asking-item x j = elim (Bool-cases (x == b)) [
    | inl hit ↦ let same : x ≡ b = ground (arith, hit) in rw (set, same, ==_refl b, two) refl
    | inr miss ↦ rw (set, miss) refl
  ]

  module _ (idle_a : is_idle (w.traders a).state ≡ true)
      (idle_b : is_idle (w.traders b).state ≡ true) where
    nobody-partner :
        (x y : ℕ) → is_idle (w.traders x).state ≡ true → is_at (w.traders x).partner y ≡ false
    nobody-partner x y e = is_at-null (w.traders x).partner y (sym (tied.consistent x).alone ∙ e)

    asking-both : (x y : ℕ) → is_at (asking x).partner y ≡ is_at (asking y).partner x
    unfolding is_at
    asking-both x y =
        asking-partner x y
        ∙ ground (
          arith,
          two,
          tied.both x y,
          tied.both x a,
          tied.both x b,
          tied.both y a,
          tied.both y b,
          nobody-partner a x idle_a,
          nobody-partner b x idle_b,
          nobody-partner a y idle_a,
          nobody-partner b y idle_b,
        )
        ∙ sym (asking-partner y x)

    asking-IsConsistent : (x : ℕ) → IsConsistent (asking x)
    unfolding set
    asking-IsConsistent x = elim (Bool-cases (x == b)) [
      | inl hit ↦
          rw (set, hit)
            (record {
              alone = refl;
              steady = refl;
              idle_offer = λ e. cc;
              asked_offer = λ e. (tied.consistent b).idle_offer idle_b;
              own_offer = λ e. cc;
            })
      | inr miss ↦ elim (Bool-cases (x == a)) [
        | inl hit ↦ rw (set, miss, hit) (offering-IsConsistent b i)
        | inr other ↦ rw (set, miss, other) (tied.consistent x)
      ]
    ]

    asking-apart : (x : ℕ) → is_at (asking x).partner x ≡ false
    unfolding is_at
    asking-apart x = asking-partner x x ∙ ground (arith, two, tied.apart x)

    alone-IsTied : IsTied (ask a b (offer a b i w))
    unfolding ask offer
    alone-IsTied =
        rw (set_other a b (offering b i) w.traders two, idle_b)
          (record {
            consistent = asking-IsConsistent;
            apart = asking-apart;
            both = asking-both;
            listed = λ x j.
                offer-listed a b i w x j tied free ((tied.consistent a).idle_offer idle_a)
                ∙ sym (asking-item x j);
          })

not_idle-ask : (a b : ℕ) (w : World) → is_idle (w.traders b).state ≡ false → ask a b w ≡ w
unfolding ask
not_idle-ask a b w h = rw (ask, h) refl

pub internal_start_trade-IsTied :
    (a b i : ℕ) (w : World)
    → IsTied w
    → (b == a) ≡ false
    → lookup i w.trade_items ≡ none
    → IsTied (internal_start_trade a b i w).1
unfolding internal_start_trade
internal_start_trade-IsTied a b i w tied two free =
    elim (Bool-cases (is_idle (w.traders a).state)) [
      | inl idle_a ↦ elim (Bool-cases (is_idle (w.traders b).state)) [
        | inl idle_b ↦ rw (idle_a, idle_b) (alone-IsTied a b i w tied two free idle_a idle_b)
        | inr busy_b ↦
            let elsewhere : is_at (w.traders b).partner a ≡ false =
              sym (tied.both a b)
              ∙ is_at-null (w.traders a).partner b (sym (tied.consistent a).alone ∙ idle_a) in
            rw (idle_a, busy_b, elsewhere) tied
      ]
      | inr busy_a ↦
          elim (Bool-cases (is_acknowledged (w.traders a).state && is_at (w.traders a).partner b)) [
            | inr other ↦ rw (busy_a, other) tied
            | inl asked ↦
                let ack : is_acknowledged (w.traders a).state ≡ true = ground (arith, asked) in
                let there : is_at (w.traders a).partner b ≡ true = ground (arith, asked) in
                let back : is_at (w.traders b).partner a ≡ true = sym (tied.both a b) ∙ there in
                let busy_b : is_idle (w.traders b).state ≡ false =
                  (tied.consistent b).alone ∙ is_null-at (w.traders b).partner a back in
                let offered = asked-IsTied a b i w tied two free ack there in
                let still_busy : is_idle ((offer a b i w).traders b).state ≡ false =
                  unfold offer in rw (set_other a b (offering b i) w.traders two) busy_b in
                rw (busy_a, asked, busy_b, back, not_idle-ask a b (offer a b i w) still_busy)
                  offered
          ]
    ]
