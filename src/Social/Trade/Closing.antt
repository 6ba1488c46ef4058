-- ===== src/Social/Trade/Closing.antt =====
-- Closing a trade and accepting one leave the players tied.
use tib.Common.{
  ℕ, ◌≡◌, ◌∙◌, refl, sym, ap, Bool, true, false, not, ◌||◌, Option, none, some, arith, ◌==◌,
  if◌then◌else◌, Bool-cases, Option-cases, inl, inr, ==_refl,
}
use tib.Common.Maps.{set, is_at, set_self, set_other}
use tib.Social.Trade.{
  TradeState, idle, initiated, accepted, acknowledged, transfer, is_idle, is_initiated, is_accepted,
  is_acknowledged, Trader, no_trade, World, take_offer, reset, reset_partner, internal_close_trade,
}
use tib.Social.Trade.Requests.{Transfer, complete, accept, accept_with, player_accept_trade}
use tib.Social.Trade.Moving.{complete-completed}
use tib.Social.Trade.Tied.{is_null, IsConsistent, IsTied, ended-IsTied}

-- A change of states that keeps partners and offers.
states-IsTied :
    (w : World) (traders : ℕ → Trader)
    → ((x : ℕ) → (traders x).partner ≡ (w.traders x).partner)
    → ((x : ℕ) → (traders x).item ≡ (w.traders x).item)
    → ((x : ℕ) → IsConsistent (traders x))
    → IsTied w
    → IsTied (record w { traders = traders })
states-IsTied w traders partners items consistent tied = record {
  consistent = consistent;
  apart = λ x. ap (λ o. is_at o x) (partners x) ∙ tied.apart x;
  both = λ x y.
      ap (λ o. is_at o y) (partners x) ∙ tied.both x y ∙ sym (ap (λ o. is_at o x) (partners y));
  listed = λ x j. tied.listed x j ∙ sym (ap (λ o. is_at o j) (items x));
}

idle-eq :
    (t : Trader)
    → is_null t.partner ≡ true
    → is_null t.item ≡ true
    → is_idle t.state ≡ true
    → t ≡ no_trade
idle-eq t p o s = λ i. record {
  state = state_eq t.state s i;
  partner = null_eq t.partner p i;
  item = null_eq t.item o i;
}
  where
    state_eq : (s : TradeState) → is_idle s ≡ true → s ≡ idle
    state_eq idle e = refl
    state_eq initiated e = cc
    state_eq accepted e = cc
    state_eq acknowledged e = cc
    state_eq transfer e = cc

    null_eq : (o : Option ℕ) → is_null o ≡ true → o ≡ none
    null_eq none e = refl
    null_eq (some x) e = cc

set_same {ℓ} :
    {A : Type ℓ} (key : ℕ) (new : A) (f : ℕ → A) → f key ≡ new → (k : ℕ) → set key new f k ≡ f k
set_same key new f e k = elim (Bool-cases (k == key)) [
  | inl hit ↦ let same : k ≡ key = ground (arith, hit) in rw (same, set_self key new f) (sym e)
  | inr miss ↦ set_other key k new f miss
]

pub internal_close_trade-IsTied : (a : ℕ) (w : World) → IsTied w → IsTied (internal_close_trade a w)
unfolding internal_close_trade reset_partner reset is_at
internal_close_trade-IsTied a w tied = elim (Option-cases (w.traders a).partner) [
  | inl alone ↦
      let lone : is_null (w.traders a).partner ≡ true = ap is_null alone in
      let at_rest : is_idle (w.traders a).state ≡ true = (tied.consistent a).alone ∙ lone in
      let same = idle-eq (w.traders a) lone ((tied.consistent a).idle_offer at_rest) at_rest in
      rw same (
        unfold take_offer in
        states-IsTied w (set a no_trade w.traders)
          (λ x. ap (λ (t : Trader). t.partner) (set_same a no_trade w.traders same x))
          (λ x. ap (λ (t : Trader). t.item) (set_same a no_trade w.traders same x))
          (λ x. rw (set_same a no_trade w.traders same x) (tied.consistent x)) tied)
  | inr (b, there) ↦
      let partners : is_at (w.traders a).partner b ≡ true = rw there (unfold is_at in ==_refl b) in
      let two : (b == a) ≡ false = rw there at (tied.apart a) in
      rw
        (
          there,
          (tied.consistent a).steady,
          (tied.consistent b).steady,
          set_other a b no_trade w.traders (unfold is_at in two),
        )
        (ended-IsTied a b w tied partners w.holder)
]

accepting-IsConsistent :
    (t : Trader)
    → is_idle t.state ≡ false
    → IsConsistent t
    → IsConsistent (record t { state = accepted })
accepting-IsConsistent t busy c = record {
  alone = sym busy ∙ c.alone;
  steady = refl;
  idle_offer = λ e. cc;
  asked_offer = λ e. cc;
  own_offer = λ e. cc;
}

accept-IsTied :
    (a : ℕ) (w : World) → is_idle (w.traders a).state ≡ false → IsTied w → IsTied (accept a w)
unfolding accept
accept-IsTied a w busy tied =
    states-IsTied w (set a (record (w.traders a) { state = accepted }) w.traders) same_partner
      same_item consistent tied
  where
    same_partner :
        (x : ℕ)
        → (set a (record (w.traders a) { state = accepted }) w.traders x).partner
          ≡ (w.traders x).partner
    same_partner x = elim (Bool-cases (x == a)) [
      | inl hit ↦
          let same : x ≡ a = ground (arith, hit) in
          rw (same, set_self a (record (w.traders a) { state = accepted }) w.traders) refl
      | inr miss ↦
          rw (set_other a x (record (w.traders a) { state = accepted }) w.traders miss) refl
    ]

    same_item :
        (x : ℕ)
        → (set a (record (w.traders a) { state = accepted }) w.traders x).item ≡ (w.traders x).item
    same_item x = elim (Bool-cases (x == a)) [
      | inl hit ↦
          let same : x ≡ a = ground (arith, hit) in
          rw (same, set_self a (record (w.traders a) { state = accepted }) w.traders) refl
      | inr miss ↦
          rw (set_other a x (record (w.traders a) { state = accepted }) w.traders miss) refl
    ]

    consistent :
        (x : ℕ) → IsConsistent (set a (record (w.traders a) { state = accepted }) w.traders x)
    consistent x = elim (Bool-cases (x == a)) [
      | inl hit ↦
          let same : x ≡ a = ground (arith, hit) in
          rw (same, set_self a (record (w.traders a) { state = accepted }) w.traders)
            (accepting-IsConsistent (w.traders a) busy (tied.consistent a))
      | inr miss ↦
          rw (set_other a x (record (w.traders a) { state = accepted }) w.traders miss)
            (tied.consistent x)
    ]

accept-partner :
    (a b : ℕ) (w : World)
    → (w.traders a).partner ≡ some b
    → is_at ((accept a w).traders a).partner b ≡ true
unfolding accept is_at
accept-partner a b w e =
    rw (set_self a (record (w.traders a) { state = accepted }) w.traders, e) (==_refl b)

complete-IsTied :
    (t : Transfer) (a b : ℕ) (w : World)
    → is_at (w.traders a).partner b ≡ true
    → IsTied w
    → IsTied (complete t a b w)
complete-IsTied t a b w partners tied =
    rw (complete-completed t a b w) (ended-IsTied a b w tied partners _)

accept_with-IsTied :
    (t : Transfer) (a : ℕ) (o : Option ℕ) (w : World)
    → (w.traders a).partner ≡ o
    → is_idle (w.traders a).state ≡ false
    → IsTied w
    → IsTied (accept_with t a o w)
unfolding accept_with
accept_with-IsTied t a none w e busy tied = tied
accept_with-IsTied t a (some b) w e busy tied =
    let now = accept-IsTied a w busy tied in
    let both = complete-IsTied t a b (accept a w) (accept-partner a b w e) now in
    let closed = internal_close_trade-IsTied a (accept a w) now in
    choose (not t.can_reach) w _ tied (
      choose (not (is_accepted ((accept a w).traders b).state)) (accept a w) _ now (
        choose (not t.script_allows) (internal_close_trade a (accept a w))
          (complete t a b (accept a w)) closed both))
  where
    choose : (c : Bool) (v u : World) → IsTied v → IsTied u → IsTied (if c then v else u)
    choose true v u p q = p
    choose false v u p q = q

pub player_accept_trade-IsTied :
    (t : Transfer) (a : ℕ) (w : World) → IsTied w → IsTied (player_accept_trade t a w)
unfolding player_accept_trade
player_accept_trade-IsTied t a w tied =
    elim (Bool-cases (is_acknowledged (w.traders a).state || is_initiated (w.traders a).state)) [
      | inl may ↦ rw may (
          accept_with-IsTied t a (w.traders a).partner w refl (may_busy (w.traders a).state may)
            tied)
      | inr never ↦ rw never tied
    ]
  where
    may_busy : (s : TradeState) → (is_acknowledged s || is_initiated s) ≡ true → is_idle s ≡ false
    may_busy idle e = cc
    may_busy initiated e = refl
    may_busy accepted e = refl
    may_busy acknowledged e = refl
    may_busy transfer e = refl
