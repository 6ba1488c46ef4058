-- ===== src/Social/Trade/Exchange.antt =====
-- Which items change hands when a player accepts a trade.
use tib.Common.{
  ℕ, ◌≡◌, ◌∙◌, refl, sym, ap, Bool, true, false, not, ◌&&◌, ◌||◌, Option, none, some, arith, ◌==◌,
  if◌then◌else◌, Bool-cases, inl, inr, ==_refl,
}
use tib.Common.Maps.{set, is_at, set_self, set_other, apart_at}
use tib.Common.Assoc.{lookup}
use tib.Social.Trade.{
  accepted, is_initiated, is_accepted, is_acknowledged, is_transfer, Trader, no_trade, World, reset,
  reset_partner, partner_transfers, internal_close_trade,
}
use tib.Social.Trade.Requests.{
  Transfer, give, move_items, exchange, complete, accept, accept_with, player_accept_trade,
}
use tib.Social.Trade.Moving.{completed, complete-completed}
use tib.Social.Trade.Tied.{IsTied}

-- A trade that is complete: `a` gave `i` and what lies in it to `b`, and `b` gave `j` and what lies in
-- it to `a`, unless that move failed.
pub record IsExchanged (t : Transfer) (w v : World) (a b i j : ℕ) : Type 0 where
  pub partner : (w.traders a).partner ≡ some b
  pub gives : (w.traders a).item ≡ some i
  pub gets : (w.traders b).item ≡ some j
  pub apart : (j == i) ≡ false
  pub agreed : is_accepted (w.traders b).state ≡ true
  pub holders :
      (k : ℕ)
      → v.holder k ≡ (
          if t.moves_second && (k == j || t.is_holding j k)
          then a
          else if k == i || t.is_holding i k
          then b
          else w.holder k)
  pub ended : v.traders a ≡ no_trade
  pub partner_ended : v.traders b ≡ no_trade

pub data Outcome (t : Transfer) (w v : World) (a : ℕ) : Type 0 where
  unmoved : ((k : ℕ) → v.holder k ≡ w.holder k) → Outcome t w v a
  exchanged : (b i j : ℕ) → IsExchanged t w v a b i j → Outcome t w v a

reset_partner-holder :
    (o : Option ℕ) (v : World) (k : ℕ) → (reset_partner o v).holder k ≡ v.holder k
unfolding reset_partner reset
reset_partner-holder none v k = refl
reset_partner-holder (some b) v k = refl

internal_close_trade-holder :
    (a : ℕ) (w : World) (k : ℕ) → (internal_close_trade a w).holder k ≡ w.holder k
unfolding internal_close_trade reset
internal_close_trade-holder a w k =
    elim (Bool-cases
      (partner_transfers (w.traders a).partner w || is_transfer (w.traders a).state)) [
        | inl held ↦ rw held refl
        | inr free ↦ rw free (reset_partner-holder (w.traders a).partner (reset a w) k)
      ]

-- Two traders never offer one item.
offers_apart :
    (a b i j : ℕ) (w : World)
    → IsTied w
    → (b == a) ≡ false
    → (w.traders a).item ≡ some i
    → (w.traders b).item ≡ some j
    → (j == i) ≡ false
unfolding is_at
offers_apart a b i j w tied two gives gets = elim (Bool-cases (j == i)) [
  | inr apart ↦ apart
  | inl hit ↦
      let same : j ≡ i = ground (arith, hit) in
      let mine : is_at (lookup i w.trade_items) a ≡ true =
        tied.listed a i ∙ ap (λ o. is_at o i) gives ∙ ==_refl i in
      let yours : is_at (lookup i w.trade_items) b ≡ true =
        tied.listed b i ∙ ap (λ o. is_at o i) gets ∙ ap (λ n. n == i) same ∙ ==_refl i in
      let never = apart_at (lookup i w.trade_items) a b two mine in cc
]

move_items-Outcome :
    (t : Transfer) (a b i j : ℕ) (w v : World)
    → (w.traders a).partner ≡ some b
    → (w.traders a).item ≡ some i
    → (w.traders b).item ≡ some j
    → is_accepted (w.traders b).state ≡ true
    → (b == a) ≡ false
    → (j == i) ≡ false
    → v.traders a ≡ no_trade
    → v.traders b ≡ no_trade
    → ((k : ℕ) → v.holder k ≡ move_items t a b i j w.holder k)
    → Outcome t w v a
unfolding move_items give
move_items-Outcome t a b i j w v partner gives gets agreed two apart ended partner_ended moved =
    elim (Bool-cases (t.can_add && t.can_remove && t.moves_first)) [
      | inl can ↦ exchanged b i j (record {
        partner = partner;
        gives = gives;
        gets = gets;
        apart = apart;
        agreed = agreed;
        holders = λ k. ground (arith, moved k, can);
        ended = ended;
        partner_ended = partner_ended;
      })
      | inr cannot ↦ unmoved (λ k. ground (arith, moved k, cannot))
    ]

-- Without both items nothing moves.
exchange-Outcome :
    (t : Transfer) (a b : ℕ) (w v : World) (o o' : Option ℕ)
    → IsTied w
    → (w.traders a).partner ≡ some b
    → (w.traders a).item ≡ o
    → (w.traders b).item ≡ o'
    → is_accepted (w.traders b).state ≡ true
    → (b == a) ≡ false
    → v.traders a ≡ no_trade
    → v.traders b ≡ no_trade
    → ((k : ℕ) → v.holder k ≡ exchange t a b o o' w.holder k)
    → Outcome t w v a
unfolding exchange
exchange-Outcome t a b w v none o' tied partner gives gets agreed two ended partner_ended moved =
    unmoved moved
exchange-Outcome t a b w v (some i) none tied partner gives gets agreed two ended partner_ended
      moved =
    unmoved moved
exchange-Outcome t a b w v (some i) (some j) tied partner gives gets agreed two ended partner_ended
      moved =
    move_items-Outcome t a b i j w v partner gives gets agreed two
      (offers_apart a b i j w tied two gives gets) ended partner_ended moved

accept_other : (a b : ℕ) (w : World) → (b == a) ≡ false → (accept a w).traders b ≡ w.traders b
unfolding accept
accept_other a b w two = set_other a b _ w.traders two

accept_item : (a : ℕ) (w : World) → ((accept a w).traders a).item ≡ (w.traders a).item
unfolding accept
accept_item a w =
    ap (λ (t : Trader). t.item) (set_self a (record (w.traders a) { state = accepted }) w.traders)

accept-holder : (a k : ℕ) (w : World) → (accept a w).holder k ≡ w.holder k
unfolding accept
accept-holder a k w = refl

complete-Outcome :
    (t : Transfer) (a b : ℕ) (w : World)
    → IsTied w
    → (w.traders a).partner ≡ some b
    → is_accepted (w.traders b).state ≡ true
    → (b == a) ≡ false
    → Outcome t w (complete t a b (accept a w)) a
unfolding accept
complete-Outcome t a b w tied partner agreed two = rw (complete-completed t a b (accept a w)) (
    exchange-Outcome t a b w (completed t a b (accept a w)) (w.traders a).item (w.traders b).item
      tied partner refl refl agreed two
      (set_other b a no_trade (set a no_trade (accept a w).traders) (ground (arith, two))
        ∙ set_self a no_trade (accept a w).traders)
      (set_self b no_trade (set a no_trade (accept a w).traders))
      (λ k.
        ap (λ o. exchange t a b o ((accept a w).traders b).item w.holder k) (accept_item a w)
        ∙ ap (λ (s : Trader). exchange t a b (w.traders a).item s.item w.holder k)
            (accept_other a b w two)))

not-false : (b : Bool) → not b ≡ false → b ≡ true
not-false true h = refl
not-false false h = cc

if-Outcome :
    (t : Transfer) (a : ℕ) (w : World) (c : Bool) (v u : World)
    → (c ≡ true → Outcome t w v a)
    → (c ≡ false → Outcome t w u a)
    → Outcome t w (if c then v else u) a
if-Outcome t a w true v u p q = p refl
if-Outcome t a w false v u p q = q refl

not_self : (a b : ℕ) (w : World) → IsTied w → (w.traders a).partner ≡ some b → (b == a) ≡ false
unfolding is_at
not_self a b w tied partner = ap (λ o. is_at o a) (sym partner) ∙ tied.apart a

accept_with-Outcome :
    (t : Transfer) (a : ℕ) (o : Option ℕ) (w : World)
    → IsTied w
    → (w.traders a).partner ≡ o
    → Outcome t w (accept_with t a o w) a
unfolding accept_with
accept_with-Outcome t a none w tied partner = unmoved (λ k. refl)
accept_with-Outcome t a (some b) w tied partner =
    let two = not_self a b w tied partner in
    let over = complete t a b (accept a w) in
    let answer = if not t.script_allows then internal_close_trade a (accept a w) else over in
    let reached = if not (is_accepted ((accept a w).traders b).state) then accept a w else answer in
    if-Outcome t a w (not t.can_reach) w reached (λ far. unmoved (λ k. refl))
      (λ near.
        if-Outcome t a w (not (is_accepted ((accept a w).traders b).state)) (accept a w) answer
          (λ waits. unmoved (λ k. accept-holder a k w))
          (λ answered.
            if-Outcome t a w (not t.script_allows) (internal_close_trade a (accept a w)) over
              (λ forbids.
                unmoved (λ k. internal_close_trade-holder a (accept a w) k ∙ accept-holder a k w))
              (λ allows.
                complete-Outcome t a b w tied partner
                  (ap (λ (s : Trader). is_accepted s.state) (sym (accept_other a b w two))
                    ∙ not-false _ answered)
                  two)))

-- Where the players' trades are tied, a player that accepts either moves no item, or it and its
-- partner, which accepted before, end in no trade, its own item and all that lies in it is the
-- partner's, the partner's item and all that lies in it is the player's if the second move
-- succeeded, and every other item stays where it was, the partner's too if that move failed.
pub player_accept_trade-Outcome :
    (t : Transfer) (a : ℕ) (w : World) → IsTied w → Outcome t w (player_accept_trade t a w) a
unfolding player_accept_trade
player_accept_trade-Outcome t a w tied =
    elim (Bool-cases (is_acknowledged (w.traders a).state || is_initiated (w.traders a).state)) [
      | inl may ↦ rw may (accept_with-Outcome t a (w.traders a).partner w tied refl)
      | inr never ↦ rw never (unmoved (λ k. refl))
    ]

-- A player in a trade whose partner has accepted, both with an item on offer, accepts; the partner
-- is in reach, the script allows the trade, and every test and both moves succeed: the two items
-- change hands, each with all that lies in it, and no other item moves, whichever calls try to close
-- the trade in between.
pub player_accept_trade-swaps :
    (t : Transfer) (a b i j : ℕ) (w : World)
    → IsTied w
    → (is_acknowledged (w.traders a).state || is_initiated (w.traders a).state) ≡ true
    → (w.traders a).partner ≡ some b
    → is_accepted (w.traders b).state ≡ true
    → (w.traders a).item ≡ some i
    → (w.traders b).item ≡ some j
    → (t.can_reach && t.script_allows) ≡ true
    → (t.can_add && t.can_remove && t.moves_first && t.moves_second) ≡ true
    → (k : ℕ)
    → (player_accept_trade t a w).holder k ≡ (
        if k == j || t.is_holding j k
        then a
        else if k == i || t.is_holding i k
        then b
        else w.holder k)
unfolding player_accept_trade accept_with exchange move_items give
player_accept_trade-swaps t a b i j w tied may partner agreed gives gets meets moves k =
    let two = not_self a b w tied partner in
    rw
      (
        may,
        partner,
        complete-completed t a b (accept a w),
        accept_other a b w two,
        agreed,
        accept_item a w,
        gives,
        gets,
      )
      (ground (arith, meets, moves, accept-holder a k w))
