-- ===== src/Social/Trade/Moving.antt =====
-- The state `transfer`: no call closes a trade while its items move.
use tib.Common.{
  ℕ, ◌≡◌, ◌∙◌, refl, ap, Bool, true, false, ◌||◌, List, [], ◌∷◌, arith, ◌==◌, if◌then◌else◌,
}
use tib.Common.Maps.{set}
use tib.Social.Trade.{is_transfer, Trader, no_trade, World, internal_close_trade}
use tib.Social.Trade.Requests.{
  Transfer, exchange, transferring, begin_transfer, close_each, end_transfer, exchange_in, complete,
}
use tib.Social.Trade.Tied.{ended, unlisted}

if_held {ℓ} : {A : Type ℓ} (p q : Bool) (x y : A) → q ≡ true → (if p || q then x else y) ≡ x
if_held true q x y h = refl
if_held false true x y h = refl
if_held false false x y h = cc

internal_close_trade-transfer :
    (a : ℕ) (w : World) → is_transfer (w.traders a).state ≡ true → internal_close_trade a w ≡ w
unfolding internal_close_trade
internal_close_trade-transfer a w h = if_held _ (is_transfer (w.traders a).state) w _ h

close_each-transfer :
    (calls : List Bool) (a b : ℕ) (w : World)
    → is_transfer (w.traders a).state ≡ true
    → is_transfer (w.traders b).state ≡ true
    → close_each calls a b w ≡ w
unfolding close_each
close_each-transfer [] a b w h k = refl
close_each-transfer (true ∷ calls) a b w h k =
    ap (λ v. close_each calls a b v) (internal_close_trade-transfer a w h)
    ∙ close_each-transfer calls a b w h k
close_each-transfer (false ∷ calls) a b w h k =
    ap (λ v. close_each calls a b v) (internal_close_trade-transfer b w k)
    ∙ close_each-transfer calls a b w h k

if_transfers :
    (p q : Bool) (x y z : Trader)
    → (p || q) ≡ true
    → is_transfer (if p then transferring x else if q then transferring y else z).state ≡ true
if_transfers true q x y z h = refl
if_transfers false true x y z h = refl
if_transfers false false x y z h = cc

begin_transfer-transfer :
    (a b k : ℕ) (w : World)
    → (k == b || k == a) ≡ true
    → is_transfer ((begin_transfer a b w).traders k).state ≡ true
unfolding begin_transfer set
begin_transfer-transfer a b k w h =
    if_transfers (k == b) (k == a) (w.traders b) (w.traders a) (w.traders k) h

if_over {ℓ} :
    {A : Type ℓ} (p q : Bool) (n x y z : A)
    → (if p then n else if q then n else if p then x else if q then y else z)
      ≡ (if p then n else if q then n else z)
if_over true q n x y z = refl
if_over false true n x y z = refl
if_over false false n x y z = refl

end-begin :
    (a b k : ℕ) (w : World) → ended a b (begin_transfer a b w).traders k ≡ ended a b w.traders k
unfolding begin_transfer set
end-begin a b k w = if_over (k == b) (k == a) no_trade _ _ (w.traders k)

-- Both sides are reset, both items are off the table, and the items are exchanged.
abbrev pub completed : Transfer → ℕ → ℕ → World → World
completed t a b w = record {
  traders = ended a b w.traders;
  trade_items = unlisted (w.traders a).item (w.traders b).item w.trade_items;
  holder = exchange t a b (w.traders a).item (w.traders b).item w.holder;
}

-- The calls that close the trade in between change nothing.
pub complete-completed : (t : Transfer) (a b : ℕ) (w : World) → complete t a b w ≡ completed t a b w
unfolding complete end_transfer exchange_in begin_transfer
complete-completed t a b w =
    ap (λ v. end_transfer a b (exchange_in t a b (w.traders a).item (w.traders b).item v))
      (close_each-transfer t.closings a b (begin_transfer a b w)
        (begin_transfer-transfer a b a w (ground arith))
        (begin_transfer-transfer a b b w (ground arith)))
    ∙ (λ i. record (completed t a b w) { traders = λ k. end-begin a b k w i })
