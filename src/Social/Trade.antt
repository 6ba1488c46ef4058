-- ===== src/Social/Trade.antt =====
-- The trade of two players in src/game.cpp, from the request to the exchange. Players and items are
-- numbers, for their addresses. What the requests ask of the map, of the items and of scripts, and
-- how the moves of items end, are arguments. Which player has an item, on it or in a container at any
-- depth, is a map; messages change no state.
pub mod Requests
pub mod Tied
pub mod Starting
pub mod Moving
pub mod Closing
pub mod Runs
pub mod Exchange
mod Examples
use tib.Common.{
  ℕ, ◌+◌, Bool, true, false, not, ◌&&◌, ◌||◌, List, [], ◌∷◌, Option, none, some, ltb, ◌==◌,
  if◌then◌else◌,
}
use tib.Common.Maps.{set, is_at}
use tib.Common.Assoc.{insert, remove}

pub data TradeState : Type 0 where
  idle initiated accepted acknowledged transfer : TradeState

abbrev pub is_idle : TradeState → Bool
is_idle idle = true
is_idle initiated = false
is_idle accepted = false
is_idle acknowledged = false
is_idle transfer = false

abbrev pub is_initiated : TradeState → Bool
is_initiated idle = false
is_initiated initiated = true
is_initiated accepted = false
is_initiated acknowledged = false
is_initiated transfer = false

abbrev pub is_accepted : TradeState → Bool
is_accepted idle = false
is_accepted initiated = false
is_accepted accepted = true
is_accepted acknowledged = false
is_accepted transfer = false

abbrev pub is_acknowledged : TradeState → Bool
is_acknowledged idle = false
is_acknowledged initiated = false
is_acknowledged accepted = false
is_acknowledged acknowledged = true
is_acknowledged transfer = false

abbrev pub is_transfer : TradeState → Bool
is_transfer idle = false
is_transfer initiated = false
is_transfer accepted = false
is_transfer acknowledged = false
is_transfer transfer = true

-- What a player keeps of its trade.
pub record Trader : Type 0 where
  pub state : TradeState
  pub partner : Option ℕ
  pub item : Option ℕ

abbrev pub no_trade : Trader
no_trade = record { state = idle; partner = none; item = none }

-- `trade_items` is the game's table of the items on offer, each with the player that offers it.
pub record World : Type 0 where
  pub traders : ℕ → Trader
  pub trade_items : List (ℕ × ℕ)
  pub holder : ℕ → ℕ

-- `tradeItems.find` and `erase` for what a player offers.
unfoldable pub take_offer : Option ℕ → List (ℕ × ℕ) → List (ℕ × ℕ)
take_offer none items = items
take_offer (some i) items = remove i items

-- One side of `internalCloseTrade`.
unfoldable pub reset : ℕ → World → World
reset a w = record w {
  traders = set a no_trade w.traders;
  trade_items = take_offer (w.traders a).item w.trade_items;
}

unfoldable pub reset_partner : Option ℕ → World → World
reset_partner none w = w
reset_partner (some b) w = reset b w

abbrev pub partner_transfers : Option ℕ → World → Bool
partner_transfers none w = false
partner_transfers (some b) w = is_transfer (w.traders b).state

unfoldable pub internal_close_trade : ℕ → World → World
internal_close_trade a w =
    if partner_transfers (w.traders a).partner w || is_transfer (w.traders a).state
    then w
    else reset_partner (w.traders a).partner (reset a w)

-- The player offers, and waits.
unfoldable pub offer : ℕ → ℕ → ℕ → World → World
offer a b i w = record w {
  traders = set a (record { state = initiated; partner = some b; item = some i }) w.traders;
  trade_items = insert i a w.trade_items;
}

-- A partner that was in no trade is asked for one.
unfoldable pub ask : ℕ → ℕ → World → World
ask a b w =
    if is_idle (w.traders b).state
    then record w {
      traders = set b (record (w.traders b) { state = acknowledged; partner = some a }) w.traders;
    }
    else w

unfoldable pub internal_start_trade : ℕ → ℕ → ℕ → World → Bool × World
internal_start_trade a b i w =
    if not (is_idle (w.traders a).state)
      && not (is_acknowledged (w.traders a).state && is_at (w.traders a).partner b)
    then (false, w)
    else if not (is_idle (w.traders b).state) && not (is_at (w.traders b).partner a)
    then (false, w)
    else (true, ask a b (offer a b i w))
