-- ===== src/Social/Trade/Requests.antt =====
-- The requests of players in src/game.cpp that start, accept and close a trade.
use tib.Common.{
  ℕ, ◌+◌, Bool, true, false, not, ◌&&◌, ◌||◌, List, [], ◌∷◌, Option, none, some, ltb, ◌==◌,
  if◌then◌else◌,
}
use tib.Common.Maps.{set}
use tib.Social.Trade.{
  accepted, transfer, is_initiated, is_accepted, is_acknowledged, Trader, no_trade, World,
  take_offer, internal_close_trade, internal_start_trade,
}

-- What `playerRequestTrade` asks of the map and of the item, in the order of its tests. A player that
-- is too far from the item walks to it and asks again, by a later request.
pub record Request : Type 0 where
  pub is_near_partner : Bool
  pub can_reach : Bool
  pub is_tradable : Bool
  pub is_same_floor : Bool
  pub is_near_item : Bool
  pub is_container : ℕ → Bool
  pub is_holding : ℕ → ℕ → Bool
  pub holding_count : ℕ
  pub script_allows : Bool

-- An item on offer that is the item, holds it, or lies in it.
unfoldable pub is_traded : Request → ℕ → List (ℕ × ℕ) → Bool
is_traded r i [] = false
is_traded r i ((other, player) ∷ items) =
    i == other
    || r.is_container i && r.is_holding i other
    || r.is_container other && r.is_holding other i
    || is_traded r i items

unfoldable pub player_request_trade : Request → ℕ → ℕ → ℕ → World → World
player_request_trade r a b i w =
    if a == b
    then w
    else if not
        (r.is_near_partner && r.can_reach && r.is_tradable && r.is_same_floor && r.is_near_item)
    then w
    else if is_traded r i w.trade_items
    then w
    else if r.is_container i && ltb 100 (r.holding_count + 1)
    then w
    else if not r.script_allows
    then w
    else (internal_start_trade a b i w).1

-- What `playerAcceptTrade` asks: whether the partner can be reached, the script's answer, what lies in
-- an item, at any depth, how the tests and the two moves of items end, and the calls that close the
-- trade while the items move, of the player (true) or of its partner (false).
pub record Transfer : Type 0 where
  pub can_reach : Bool
  pub script_allows : Bool
  pub is_holding : ℕ → ℕ → Bool
  pub can_add : Bool
  pub can_remove : Bool
  pub moves_first : Bool
  pub moves_second : Bool
  pub closings : List Bool

-- An item goes to a player with all that lies in it.
unfoldable pub give : Transfer → ℕ → ℕ → (ℕ → ℕ) → ℕ → ℕ
give t b i holder k = if k == i || t.is_holding i k then b else holder k

-- The moves: the first player's item goes to the second, and then the other way.
unfoldable pub move_items : Transfer → ℕ → ℕ → ℕ → ℕ → (ℕ → ℕ) → ℕ → ℕ
move_items t a b i j holder =
    if t.can_add && t.can_remove && t.moves_first
    then if t.moves_second then give t a j (give t b i holder) else give t b i holder
    else holder

-- Without two items `internalAddItem` answers that it is not possible.
unfoldable pub exchange : Transfer → ℕ → ℕ → Option ℕ → Option ℕ → (ℕ → ℕ) → ℕ → ℕ
exchange t a b none j holder = holder
exchange t a b (some i) none holder = holder
exchange t a b (some i) (some j) holder = move_items t a b i j holder

abbrev pub transferring : Trader → Trader
transferring trader = record trader { state = transfer }

-- Both enter the state `transfer`, and their items leave the table.
unfoldable pub begin_transfer : ℕ → ℕ → World → World
begin_transfer a b w = record w {
  traders = set b (transferring (w.traders b)) (set a (transferring (w.traders a)) w.traders);
  trade_items = take_offer (w.traders b).item (take_offer (w.traders a).item w.trade_items);
}

unfoldable pub close_each : List Bool → ℕ → ℕ → World → World
close_each [] a b w = w
close_each (true ∷ calls) a b w = close_each calls a b (internal_close_trade a w)
close_each (false ∷ calls) a b w = close_each calls a b (internal_close_trade b w)

unfoldable pub end_transfer : ℕ → ℕ → World → World
end_transfer a b w = record w { traders = set b no_trade (set a no_trade w.traders) }

unfoldable pub exchange_in : Transfer → ℕ → ℕ → Option ℕ → Option ℕ → World → World
exchange_in t a b i j w = record w { holder = exchange t a b i j w.holder }

-- Both have accepted: they enter the state `transfer`, the items move, during which calls may try to
-- close the trade, and then both are in no trade.
unfoldable pub complete : Transfer → ℕ → ℕ → World → World
complete t a b w = end_transfer a b (
    exchange_in t a b (w.traders a).item (w.traders b).item
      (close_each t.closings a b (begin_transfer a b w)))

unfoldable pub accept : ℕ → World → World
accept a w = record w { traders = set a (record (w.traders a) { state = accepted }) w.traders }

unfoldable pub accept_with : Transfer → ℕ → Option ℕ → World → World
accept_with t a none w = w
accept_with t a (some b) w =
    if not t.can_reach
    then w
    else if not (is_accepted ((accept a w).traders b).state)
    then accept a w
    else if not t.script_allows
    then internal_close_trade a (accept a w)
    else complete t a b (accept a w)

unfoldable pub player_accept_trade : Transfer → ℕ → World → World
player_accept_trade t a w =
    if is_acknowledged (w.traders a).state || is_initiated (w.traders a).state
    then accept_with t a (w.traders a).partner w
    else w

unfoldable pub player_close_trade : ℕ → World → World
player_close_trade a w = internal_close_trade a w
