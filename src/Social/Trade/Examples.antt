-- ===== src/Social/Trade/Examples.antt =====
-- Trades on concrete players and items, and the trades' theorems there.
use tib.Common.{ℕ, ◌≡◌, refl, true, false, ◌&&◌, List, [], ◌∷◌, ◌==◌}
use tib.Common.Maps.{set, is_at}
use tib.Common.Assoc.{lookup, insert}
use tib.Social.Trade.{TradeState, World, offer, ask, internal_start_trade, internal_close_trade}
use tib.Social.Trade.Requests.{
  Request, is_traded, player_request_trade, Transfer, give, move_items, exchange, complete,
  begin_transfer, close_each, end_transfer, exchange_in, accept, accept_with, player_accept_trade,
}
use tib.Social.Trade.Tied.{IsTied}
use tib.Social.Trade.Runs.{Call, requests, accepts, serve, serve_all, quiet, serve_all-IsTied}
use tib.Social.Trade.Exchange.{Outcome, player_accept_trade-Outcome, player_accept_trade-swaps}

abbrev near : Request
near = record {
  is_near_partner = true;
  can_reach = true;
  is_tradable = true;
  is_same_floor = true;
  is_near_item = true;
  is_container = λ i. false;
  is_holding = λ i j. false;
  holding_count = 0;
  script_allows = true;
}

-- Item 11 lies in item 10, and both players are asked to close the trade in the midst of it.
abbrev succeeds : Transfer
succeeds = record {
  can_reach = true;
  script_allows = true;
  is_holding = λ i k. i == 10 && k == 11;
  can_add = true;
  can_remove = true;
  moves_first = true;
  moves_second = true;
  closings = true ∷ false ∷ [];
}

-- Player 1 offers its item 10, player 2 its item 20, and player 2 accepts.
abbrev offers : List Call
offers = requests near 1 2 10 ∷ requests near 2 1 20 ∷ accepts succeeds 2 ∷ []

-- Items 10 and 11 are player 1's and item 20 is player 2's.
abbrev owners : ℕ → ℕ
owners = set 11 1 (set 10 1 (λ i. 2))

abbrev offered : World
offered = serve_all offers (quiet owners)

serve_all-IsTied_example : IsTied offered
serve_all-IsTied_example = serve_all-IsTied offers owners

player_accept_trade-Outcome_example :
    Outcome succeeds offered (player_accept_trade succeeds 1 offered) 1
player_accept_trade-Outcome_example =
    player_accept_trade-Outcome succeeds 1 offered serve_all-IsTied_example

player_accept_trade-swaps_example : (player_accept_trade succeeds 1 offered).holder 11 ≡ 2
unfolding serve_all serve player_request_trade is_traded internal_start_trade offer ask
    player_accept_trade accept_with accept complete begin_transfer close_each internal_close_trade
    end_transfer exchange_in exchange move_items give set is_at insert lookup
player_accept_trade-swaps_example =
    player_accept_trade-swaps succeeds 1 2 10 20 offered (serve_all-IsTied offers owners) refl refl
      refl refl refl refl refl 11

-- The move of the second item fails, and player 2 has both.
abbrev half : Transfer
half = record succeeds { moves_second = false }

half_run : (player_accept_trade half 1 offered).holder 10 ≡ 2
unfolding serve_all serve player_request_trade is_traded internal_start_trade offer ask
    player_accept_trade accept_with accept complete begin_transfer close_each internal_close_trade
    end_transfer exchange_in exchange move_items give set is_at insert lookup
half_run = refl

half_run_other : (player_accept_trade half 1 offered).holder 20 ≡ 2
unfolding serve_all serve player_request_trade is_traded internal_start_trade offer ask
    player_accept_trade accept_with accept complete begin_transfer close_each internal_close_trade
    end_transfer exchange_in exchange move_items give set is_at insert lookup
half_run_other = refl

-- The second player asks for other goods after the first accepted: the first still accepts.
counter_run :
    ((serve_all
        (requests near 1 2 10 ∷ accepts succeeds 1 ∷ requests near 2 1 20 ∷ [])
        (quiet owners)).traders
      1).state
    ≡ TradeState.accepted
unfolding serve_all serve player_request_trade is_traded internal_start_trade offer ask
    player_accept_trade accept_with accept complete begin_transfer close_each internal_close_trade
    end_transfer exchange_in exchange move_items give set is_at insert lookup
counter_run = refl
