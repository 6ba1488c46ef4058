-- ===== src/Social/Trade/Runs.antt =====
-- Every run of requests, acceptances and closings.
use tib.Common.{ℕ, ◌≡◌, refl, false, List, [], ◌∷◌, none, arith, ◌==◌, Bool-cases, inl, inr}
use tib.Common.Maps.{is_at}
use tib.Common.Assoc.{lookup}
use tib.Social.Trade.{no_trade, World}
use tib.Social.Trade.Requests.{
  Request, is_traded, player_request_trade, Transfer, player_accept_trade, player_close_trade,
}
use tib.Social.Trade.Tied.{IsTied}
use tib.Social.Trade.Starting.{internal_start_trade-IsTied}
use tib.Social.Trade.Closing.{internal_close_trade-IsTied, player_accept_trade-IsTied}

is_traded-lookup :
    (r : Request) (i : ℕ) (items : List (ℕ × ℕ))
    → is_traded r i items ≡ false
    → lookup i items ≡ none
unfolding is_traded lookup
is_traded-lookup r i [] h = refl
is_traded-lookup r i ((other, player) ∷ items) h = ground (arith, h, is_traded-lookup r i items)

player_request_trade-IsTied :
    (r : Request) (a b i : ℕ) (w : World) → IsTied w → IsTied (player_request_trade r a b i w)
unfolding player_request_trade
player_request_trade-IsTied r a b i w tied = elim (Bool-cases (a == b)) [
  | inl same ↦ rw same tied
  | inr two ↦ elim (Bool-cases (is_traded r i w.trade_items)) [
    | inl on_offer ↦ rw (two, on_offer) (ground (arith, tied))
    | inr free ↦
        let started =
          internal_start_trade-IsTied a b i w tied (ground (arith, two))
            (is_traded-lookup r i w.trade_items free) in
        rw (two, free) (ground (arith, tied, started))
  ]
]

pub data Call : Type 0 where
  requests : (r : Request) (player partner item : ℕ) → Call
  accepts : (t : Transfer) (player : ℕ) → Call
  closes : (player : ℕ) → Call

unfoldable pub serve : Call → World → World
serve (requests r a b i) w = player_request_trade r a b i w
serve (accepts t a) w = player_accept_trade t a w
serve (closes a) w = player_close_trade a w

unfoldable pub serve_all : List Call → World → World
serve_all [] w = w
serve_all (c ∷ cs) w = serve_all cs (serve c w)

serve-IsTied : (c : Call) (w : World) → IsTied w → IsTied (serve c w)
unfolding serve player_close_trade
serve-IsTied (requests r a b i) w tied = player_request_trade-IsTied r a b i w tied
serve-IsTied (accepts t a) w tied = player_accept_trade-IsTied t a w tied
serve-IsTied (closes a) w tied = internal_close_trade-IsTied a w tied

-- Where nobody trades.
abbrev pub quiet : (ℕ → ℕ) → World
quiet holder = record { traders = λ a. no_trade; trade_items = []; holder = holder }

quiet-IsTied : (holder : ℕ → ℕ) → IsTied (quiet holder)
unfolding is_at lookup
quiet-IsTied holder = record {
  consistent = λ a. record {
    alone = refl;
    steady = refl;
    idle_offer = λ e. refl;
    asked_offer = λ e. cc;
    own_offer = λ e. cc;
  };
  apart = λ a. refl;
  both = λ a b. refl;
  listed = λ a i. refl;
}

serve_all-IsTied_from : (cs : List Call) (w : World) → IsTied w → IsTied (serve_all cs w)
unfolding serve_all
serve_all-IsTied_from [] w tied = tied
serve_all-IsTied_from (c ∷ cs) w tied = serve_all-IsTied_from cs (serve c w) (serve-IsTied c w tied)

-- Whatever players request, accept and close, from a state in which nobody trades: partners are each
-- other's, nobody trades with itself, the table of items on offer holds an item for a player if and
-- only if the player offers it, and each player's state agrees with its partner and its offer: in no
-- trade it has neither, asked for a trade it offers nothing, in a trade that it began it offers an
-- item, and nobody is left in the midst of a transfer.
pub serve_all-IsTied : (cs : List Call) (holder : ℕ → ℕ) → IsTied (serve_all cs (quiet holder))
serve_all-IsTied cs holder = serve_all-IsTied_from cs (quiet holder) (quiet-IsTied holder)
