-- ===== src/MatchingEngine/Matching.antt =====
-- src/matching_engine/matching_engine/matching.hpp. The callbacks act on a state `S`, which is the
-- engine's in production and anything in a test. Trade counters are sizes of lists in memory.
pub mod Sweep
pub mod Consume
pub mod Level
pub mod Walk
pub mod Keeps
pub mod Refine
pub mod SoundSide
pub mod Fills
pub mod World
use cpp_demo_build.Prelude.{
  ℕ, zero, suc, ◌+◌, Bool, true, false, ◌&&◌, Option, none, some, List, [], ◌∷◌, ◌++◌, ltb, leb,
  ◌==◌, if◌then◌else◌, min, sub64, length, is_empty, codes,
}
use cpp_demo_build.OrderEntry.Types.{Price, Quantity, Side, buy, sell, is_buy}
use cpp_demo_build.MarketData.Types as md
use cpp_demo_build.MarketData.Messages.{Trade}
use cpp_demo_build.MatchingEngine.Types.{OrderState, OrderNode}
use cpp_demo_build.MatchingEngine.Book.{PriceLevel, Entry, SideMap}

pub record ExecutionSummary : Type 0 where
  pub trades : ℕ
  pub last_traded : Option Price

abbrev pub no_execution : ExecutionSummary
no_execution = record { trades = 0; last_traded = none }

unfoldable pub reaches : Side → Price → Price → Bool
reaches buy taker_price level_price = leb level_price taker_price
reaches sell taker_price level_price = leb taker_price level_price

unfoldable pub crosses : OrderState → Price → Bool
unfolding reaches
crosses taker level_price =
    if taker.price == 0 then true else reaches taker.side taker.price level_price

unfoldable pub make_trade : OrderState → OrderState → Price → Quantity → Trade
make_trade taker maker level_price fill_qty =
    let buyer = if is_buy taker.side then taker else maker in
    let seller = if is_buy taker.side then maker else taker in
    record {
      security_id = taker.security_id;
      trade_id = 0;
      price = level_price;
      quantity = fill_qty;
      buyer = some buyer.cl_ord_id;
      seller = some seller.cl_ord_id;
      trade_condition = md.TradeCondition.regular;
      trade_sub_type = none;
      trade_date = codes "20260522";
      transact_time = 0;
    }

-- The variables of the loop of `consume_level`, and the state of the callbacks.
pub record Consuming {ℓ} (S : Type ℓ) : Type ℓ where
  pub level : PriceLevel
  pub open level use *
  pub taker : OrderState
  pub trades : ℕ
  pub world : S

-- The variables of the loop of `match`: `consumed` is [begin, it) and `pending` is [it, end).
pub record Walking {ℓ} (S : Type ℓ) : Type ℓ where
  pub consumed : SideMap
  pub pending : SideMap
  pub taker : OrderState
  pub result : ExecutionSummary
  pub world : S

-- What `match` returns and leaves behind.
pub record Matched {ℓ} (S : Type ℓ) : Type ℓ where
  pub side_map : SideMap
  pub taker : OrderState
  pub result : ExecutionSummary
  pub world : S

abbrev pub with_leaves : OrderState → Quantity → OrderState
with_leaves order q = record order { leaves_qty = q }

-- `if (level_trades > 0) { last_traded = it->first; trades += level_trades; }`
unfoldable pub tally : ExecutionSummary → Price → ℕ → ExecutionSummary
tally result price level_trades =
    if ltb 0 level_trades
    then record { trades = result.trades + level_trades; last_traded = some price }
    else result

module _ {ℓ} {S : Type ℓ} (on_trade : Trade → S → S) (on_release : OrderNode → S → S) where
  -- One round, for the front of the FIFO and the rest of it.
  unfoldable pub fill_front : Price → Consuming S → OrderNode → List OrderNode → Consuming S
  fill_front level_price c node rest =
      let fill_qty = min c.taker.leaves_qty node.leaves_qty in
      let traded = on_trade (make_trade c.taker node.order level_price fill_qty) c.world in
      let taker = with_leaves c.taker (sub64 c.taker.leaves_qty fill_qty) in
      let maker = record node { order = with_leaves node.order (sub64 node.leaves_qty fill_qty) } in
      let total = sub64 c.total_remaining fill_qty in
      if maker.leaves_qty == 0
      then record {
        level = record { orders = rest; total_remaining = total };
        taker = taker;
        trades = suc c.trades;
        world = on_release maker traded;
      }
      else record {
        level = record { orders = maker ∷ rest; total_remaining = total };
        taker = taker;
        trades = suc c.trades;
        world = traded;
      }

  -- The loop by fuel. Each round takes an order off the level or ends the taker's quantity.
  unfoldable pub consume_loop : ℕ → Price → Consuming S → List OrderNode → Consuming S
  consume_loop zero level_price c orders = c
  consume_loop (suc fuel) level_price c [] = c
  consume_loop (suc fuel) level_price c (node ∷ rest) = elim (ltb 0 c.taker.leaves_qty) [
    | true ↦
        let c' = fill_front level_price c node rest in consume_loop fuel level_price c' c'.orders
    | false ↦ c
  ]

  unfoldable pub consume_level : PriceLevel → Price → OrderState → S → Consuming S
  consume_level l level_price taker s =
      consume_loop (suc (length l.orders)) level_price
        (record { level = l; taker = taker; trades = 0; world = s }) l.orders

  -- The loop over the levels, by recursion on [it, end).
  unfoldable pub match_loop : SideMap → SideMap → OrderState → ExecutionSummary → S → Walking S
  match_loop consumed [] taker result s = record {
    consumed = consumed;
    pending = [];
    taker = taker;
    result = result;
    world = s;
  }
  match_loop consumed (l ∷ ls) taker result s =
      let c = consume_level l.level l.price taker s in
      let l' : Entry = record l { level = c.level } in
      let result' = tally result l.price c.trades in
      let next = match_loop (consumed ++ l' ∷ []) ls c.taker result' c.world in
      if ltb 0 taker.leaves_qty && crosses taker l.price
      then (if is_empty c.orders then next else record {
        consumed = consumed;
        pending = l' ∷ ls;
        taker = c.taker;
        result = result';
        world = c.world;
      })
      else record {
        consumed = consumed;
        pending = l ∷ ls;
        taker = taker;
        result = result;
        world = s;
      }

  -- `if (result.trades > 0) side_map.erase(side_map.begin(), it);`
  unfoldable pub match : SideMap → OrderState → S → Matched S
  match side_map taker s =
      let w = match_loop [] side_map taker no_execution s in
      record {
        side_map = if ltb 0 w.result.trades then w.pending else w.consumed ++ w.pending;
        taker = w.taker;
        result = w.result;
        world = w.world;
      }
