-- ===== src/MatchingEngine/Engine/Handlers.antt =====
-- src/matching_engine/src/engine.cpp: `send` and the handlers of the four requests. A handler that
-- logs a rejection and emits nothing leaves the engine as it is; log lines are not modelled.
pub mod Crossing
pub mod Rest
pub mod Accept
pub mod Kept
pub mod Keeps
use cpp_demo_build.Prelude.{
  Bool, false, not, ◌&&◌, Option, none, some, ◌==◌, ltb, if◌then◌else◌, sub64,
}
use cpp_demo_build.OrderEntry.Types.{
  ClientId, ClOrdId, Symbol, ExecType, OrdStatus, Price, Side, buy, sell, is_buy, opposite,
}
use cpp_demo_build.OrderEntry.Messages.{NewOrderSingle}
use cpp_demo_build.MarketData.Messages as mm
use cpp_demo_build.MatchingEngine.Types.{
  OrderKey, OrderState, OrderNode, key_of, make_order_state, to_market_side,
}
use cpp_demo_build.MatchingEngine.Outcome.{Outcome, done, assertion_failed, or_fault, ◌>>=◌}
use cpp_demo_build.MatchingEngine.Book.{OrderBook, place, cancel, best_bid, best_ask, best}
use cpp_demo_build.MatchingEngine.Matching.{ExecutionSummary, Matched, match}
use cpp_demo_build.MatchingEngine.Engine.{
  Pool, Engine, market_data, index_find, index_erase, index_emplace, is_some, books_find, books_set,
  emit, emit_execution_report, emit_mbo_book_update, on_trade, on_release, release_node,
  allocate_node,
}

-- The errors that `handle_new_order_single_impl` returns through its result.
pub data EngineError : Type 0 where
  duplicate_order : ClientId → ClOrdId → EngineError
  unknown_symbol : Symbol → EngineError

-- `std::optional<price> == price`
abbrev pub is_at : Option Price → Price → Bool
is_at none p = false
is_at (some q) p = q == p

unfoldable pub check_duplicate : Engine → OrderKey → Option EngineError
unfolding index_find
check_duplicate e key =
    if is_some (index_find key e.resting_index)
    then some (duplicate_order key.client_id key.cl_ord_id)
    else none

unfoldable pub match_on : Side → OrderBook → OrderState → Engine → OrderBook × Matched Engine
match_on buy book taker e =
    let m = match on_trade on_release book.asks taker e in (record book { asks = m.side_map }, m)
match_on sell book taker e =
    let m = match on_trade on_release book.bids taker e in (record book { bids = m.side_map }, m)

-- The book after `match_orders`, with what `match` returns. Callbacks act on the engine.
unfoldable pub match_orders : OrderBook → OrderState → Engine → OrderBook × Matched Engine
unfolding match_on
match_orders book taker e = match_on taker.side book taker e

-- The emissions after a match that removed liquidity.
unfoldable pub report_execution : Engine → NewOrderSingle → OrderState → Price → Engine
unfolding emit_execution_report to_market_side
report_execution e request order last_traded =
    let filled_qty = sub64 request.order_qty order.leaves_qty in
    let e1 = emit e (
      market_data (
        mm.Message.execution_summary (record {
          security_id = request.security_id;
          aggressor_side = to_market_side request.side;
          last_px = last_traded;
          fill_qty = filled_qty;
          traded_hidden_qty = none;
          cancel_qty = none;
          aggressor_time = 0;
          transact_time = 0;
        }))) in
    emit_execution_report e1 order ExecType.trade
      (if order.leaves_qty == 0 then OrdStatus.filled else OrdStatus.partially_filled) none
      (some filled_qty) (some last_traded)

-- `if (removed_liquidity && summary.last_traded.has_value())`
unfoldable pub report_if_executed : Engine → NewOrderSingle → OrderState → ExecutionSummary → Engine
report_if_executed e request order summary =
    if ltb 0 summary.trades
    then elim summary.last_traded [
      | none ↦ e
      | some last_traded ↦ report_execution e request order last_traded
    ]
    else e

-- A write of the book of a symbol into the engine.
abbrev pub set_book : Engine → Symbol → OrderBook → Engine
set_book e s b = record e { books = books_set s b e.books }

-- Takes a resting order out of its book, the index and the pool.
unfoldable pub remove_resting : Engine → OrderKey → OrderNode → Outcome (OrderBook × Engine)
remove_resting e key node = do
  book ← or_fault (books_find node.symbol e.books) assertion_failed
  book' ← cancel book node
  let e1 = set_book e node.symbol book'
  let e2 = record e1 { resting_index = index_erase key e1.resting_index }
  done (book', release_node e2 node)

-- `book.best(resting.side) == resting.price`, before the order is removed.
unfoldable pub affects_top : Engine → OrderState → Bool
affects_top e resting = elim (books_find resting.symbol e.books) [
  | none ↦ false
  | some book ↦ is_at (best book resting.side) resting.price
]

-- `own_best == request.price`
unfoldable pub own_side_update : Engine → OrderBook → NewOrderSingle → Engine
own_side_update e book request =
    let own_best = if is_buy request.side then best_bid book else best_ask book in
    if is_at own_best request.price
    then emit_mbo_book_update e book request.side request.security_id
    else e

module _ (pool : Pool) where
  -- Rests the residual: a node in the pool, linked in the book, with its identity entry.
  unfoldable pub rest_order :
      Engine → Symbol → OrderBook → OrderState → Outcome (OrderBook × Engine)
  rest_order e symbol book order = do
    (node, e1) ← allocate_node pool e order
    let book' = place book node
    let e2 = set_book e1 symbol book'
    done (
      book',
      record e2 { resting_index = index_emplace (key_of order) node.address e2.resting_index },
    )

  unfoldable pub rest_if :
      Bool → Engine → Symbol → OrderBook → OrderState → Outcome (OrderBook × Engine)
  rest_if should_place_order e symbol book order =
      if should_place_order then rest_order e symbol book order else done (book, e)

  -- The part of `handle_new_order_single_impl` after its two checks.
  unfoldable pub accept_order : Engine → NewOrderSingle → OrderBook → Outcome Engine
  accept_order e request book =
      let order = make_order_state request in
      let e1 =
        emit_execution_report e order ExecType.new_order OrdStatus.new_order none none none in
      let (book', m) = match_orders book order e1 in
      let removed_liquidity = ltb 0 m.result.trades in
      let is_market = m.taker.price == 0 in
      let should_place_order = ltb 0 m.taker.leaves_qty && not is_market in
      let e2 = set_book m.world request.symbol book' in
      let e3 = report_if_executed e2 request m.taker m.result in
      do
        (book'', e4) ← rest_if should_place_order e3 request.symbol book' m.taker
        let e5 =
            if removed_liquidity
            then emit_mbo_book_update e4 book'' (opposite request.side) request.security_id
            else e4
        done (if should_place_order then own_side_update e5 book'' request else e5)

  unfoldable pub handle_new_order_single_impl :
      Engine → NewOrderSingle → Outcome (Option EngineError × Engine)
  handle_new_order_single_impl e request =
      elim (check_duplicate e
        (record { client_id = request.client_id; cl_ord_id = request.cl_ord_id })) [
          | some error ↦ done (some error, e)
          | none ↦ elim (books_find request.symbol e.books) [
            | none ↦ done (some (unknown_symbol request.symbol), e)
            | some book ↦ (do e' ← accept_order e request book; done (none, e'))
          ]
        ]

  -- Both errors end in a log line.
  unfoldable pub handle_new_order_single : Engine → NewOrderSingle → Outcome Engine
  handle_new_order_single e request = do
    (error, e') ← handle_new_order_single_impl e request
    done e'
