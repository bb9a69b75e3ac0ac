-- ===== src/MatchingEngine/Engine/Handlers/Keeps.antt =====
-- What every step of the engine keeps, a new order and the removal of a resting one keep.
use cpp_demo_build.Prelude.{
  Bool, true, false, not, ◌&&◌, ◌==◌, Option, none, some, ltb, if◌then◌else◌, Option-cases, inl,
  inr,
}
use cpp_demo_build.OrderEntry.Types.{Symbol, ExecType, OrdStatus, Price, Side, buy, sell, opposite}
use cpp_demo_build.OrderEntry.Messages.{NewOrderSingle}
use cpp_demo_build.MatchingEngine.Types.{OrderKey, OrderState, OrderNode, key_of, make_order_state}
use cpp_demo_build.MatchingEngine.Outcome.{Outcome, done, fault, IfDone, IfDone-bind, ◌>>=◌}
use cpp_demo_build.MatchingEngine.Book.{OrderBook, SideMap, cancel}
use cpp_demo_build.MatchingEngine.Matching.{ExecutionSummary, match}
use cpp_demo_build.MatchingEngine.Matching.World.{match-world}
use cpp_demo_build.MatchingEngine.Engine.{
  Pool, Engine, index_erase, books_find, allocate_node, emit_execution_report, emit_mbo_book_update,
  release_node, on_trade, on_release,
}
use cpp_demo_build.MatchingEngine.Engine.Handlers.{
  EngineError, unknown_symbol, match_on, match_orders, report_execution, report_if_executed,
  set_book, remove_resting, own_side_update, rest_order, rest_if, accept_order,
  handle_new_order_single_impl, handle_new_order_single,
}
use cpp_demo_build.MatchingEngine.Engine.Handlers.Kept.{IsKept}

abbrev pub request_key : NewOrderSingle → OrderKey
request_key request = record { client_id = request.client_id; cl_ord_id = request.cl_ord_id }

module _ {P : Engine → Type 0} {Q : OrderKey → Type 0} (kept : IsKept P Q) where
  abbrev pub Second : {A : Type 0} → A × Engine → Type 0
  Second r = P r.1

  abbrev Matches : OrderState → Engine → Type 0
  Matches taker e = Q (key_of taker) × P e

  matched :
      (side_map : SideMap) (taker : OrderState) (e : Engine)
      → Matches taker e
      → (let m = match on_trade on_release side_map taker e in Matches m.taker m.world)
  matched side_map taker e h =
      match-world on_trade on_release Matches (λ o q s k. k) (λ o t s k. (k.0, kept.trade t s k.1))
        (λ o n s k. (k.0, kept.release n s k.1)) side_map taker e h

  pub if_keeps : (b : Bool) (e f : Engine) → P e → P f → P (if b then e else f)
  if_keeps true e f h k = h
  if_keeps false e f h k = k

  match_on_keeps :
      (s : Side) (book : OrderBook) (taker : OrderState) (e : Engine)
      → Matches taker e
      → (let m = (match_on s book taker e).1 in Matches m.taker m.world)
  unfolding match_on
  match_on_keeps buy book taker e h = matched book.asks taker e h
  match_on_keeps sell book taker e h = matched book.bids taker e h

  match_orders_keeps :
      (book : OrderBook) (taker : OrderState) (e : Engine)
      → Matches taker e
      → (let m = (match_orders book taker e).1 in Matches m.taker m.world)
  unfolding match_orders
  match_orders_keeps book taker e h = match_on_keeps taker.side book taker e h

  report_if_executed_keeps :
      (e : Engine) (request : NewOrderSingle) (order : OrderState) (s : ExecutionSummary)
      → P e
      → P (report_if_executed e request order s)
  unfolding report_if_executed report_execution
  report_if_executed_keeps e request order s h =
      if_keeps (ltb 0 s.trades) _ e (reported s.last_traded) h
    where
      reported :
          (o : Option Price)
          → P (elim o [
            | none ↦ e
            | some last_traded ↦ report_execution e request order last_traded
          ])
      reported none = h
      reported (some p) = kept.report _ order _ _ _ _ _ (kept.summary e _ h)

  own_side_update_keeps :
      (e : Engine) (book : OrderBook) (request : NewOrderSingle)
      → P e
      → P (own_side_update e book request)
  unfolding own_side_update
  own_side_update_keeps e book request h = if_keeps _ _ e (kept.update e book _ _ h) h

  pub remove_resting_keeps :
      (e : Engine) (key : OrderKey) (node : OrderNode)
      → P e
      → IfDone Second (remove_resting e key node)
  unfolding remove_resting release_node
  remove_resting_keeps e key node h = elim (Option-cases (books_find node.symbol e.books)) [
    | inl unknown ↦ rw unknown tt
    | inr (book, found) ↦ rw found (removed (cancel book node))
  ]
    where
      removed :
          (o : Outcome OrderBook)
          → IfDone Second (
              o >>= λ book'.
              let e1 = set_book e node.symbol book' in
              done (
                book',
                release_node (record e1 { resting_index = index_erase key e1.resting_index }) node,
              ))
      removed (done book') = kept.erase _ key _ (kept.book e _ h)
      removed (fault x) = tt

  module _ (pool : Pool) where
    rest_order_keeps :
        (e : Engine) (symbol : Symbol) (book : OrderBook) (order : OrderState)
        → Q (key_of order)
        → P e
        → IfDone Second (rest_order pool e symbol book order)
    unfolding rest_order allocate_node
    rest_order_keeps e symbol book order q h = elim (Option-cases (pool.malloc e.node_pool)) [
      | inl full ↦ rw full tt
      | inr (a, got) ↦ rw got (kept.rest e (key_of order) a _ _ q h)
    ]

    rest_if_keeps :
        (t : Bool) (e : Engine) (symbol : Symbol) (book : OrderBook) (order : OrderState)
        → Q (key_of order)
        → P e
        → IfDone Second (rest_if pool t e symbol book order)
    unfolding rest_if
    rest_if_keeps true e symbol book order q h = rest_order_keeps e symbol book order q h
    rest_if_keeps false e symbol book order q h = h

    accept_order_keeps :
        (e : Engine) (request : NewOrderSingle) (book : OrderBook)
        → Q (request_key request)
        → P e
        → IfDone P (accept_order pool e request book)
    unfolding accept_order make_order_state
    accept_order_keeps e request book q h =
        let order = make_order_state request in
        let e1 =
          emit_execution_report e order ExecType.new_order OrdStatus.new_order none none none in
        let m = match_orders book order e1 in
        let k1 = match_orders_keeps book order e1 (q, kept.report e order _ _ _ _ _ h) in
        let e2 = set_book m.1.world request.symbol m.0 in
        let k2 : P e2 = kept.book m.1.world _ k1.1 in
        let e3 = report_if_executed e2 request m.1.taker m.1.result in
        let k3 = report_if_executed_keeps e2 request m.1.taker m.1.result k2 in
        IfDone-bind Second P
          (rest_if pool (ltb 0 m.1.taker.leaves_qty && not (m.1.taker.price == 0)) e3 request.symbol
            m.0 m.1.taker)
          _ (rest_if_keeps _ e3 request.symbol m.0 m.1.taker k1.0 k3)
          (λ r k.
            let e5 =
              if ltb 0 m.1.result.trades
              then emit_mbo_book_update r.1 r.0 (opposite request.side) request.security_id
              else r.1 in
            let k5 : P e5 =
              if_keeps (ltb 0 m.1.result.trades) _ r.1 (kept.update r.1 r.0 _ _ k) k in
            if_keeps (ltb 0 m.1.taker.leaves_qty && not (m.1.taker.price == 0)) _ e5
              (own_side_update_keeps e5 r.0 request k5) k5)

    pub handle_new_order_single_impl_keeps :
        (e : Engine) (request : NewOrderSingle)
        → Q (request_key request)
        → P e
        → IfDone
            (λ (r : Option EngineError × Engine). P r.1)
            (handle_new_order_single_impl pool e request)
    unfolding handle_new_order_single_impl
    handle_new_order_single_impl_keeps e request q h = checked _
      where
        opened :
            (b : Option OrderBook)
            → IfDone
                (λ (r : Option EngineError × Engine). P r.1)
                (elim b [
                  | none ↦ done (some (unknown_symbol request.symbol), e)
                  | some book ↦ (do e' ← accept_order pool e request book; done (none, e'))
                ])
        opened none = h
        opened (some book) =
            IfDone-bind P (λ (r : Option EngineError × Engine). P r.1)
              (accept_order pool e request book) _ (accept_order_keeps e request book q h)
              (λ x k. k)

        checked :
            (o : Option EngineError)
            → IfDone
                (λ (r : Option EngineError × Engine). P r.1)
                (elim o [
                  | some error ↦ done (some error, e)
                  | none ↦ elim (books_find request.symbol e.books) [
                    | none ↦ done (some (unknown_symbol request.symbol), e)
                    | some book ↦ (do e' ← accept_order pool e request book; done (none, e'))
                  ]
                ])
        checked (some error) = h
        checked none = opened (books_find request.symbol e.books)

    pub handle_new_order_single_keeps :
        (e : Engine) (request : NewOrderSingle)
        → Q (request_key request)
        → P e
        → IfDone P (handle_new_order_single pool e request)
    unfolding handle_new_order_single
    handle_new_order_single_keeps e request q h =
        IfDone-bind (λ (r : Option EngineError × Engine). P r.1) P
          (handle_new_order_single_impl pool e request) _
          (handle_new_order_single_impl_keeps e request q h) (λ r k. k)
