-- ===== src/MatchingEngine/Engine/Handlers/Accept.antt =====
-- `handle(new_order_single)` keeps the engine sound and ends only for want of memory.
use cpp_demo_build.Prelude.{
  ◌<◌, ◌≡◌, true, not, ◌&&◌, none, some, Option, ◌++◌, arith, ltb, ◌==◌, if◌then◌else◌, sym, subst,
  ap, ◌∙◌, Option-cases, inl, inr, u64_mod,
}
use cpp_demo_build.OrderEntry.Types.{ExecType, OrdStatus, opposite}
use cpp_demo_build.OrderEntry.Messages.{NewOrderSingle}
use cpp_demo_build.MatchingEngine.Types.{OrderState, key_of, make_order_state}
use cpp_demo_build.MatchingEngine.Outcome.{Ends, Ends-bind}
use cpp_demo_build.MatchingEngine.Book.{OrderBook}
use cpp_demo_build.MatchingEngine.Book.Invariant.{book_nodes}
use cpp_demo_build.MatchingEngine.Book.Sound.{Fits}
use cpp_demo_build.MatchingEngine.Matching.{Matched}
use cpp_demo_build.MatchingEngine.Engine.{
  Pool, Engine, index_find, books_find, emit_execution_report, emit_mbo_book_update,
}
use cpp_demo_build.MatchingEngine.Engine.Registry.{books_find-IsBook}
use cpp_demo_build.MatchingEngine.Engine.Invariant.{
  IsEngine, SameState, SameState-IsEngine, SameState-Follows, emit_execution_report-SameState,
  emit_mbo_book_update-SameState, report_if_executed-SameState, if-IsEngine, others, Follows-find,
  set_book-IsEngine, books_find-set,
}
use cpp_demo_build.MatchingEngine.Engine.Handlers.Rest.{MayRest, rest_if-Ends}
use cpp_demo_build.MatchingEngine.Engine.Handlers.Crossing.{Crossed, match_orders-Crossed}
use cpp_demo_build.MatchingEngine.Engine.Handlers.{
  EngineError, check_duplicate, match_orders, report_if_executed, set_book, rest_if,
  own_side_update, accept_order, handle_new_order_single_impl, handle_new_order_single,
}

module _ (pool : Pool) where
  own_side_update-IsEngine :
      (e : Engine) (book : OrderBook) (request : NewOrderSingle)
      → IsEngine e
      → IsEngine (own_side_update e book request)
  unfolding own_side_update
  own_side_update-IsEngine e book request h =
      if-IsEngine _ _ e
        (SameState-IsEngine e _
          (emit_mbo_book_update-SameState e book request.side request.security_id) h)
        h

  module _ (e : Engine) (request : NewOrderSingle) (book : OrderBook) (h : IsEngine e)
      (found : books_find request.symbol e.books ≡ some book)
      (new_key : index_find (key_of (make_order_state request)) e.resting_index ≡ none)
      (bounded : request.order_qty < u64_mod) where
    abbrev order : OrderState
    order = make_order_state request

    abbrev e1 : Engine
    e1 = emit_execution_report e order ExecType.new_order OrdStatus.new_order none none none

    same1 : SameState e e1
    same1 =
        emit_execution_report-SameState e order ExecType.new_order OrdStatus.new_order none none
          none

    abbrev matched : OrderBook × Matched Engine
    matched = match_orders book order e1

    crossed : Crossed request.symbol (others request.symbol e) (key_of order) order e1 matched
    unfolding make_order_state
    crossed =
        match_orders-Crossed request.symbol (others request.symbol e) order e1 book
          (books_find-IsBook request.symbol e.books book h.sound found) bounded
          (SameState-Follows e e1 (book_nodes book ++ others request.symbol e) same1
            (Follows-find request.symbol e book h found))
          (key_of order)
          (subst (λ i. index_find (key_of order) i ≡ none) (sym same1.same_index) new_key)

    abbrev e2 : Engine
    e2 = set_book matched.1.world request.symbol matched.0

    world_books : matched.1.world.books ≡ e.books
    world_books = crossed.books ∙ same1.same_books

    e2-IsEngine : IsEngine e2
    e2-IsEngine =
        set_book-IsEngine request.symbol e matched.1.world book matched.0 h found world_books
          crossed.sound crossed.follows

    abbrev e3 : Engine
    e3 = report_if_executed e2 request matched.1.taker matched.1.result

    same3 : SameState e2 e3
    same3 = report_if_executed-SameState e2 request matched.1.taker matched.1.result

    e3-found : books_find request.symbol e3.books ≡ some matched.0
    e3-found =
        subst (λ b. books_find request.symbol b ≡ some matched.0) (sym same3.same_books)
          (books_find-set request.symbol book matched.0 matched.1.world.books
            (subst (λ b. books_find request.symbol b ≡ some book) (sym world_books) found))

    residual :
        (ltb 0 matched.1.taker.leaves_qty && not (matched.1.taker.price == 0)) ≡ true
        → MayRest e3 request.symbol matched.0 matched.1.taker
    unfolding make_order_state
    residual t = record {
      of_symbol = ap OrderState.symbol crossed.terms;
      priced = priced;
      positive = positive;
      within = omega (arith, crossed.fewer, ap OrderState.order_qty crossed.terms);
      bounded = omega (arith, bounded, ap OrderState.order_qty crossed.terms);
      unseen =
          subst (λ i. index_find (key_of matched.1.taker) i ≡ none) (sym same3.same_index)
            (subst (λ k. index_find k matched.1.world.resting_index ≡ none)
              (sym (ap key_of crossed.terms)) crossed.unseen);
      fits =
          subst (λ (o : OrderState). Fits o.side o.price matched.0) (sym crossed.terms)
            (crossed.fits positive (omega (arith, priced, ap OrderState.price crossed.terms)));
    }
      where
        positive : 0 < matched.1.taker.leaves_qty
        positive = ground arith

        priced : 0 < matched.1.taker.price
        priced = ground arith

    accept_order-Ends : Ends IsEngine (accept_order pool e request book)
    unfolding accept_order
    accept_order-Ends =
        Ends-bind (λ (r : OrderBook × Engine). IsEngine r.1) IsEngine
          (rest_if pool (ltb 0 matched.1.taker.leaves_qty && not (matched.1.taker.price == 0)) e3
            request.symbol matched.0 matched.1.taker)
          _
          (rest_if-Ends pool _ e3 request.symbol matched.0 matched.1.taker
            (SameState-IsEngine e2 e3 same3 e2-IsEngine) e3-found residual)
          (λ r k.
            let removed = ltb 0 matched.1.result.trades in
            let e5 =
              if removed
              then emit_mbo_book_update r.1 r.0 (opposite request.side) request.security_id
              else r.1 in
            let k5 =
              if-IsEngine removed _ r.1
                (SameState-IsEngine r.1 _
                  (emit_mbo_book_update-SameState r.1 r.0 (opposite request.side)
                    request.security_id)
                  k)
                k in
            if-IsEngine _ _ e5 (own_side_update-IsEngine e5 r.0 request k5) k5)

  -- With its two rejections, which change nothing.
  pub handle_new_order_single_impl-Ends :
      (e : Engine) (request : NewOrderSingle)
      → IsEngine e
      → request.order_qty < u64_mod
      → Ends
          (λ (r : Option EngineError × Engine). IsEngine r.1)
          (handle_new_order_single_impl pool e request)
  unfolding handle_new_order_single_impl check_duplicate make_order_state
  handle_new_order_single_impl-Ends e request h bounded =
      elim (Option-cases (index_find (key_of (make_order_state request)) e.resting_index)) [
        | inr (a, dup) ↦ rw (dup, handle_new_order_single_impl) h
        | inl new_key ↦ elim (Option-cases (books_find request.symbol e.books)) [
          | inl unknown ↦ rw (new_key, unknown, handle_new_order_single_impl) h
          | inr (book, found) ↦
              rw (new_key, found, handle_new_order_single_impl)
                (Ends-bind IsEngine (λ (r : Option EngineError × Engine). IsEngine r.1)
                  (accept_order pool e request book) _
                  (accept_order-Ends e request book h found new_key bounded) (λ e' k. k))
        ]
      ]

  pub handle_new_order_single-Ends :
      (e : Engine) (request : NewOrderSingle)
      → IsEngine e
      → request.order_qty < u64_mod
      → Ends IsEngine (handle_new_order_single pool e request)
  unfolding handle_new_order_single
  handle_new_order_single-Ends e request h bounded =
      Ends-bind (λ (r : Option EngineError × Engine). IsEngine r.1) IsEngine
        (handle_new_order_single_impl pool e request) _
        (handle_new_order_single_impl-Ends e request h bounded) (λ r k. k)
