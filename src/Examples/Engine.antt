-- ===== src/Examples/Engine.antt =====
-- Runs of the engine, and its theorems at a book with a resting order.
use cpp_demo_build.Prelude.{
  ◌<◌, ◌≡◌, refl, Option, none, some, List, [], ◌∷◌, arith, All, length, subst, add64, sub64, eqb,
}
use cpp_demo_build.OrderEntry.Types.{buy, sell}
use cpp_demo_build.OrderEntry.Messages.{
  CancelOrder, ReplaceOrder, new_order_single, cancel_order, replace_order, flush, Request,
}
use cpp_demo_build.MatchingEngine.Types.{make_order_state}
use cpp_demo_build.MatchingEngine.Outcome.{Outcome, done, fault, Ends}
use cpp_demo_build.MatchingEngine.Book.{
  OrderBook, empty_book, total_at_best_ask, total_at_best, best_bid, best_ask, place, place_into,
  place_on, best_price,
}
use cpp_demo_build.MatchingEngine.Matching.{
  match, match_loop, consume_level, consume_loop, fill_front, tally, crosses, reaches, make_trade,
}
use cpp_demo_build.MatchingEngine.Engine.{
  Engine, index_find, index_erase, index_emplace, books_find, books_set, open_books,
  emit_execution_report, top_update, emit_mbo_book_update, on_trade, pool_free, release_node,
  on_release, allocate_node, reserve_node_pool, make_engine,
}
use cpp_demo_build.MatchingEngine.Engine.Handlers.{
  check_duplicate, match_on, match_orders, report_execution, report_if_executed, rest_order,
  rest_if, own_side_update, accept_order, handle_new_order_single_impl, handle_new_order_single,
}
use cpp_demo_build.MatchingEngine.Engine.Dispatch.{handle_flush, send, send_all}
use cpp_demo_build.MatchingEngine.Engine.Dispatch.Sound.{IsWire}
use cpp_demo_build.MatchingEngine.Engine.{emit_cancel_reject}
use cpp_demo_build.MatchingEngine.Engine.Dispatch.{orig_key, new_key, handle_cancel_order}
use cpp_demo_build.MatchingEngine.Engine.Dispatch.Replaced.{replaced-handle_cancel_order}
use cpp_demo_build.OrderEntry.Types.{OrdType, TimeInForce, RejectReason}
use cpp_demo_build.MatchingEngine.Types.{OrderNode}
use cpp_demo_build.Prelude.{codes}
use cpp_demo_build.MatchingEngine.Engine.Dispatch.Cancelled.{
  Gone, handle_cancel_order-Gone, handle_cancel_order_again,
}
use cpp_demo_build.MatchingEngine.Engine.Dispatch.Reachable.{
  send-Ends, run, run-Ends, run-uncrossed,
}
use cpp_demo_build.MatchingEngine.Engine.Invariant.{IsEngine}
use cpp_demo_build.MatchingEngine.Engine.Numbered.{Numbered}
use cpp_demo_build.MatchingEngine.Engine.Dispatch.Numbered.{run-Numbered}
use cpp_demo_build.MatchingEngine.Engine.Dispatch.Flush.{handle_flush_lem, emptied}
use cpp_demo_build.Examples.Fixtures.{endless_pool, petr, limit_order}

-- A seller rests, a buyer takes a part of it, and another buyer rests below.
abbrev session : List Request
session =
    new_order_single (limit_order 1 sell 100 11)
    ∷ new_order_single (limit_order 2 buy 30 11)
    ∷ new_order_single (limit_order 3 buy 50 10)
    ∷ []

abbrev pub with_default : Outcome Engine → Engine
with_default (done e) = e
with_default (fault f) = record {
  node_pool = [];
  books = [];
  resting_index = [];
  next_exec_id = 0;
  next_trade_id = 0;
  emitted = [];
}

unfoldable final : Engine
unfolding send_all send handle_new_order_single handle_new_order_single_impl accept_order rest_if
    rest_order own_side_update allocate_node match_orders match_on match match_loop consume_level
    consume_loop fill_front tally crosses reaches make_trade on_trade on_release release_node
    pool_free index_find index_erase index_emplace books_find books_set open_books
    emit_execution_report top_update emit_mbo_book_update report_if_executed report_execution
    check_duplicate place place_on place_into reserve_node_pool make_engine make_order_state
final = with_default (run endless_pool (petr ∷ []) 8 session)

abbrev book_or_empty : Option OrderBook → OrderBook
book_or_empty none = empty_book
book_or_empty (some b) = b

unfoldable final_book : OrderBook
unfolding books_find
final_book = book_or_empty (books_find petr final.books)

-- The run ends, with 70 of the first order left at 11 and the third order at 10.
session_ends :
    (run endless_pool (petr ∷ []) 8 session ≡ done final)
    × (books_find petr final.books ≡ some final_book)
    × (best_bid final_book ≡ some 10)
    × (best_ask final_book ≡ some 11)
    × (total_at_best_ask final_book ≡ some 70)
    × (length final.emitted ≡ 9)
    × (final.node_pool ≡ 2 ∷ 1 ∷ [])
unfolding final final_book best_bid best_ask best_price total_at_best_ask total_at_best add64 sub64
    eqb send_all send handle_new_order_single handle_new_order_single_impl accept_order rest_if
    rest_order own_side_update allocate_node match_orders match_on match match_loop consume_level
    consume_loop fill_front tally crosses reaches make_trade on_trade on_release release_node
    pool_free index_find index_erase index_emplace books_find books_set open_books
    emit_execution_report top_update emit_mbo_book_update report_if_executed report_execution
    check_duplicate place place_on place_into reserve_node_pool make_engine make_order_state
session_ends = (refl, refl, refl, refl, refl, refl, refl)

session-IsWire : All IsWire session
session-IsWire = (omega arith, (omega arith, (omega arith, tt)))

final-IsEngine : IsEngine final
final-IsEngine =
    subst (Ends IsEngine) session_ends.0
      (run-Ends endless_pool (petr ∷ []) 8 session session-IsWire)

abbrev cancel_ask : CancelOrder
cancel_ask = record { client_id = 7; cl_ord_id = 9; orig_cl_ord_id = 1 }

send-Ends_example : Ends IsEngine (send endless_pool final (cancel_order cancel_ask))
send-Ends_example = send-Ends endless_pool final (cancel_order cancel_ask) final-IsEngine tt

run-Numbered_example : Ends Numbered (run endless_pool (petr ∷ []) 8 session)
run-Numbered_example = run-Numbered endless_pool (petr ∷ []) 8 session session-IsWire

run-uncrossed_example : 10 < 11
run-uncrossed_example =
    run-uncrossed endless_pool (petr ∷ []) 8 session final petr final_book 10 11 session-IsWire
      session_ends.0 session_ends.1 session_ends.2 session_ends.3

handle_flush_lem_example :
    handle_flush final
    ≡ done (record final { books = emptied final.books; resting_index = []; node_pool = [] })
handle_flush_lem_example = handle_flush_lem final final-IsEngine

final_indexes : index_find (orig_key cancel_ask) final.resting_index ≡ some 1
unfolding final add64 sub64 eqb best_bid best_ask best_price send_all send handle_new_order_single
    handle_new_order_single_impl accept_order rest_if rest_order own_side_update allocate_node
    match_orders match_on match match_loop consume_level consume_loop fill_front tally crosses
    reaches make_trade on_trade on_release release_node pool_free index_find index_erase
    index_emplace books_find books_set open_books emit_execution_report top_update
    emit_mbo_book_update report_if_executed report_execution check_duplicate place place_on
    place_into reserve_node_pool make_engine make_order_state
final_indexes = refl

abbrev ask_again : ReplaceOrder
ask_again = record {
  client_id = 7;
  cl_ord_id = 9;
  orig_cl_ord_id = 1;
  security_id = 1;
  symbol = petr;
  security_exchange = codes "BVMF";
  side = sell;
  ord_type = OrdType.limit;
  time_in_force = TimeInForce.day;
  order_qty = 40;
  price = 12;
}

final_lacks : index_find (new_key ask_again) final.resting_index ≡ none
unfolding final add64 sub64 eqb best_bid best_ask best_price send_all send handle_new_order_single
    handle_new_order_single_impl accept_order rest_if rest_order own_side_update allocate_node
    match_orders match_on match match_loop consume_level consume_loop fill_front tally crosses
    reaches make_trade on_trade on_release release_node pool_free index_find index_erase
    index_emplace books_find books_set open_books emit_execution_report top_update
    emit_mbo_book_update report_if_executed report_execution check_duplicate place place_on
    place_into reserve_node_pool make_engine make_order_state
final_lacks = refl

-- Another order of the client, and a flush.
abbrev later : List Request
later = new_order_single (limit_order 4 sell 20 13) ∷ flush ∷ []

replaced-handle_cancel_order_example :
    Ends
      (λ (e' : Engine).
        handle_cancel_order e' cancel_ask
        ≡ done
            (emit_cancel_reject e' cancel_ask RejectReason.unknown_order (codes "unknown order")))
      (send_all endless_pool final (replace_order ask_again ∷ later))
replaced-handle_cancel_order_example =
    replaced-handle_cancel_order endless_pool final ask_again later cancel_ask final-IsEngine
      (omega arith, (omega arith, (tt, tt))) final_lacks (refl, (tt, tt)) refl

handle_cancel_order-Gone_example :
    (n : OrderNode) × (e' : Engine) × (handle_cancel_order final cancel_ask ≡ done e')
    × Gone cancel_ask final n e'
handle_cancel_order-Gone_example =
    handle_cancel_order-Gone final cancel_ask 1 final-IsEngine final_indexes

abbrev returned :
    (n : OrderNode) × (e' : Engine) × (handle_cancel_order final cancel_ask ≡ done e')
    × Gone cancel_ask final n e'
returned = handle_cancel_order-Gone final cancel_ask 1 final-IsEngine final_indexes

handle_cancel_order_again_example :
    handle_cancel_order returned.1 cancel_ask
    ≡ done (
        emit_cancel_reject returned.1 cancel_ask RejectReason.unknown_order (codes "unknown order"))
handle_cancel_order_again_example =
    handle_cancel_order_again final returned.1 cancel_ask final-IsEngine returned.2
