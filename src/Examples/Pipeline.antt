-- ===== src/Examples/Pipeline.antt =====
-- A run of the pipeline from its start to the end of `stop`, and of a single loop.
use cpp_demo_build.Prelude.{
  ℕ, ◌+◌, ◌≡◌, refl, true, false, Option, List, [], ◌∷◌, ◌++◌, map, Bytes, codes, inl, inr, ◌⊎◌,
  add64, sub64, eqb,
}
use cpp_demo_build.Lab.EventLoop.{
  looping, draining, exited, assign_thread, Loop, Turn, take, notice, finish, post, stop, start,
  make_loop,
}
use cpp_demo_build.Lab.EventLoop.Order.{
  Run, Reach, fresh, next, started, posts, stops, runs, turns, exit-ran,
}
use cpp_demo_build.Lab.EventLoop.Shutdown.{Turns, none_made, turns_left, HasExited, Turns-end}
use cpp_demo_build.Lab.EventLoop.Shutdown as shutdown
use cpp_demo_build.OrderEntry.Types.{buy}
use cpp_demo_build.OrderEntry.Messages.{new_order_single}
use cpp_demo_build.OrderEntry.Session.{Decoded, decoded, send_packet, outcome}
use cpp_demo_build.Lab.Algorithm.{trim, ltrim, rtrim}
use cpp_demo_build.MarketData.Messages.{Message}
use cpp_demo_build.MatchingEngine.Types.{make_order_state}
use cpp_demo_build.MatchingEngine.Outcome.{done}
use cpp_demo_build.MatchingEngine.Book.{
  empty_book, place, place_on, place_into, best_level, best_level_of, best_bid, best_price,
}
use cpp_demo_build.MatchingEngine.Matching.{match, match_loop}
use cpp_demo_build.MatchingEngine.Engine.{
  Engine, index_find, index_emplace, books_find, books_set, emit_execution_report, top_update,
  emit_mbo_book_update, allocate_node,
}
use cpp_demo_build.MatchingEngine.Engine.Handlers.{
  check_duplicate, match_on, match_orders, report_if_executed, rest_order, rest_if, own_side_update,
  accept_order, handle_new_order_single_impl, handle_new_order_single,
}
use cpp_demo_build.MatchingEngine.Engine.Dispatch.{send}
use cpp_demo_build.Server.Pipeline.{
  Pipeline, joining_input, stopped, on_deliveries, market_data_of, polls, input_turns, processes,
  emits, processing_turns, publishes, output_turns, stops_input, stops_processing, stops_output,
  ends, starts,
}
use cpp_demo_build.Server.Pipeline as pipeline
use cpp_demo_build.Server.Pipeline.Serving.{requested, serve}
use cpp_demo_build.Server.Pipeline.Completion.{IsServable, CanStop, Reach-CanStop}
use cpp_demo_build.Server.Pipeline.Stopped.{stopped-records}
use cpp_demo_build.Examples.Fixtures.{endless_pool, petr, limit_order}
use cpp_demo_build.Examples.Engine.{with_default}

-- A thread that runs one of the two tasks that were posted, and sees that it was stopped.
abbrev after_stop : Run ℕ
after_stop = record {
  loop = record { running = false; phase = draining; task_queue = 6 ∷ [] };
  posted = 5 ∷ 6 ∷ [];
  ran = 5 ∷ [];
}

abbrev at_end : Run ℕ
at_end = record {
  loop = record { running = false; phase = draining; task_queue = [] };
  posted = 5 ∷ 6 ∷ [];
  ran = 5 ∷ 6 ∷ [];
}

abbrev at_exit : Loop ℕ
at_exit = record { running = false; phase = exited; task_queue = [] }

after_stop-Reach : Reach after_stop
unfolding start assign_thread post stop make_loop
after_stop-Reach =
    next
      (next
        (next (next (next (next fresh (started true)) (posts 5)) (posts 6))
          (runs (take (inl refl) refl)))
        stops)
      (turns (notice refl refl))

exit-ran_example : (at_end.ran ≡ at_end.posted) × (at_exit.task_queue ≡ [])
exit-ran_example =
    exit-ran (next after_stop-Reach (runs (take (inr refl) refl))) (finish refl refl) refl

abbrev stopped_loop_of : {A : Type 0} → List A → Loop A
stopped_loop_of tasks = record { running = false; phase = looping; task_queue = tasks }

abbrev stopped_loop : List ℕ → Loop ℕ
stopped_loop tasks = stopped_loop_of tasks

Turns-end_example :
    ((stopped_loop (5 ∷ 6 ∷ [])).task_queue ≡ (5 ∷ []) ++ (stopped_loop (6 ∷ [])).task_queue)
    × (turns_left (stopped_loop (5 ∷ 6 ∷ [])) ≡ 1 + turns_left (stopped_loop (6 ∷ [])))
    × (HasExited (stopped_loop (5 ∷ 6 ∷ [])) 1 (5 ∷ []) (stopped_loop (6 ∷ []))
        ⊎ ((task : Option ℕ) × (m : Loop ℕ) × Turn (stopped_loop (6 ∷ [])) task m))
Turns-end_example =
    Turns-end (stopped_loop (5 ∷ 6 ∷ [])) (refl, inl refl)
      (shutdown.runs (take (inl refl) refl) (none_made (stopped_loop (6 ∷ []))))

-- The engine with one empty book.
abbrev one_book : Engine
one_book = record {
  node_pool = [];
  books = (petr, empty_book) ∷ [];
  resting_index = [];
  next_exec_id = 1;
  next_trade_id = 1;
  emitted = [];
}

-- A decoder that reads every packet as one order.
abbrev buying : Bytes → Decoded
buying packet = decoded (new_order_single (limit_order 1 buy 100 11))

abbrev encode : Message → Bytes
encode message = codes "update"

unfoldable served_book : Engine
unfolding send handle_new_order_single handle_new_order_single_impl accept_order rest_if rest_order
    own_side_update allocate_node match_orders match_on match match_loop index_find index_emplace
    books_find books_set emit_execution_report top_update emit_mbo_book_update report_if_executed
    check_duplicate place place_on place_into make_order_state
served_book =
    with_default (send endless_pool one_book (new_order_single (limit_order 1 buy 100 11)))

abbrev gone : {A : Type 0} → Loop A
gone = record { running = false; phase = exited; task_queue = [] }

unfoldable last : Pipeline
last = record {
  input_loop = gone;
  processing_loop = gone;
  output_loop = gone;
  datagrams = codes "buy" ∷ [];
  engine = served_book;
  outbox = [];
  records = codes "update" ∷ [];
  stage = stopped;
}

-- One datagram is served and published, and the loops are stopped in their order.
last-Reach : pipeline.Reach endless_pool buying encode one_book last
unfolding last pipeline.started on_deliveries post stop market_data_of send_packet outcome trim
    ltrim rtrim served_book send handle_new_order_single handle_new_order_single_impl accept_order
    rest_if rest_order own_side_update allocate_node match_orders match_on match match_loop
    index_find index_emplace books_find books_set emit_execution_report top_update
    emit_mbo_book_update report_if_executed check_duplicate place place_on place_into
    make_order_state add64 sub64 eqb best_level best_level_of best_bid best_price
last-Reach =
    pipeline.next
      (pipeline.next
        (pipeline.next
          (pipeline.next
            (pipeline.next
              (pipeline.next
                (pipeline.next
                  (pipeline.next
                    (pipeline.next
                      (pipeline.next
                        (pipeline.next
                          (pipeline.next
                            (pipeline.next (pipeline.next starts (polls (codes "buy") refl))
                              (processes refl (take (inl refl) refl) refl))
                            (emits refl))
                          (publishes (take (inl refl) refl)))
                        (stops_input refl))
                      (input_turns (notice refl refl)))
                    (input_turns (finish refl refl)))
                  (stops_processing refl refl))
                (processing_turns refl (notice refl refl)))
              (processing_turns refl (finish refl refl)))
            (stops_output refl refl))
          (output_turns (notice refl refl)))
        (output_turns (finish refl refl)))
      (ends refl refl)

stopped-records_example :
    (produced : List Message) × (serve endless_pool one_book (requested buying last.datagrams)
      ≡ done (last.engine, produced))
    × (last.records ≡ map encode produced)
unfolding last
stopped-records_example = stopped-records endless_pool buying encode one_book last-Reach refl

-- One datagram is polled, and `stop` waits for the input loop.
abbrev waiting : Pipeline
waiting = record {
  input_loop = stopped_loop_of [];
  processing_loop = record {
    running = true;
    phase = looping;
    task_queue = new_order_single (limit_order 1 buy 100 11) ∷ [];
  };
  output_loop = record { running = true; phase = looping; task_queue = [] };
  datagrams = codes "buy" ∷ [];
  engine = one_book;
  outbox = [];
  records = [];
  stage = joining_input;
}

waiting-Reach : pipeline.Reach endless_pool buying encode one_book waiting
unfolding pipeline.started on_deliveries post stop send_packet outcome trim ltrim rtrim
waiting-Reach = pipeline.next (pipeline.next starts (polls (codes "buy") refl)) (stops_input refl)

waiting-IsServable : IsServable endless_pool buying encode waiting
unfolding serve served_book market_data_of send handle_new_order_single handle_new_order_single_impl
    accept_order rest_if rest_order own_side_update allocate_node match_orders match_on match
    match_loop index_find index_emplace books_find books_set emit_execution_report top_update
    emit_mbo_book_update report_if_executed check_duplicate place place_on place_into
    make_order_state add64 sub64 eqb best_level best_level_of best_bid best_price
waiting-IsServable = ((served_book, market_data_of served_book.emitted ++ []), refl)

Reach-CanStop_example : CanStop endless_pool buying encode waiting
Reach-CanStop_example =
    Reach-CanStop endless_pool buying encode one_book waiting waiting-Reach waiting-IsServable
