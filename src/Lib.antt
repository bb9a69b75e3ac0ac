-- ===== src/Lib.antt =====
-- matching-engine-lab: a limit order book matching engine that takes order-entry requests, matches
-- them by price and time, and emits order-entry reports and market data; with the normalized order
-- routing messages, their FIX shape and a FIX codec for them. The program is under src/.
--
-- Parts and files:
--   Prelude             shared names: native numbers, Boolean tests, words of 64 bits, bags, results.
--   OrderEntry          src/order_entry/order_entry/{types,messages}.hpp, and the session below.
--   OrderEntry.JsonDecoder
--                       src/order_entry/src/json_decoder.cpp, over the document library of Lab.Json.
--   OrderEntry.Runtime  src/order_entry/src/runtime/session.cpp, the composer of receiver, decoder and
--                       session; Config is session_config.hpp with its JSON.
--   OrderClient         src/order_client: the JSON encoder, the UDP sender and the client that joins them;
--                       Client.Delivery joins them with the decoder and the session of the server.
--   MarketData          src/market_data/market_data/{types,messages}.hpp and src/json_encoder.cpp.
--   MatchingEngine      src/matching_engine:
--     Types, Outcome      keys, orders, nodes; how a call can end.
--     Book                order_book.hpp: place, cancel and the accessors; below it the soundness of a
--                         side and of a book, and the proofs that place and cancel keep it.
--     Matching            matching.hpp: match and consume_level with the two callbacks; Sweep is the
--                         specification, Refine the proof that match implements it, Fills what the
--                         trades add up to.
--     Engine              engine.hpp and engine.cpp: the state, the pool, the index, the emissions;
--                         Handlers is handle(new_order_single), Dispatch the other handlers and send.
--                         Engine.Invariant says what a sound engine is: every book is sound and
--                         uncrossed, no symbol has two books, and the identity index and the node pool
--                         hold exactly the linked nodes, each key and each slot once. Engine.Numbered
--                         is about the identities of reports and trades, Dispatch.Replaced about the
--                         original identity of a replace. Both use Handlers.Kept, the interface of a
--                         predicate that the small steps of the engine keep; Handlers.Keeps and
--                         Dispatch.Keeps take it to the handlers and to send.
--   OrderEntry.Session  src/order_entry/src/session.cpp, with the decoder as a parameter.
--   Mor, Morfix         src/mor and src/morfix: messages and conversions, one function per overload;
--                       Morfix.Session what a FIX session remembers.
--   Mmd, MmdJson        src/mmd and src/mmd_json: normalized market data, conversions both ways, JSON.
--   Server.Pipeline     src/server/src/application.cpp: the three threads and `stop` as a step relation
--                       over the loops of Lab.EventLoop, the session, the engine and the sink; Serving is
--                       what they compute in sequence, Guards and Threads which thread is still at
--                       work; Stopped and Completion are about the end of `stop`.
--   Server.Application  the same file: `start` with every branch that fails, `stop` and `run`, as functions
--                       on the state of the application; First and Restart are about the first start
--                       and the starts after it.
--   Ospec               src/ospec: field numbers and venue codes.
--   Lab                 src/lab/lab: event_loop.hpp (the turns of the consumer thread as a relation; Order,
--                       Shutdown, and Config for its JSON), json.hpp, error_code.hpp, charconv.hpp, the
--                       trimming of algorithm.hpp, the construction and views of fixed_string.hpp; and the
--                       two receivers of src/lab/libs/network.
--   QuickfixFix         src/quickfix_fix: message::set and message::get, the text codec, and the in-memory
--                       session with its pair.
--   MorfixQuickfix      src/morfix_quickfix/src/codecs.cpp: field helpers, decoders, encoders, the two
--                       ends; Codecs.RoundTrip joins them.
--   Examples            concrete inputs: the theorems applied, and runs of the code.
--
-- How the state is modelled. A strong type over std::uint64_t is a number, and its operators wrap
-- around at 2 ^ 64 (add64, sub64). Texts and fixed strings are lists of bytes. A level of a side is an
-- entry of a sorted list. A node of the pool carries its address and stands in the FIFO of its level,
-- which is the intrusive list; the index maps a key to an address, and a read through it finds the
-- linked node with that address. A read that finds none is the fault `dangling`, a failed LAB_ASSERT
-- is `assertion_failed`, the front() of an empty list `front_of_empty`, and the exception of
-- allocate_node `bad_alloc`. Callbacks and emissions append to the list `emitted` of the engine. An
-- unordered map is a list in some order; no statement depends on that order.
--
-- Not under src/ and therefore parameters: boost::pool is the record Pool (malloc hands out a slot that
-- is not in use, or none), nlohmann::json the record Json (members are found by name, what is written as
-- ASCII is parsed back, a failing access throws; JsonItems adds that items() lists the names of
-- an object), Boost.Asio what it answers in each call of the sender and of the receiver, fmt the record Fmt
-- (integers are printed in decimal digits, a text as it is).
--
-- Fuel. The loop of consume_level runs on one unit more than the level has orders; each round removes
-- an order or ends the taker, so that is enough (Matching.Consume). The loop of match is a recursion
-- over the levels.
--
-- The pipeline. A task is run between two turns, and the emissions of a call of the engine are posted one
-- by one, so that the output loop may take the first before the last is posted. Nothing is assumed of
-- which thread goes next. The queues are unbounded, as those of the source are but for memory. A start of
-- a loop whose thread has not exited makes a second consumer of a queue that is for one: the loop is then
-- `contended`, and makes no turn in the model.
--
-- Not modelled: log lines, the texts inside errors but those of the decoder and of the configuration, the
-- kinds of idling of an event loop, the configuration of the engine, the publisher and the logger, and the
-- counters of trades as machine words (they count elements of lists in memory). Of the failures of memory
-- only those of the node pool are modelled.
pub mod Prelude
pub mod OrderEntry
pub mod MarketData
pub mod MatchingEngine
pub mod Mor
pub mod Morfix
pub mod Ospec
pub mod Lab
pub mod QuickfixFix
pub mod MorfixQuickfix
pub mod Mmd
pub mod OrderClient
pub mod MmdJson
pub mod Server
pub mod Examples
