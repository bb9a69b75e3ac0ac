-- ===== src/Server/Pipeline.antt =====
-- src/server/src/application.cpp: datagrams go over the input loop to the order-entry session, its
-- requests over the processing loop to the engine, and the market data of the engine over the output
-- loop to the publisher (src/market_data/src/publisher.cpp) and its sink. The three threads and the
-- one that calls `stop` interleave.
pub mod Guards
pub mod Serving
pub mod Stopped
pub mod Threads
pub mod Completion
use cpp_demo_build.Prelude.{Bool, true, false, Option, none, some, List, [], ◌∷◌, ◌++◌, ◌≡◌, Bytes}
use cpp_demo_build.Lab.EventLoop.{Phase, looping, exited, Loop, Turn, post, stop}
use cpp_demo_build.OrderEntry.Messages.{Request}
use cpp_demo_build.OrderEntry.Session.{Decoded, Delivery, on_request, on_rejected, send_packet}
use cpp_demo_build.MarketData.Messages.{Message}
use cpp_demo_build.MatchingEngine.Outcome.{Outcome, done}
use cpp_demo_build.MatchingEngine.Engine.{Pool, Engine, Emission, market_data, order_entry}
use cpp_demo_build.MatchingEngine.Engine.Dispatch.{send}

-- How far `stop` is. The thread that calls it waits in each of the three joins.
pub data Stage : Type 0 where
  serving joining_input joining_processing joining_output stopped : Stage

-- `outbox` is what the running call of `engine_.send` has yet to post to the output loop, `records`
-- what the sink got. Nothing is posted to the input loop: its thread polls.
pub record Pipeline : Type 0 where
  pub input_loop : Loop ⊥
  pub processing_loop : Loop Request
  pub output_loop : Loop Message
  pub datagrams : List Bytes
  pub engine : Engine
  pub outbox : List Message
  pub records : List Bytes
  pub stage : Stage

-- `order_entry_.on_request` posts a request, `on_rejected` logs.
unfoldable pub on_deliveries : List Delivery → Loop Request → Loop Request
on_deliveries [] l = l
on_deliveries (on_request r ∷ ds) l = on_deliveries ds (post r l)
on_deliveries (on_rejected rejection ∷ ds) l = on_deliveries ds l

-- `engine_.on_market_data` posts, `engine_.on_order_entry` does nothing.
unfoldable pub market_data_of : List Emission → List Message
market_data_of [] = []
market_data_of (market_data m ∷ es) = m ∷ market_data_of es
market_data_of (order_entry event ∷ es) = market_data_of es

-- The emissions of a call are those after the call's beginning.
abbrev pub begin_call : Engine → Engine
begin_call e = record e { emitted = [] }

abbrev running_loop : {A : Type 0} → Loop A
running_loop = record { running = true; phase = looping; task_queue = [] }

-- `start`, when every part of it succeeds.
unfoldable pub started : Engine → Pipeline
started e = record {
  input_loop = running_loop;
  processing_loop = running_loop;
  output_loop = running_loop;
  datagrams = [];
  engine = e;
  outbox = [];
  records = [];
  stage = serving;
}

module _ (pool : Pool) (decode : Bytes → Decoded) (encode : Message → Bytes) where
  pub data Step (s : Pipeline) : Pipeline → Type 0 where
    -- The poller of the input loop gets a datagram.
    polls :
        (datagram : Bytes)
        → s.input_loop.phase ≡ looping
        → Step s (record s {
          datagrams = s.datagrams ++ datagram ∷ [];
          processing_loop = on_deliveries (send_packet decode datagram) s.processing_loop;
        })
    input_turns : {l : Loop ⊥} → Turn s.input_loop none l → Step s (record s { input_loop = l })
    -- A task of the processing loop calls the engine, and posts what the engine emits.
    processes :
        {r : Request} {l : Loop Request} {e : Engine}
        → s.outbox ≡ []
        → Turn s.processing_loop (some r) l
        → send pool (begin_call s.engine) r ≡ done e
        → Step s (record s { processing_loop = l; engine = e; outbox = market_data_of e.emitted })
    emits :
        {m : Message} {ms : List Message}
        → s.outbox ≡ m ∷ ms
        → Step s (record s { outbox = ms; output_loop = post m s.output_loop })
    processing_turns :
        {l : Loop Request}
        → s.outbox ≡ []
        → Turn s.processing_loop none l
        → Step s (record s { processing_loop = l })
    -- A task of the output loop encodes and writes.
    publishes :
        {m : Message} {l : Loop Message}
        → Turn s.output_loop (some m) l
        → Step s (record s { output_loop = l; records = s.records ++ encode m ∷ [] })
    output_turns :
        {l : Loop Message} → Turn s.output_loop none l → Step s (record s { output_loop = l })
    -- `stop`: each loop is stopped once the one before it is joined.
    stops_input :
        s.stage ≡ serving
        → Step s (record s { input_loop = stop s.input_loop; stage = joining_input })
    stops_processing :
        s.stage ≡ joining_input
        → s.input_loop.phase ≡ exited
        → Step s (record s { processing_loop = stop s.processing_loop; stage = joining_processing })
    stops_output :
        s.stage ≡ joining_processing
        → s.processing_loop.phase ≡ exited
        → Step s (record s { output_loop = stop s.output_loop; stage = joining_output })
    ends :
        s.stage ≡ joining_output
        → s.output_loop.phase ≡ exited
        → Step s (record s { stage = stopped })

  pub data Reach (e : Engine) : Pipeline → Type 0 where
    starts : Reach e (started e)
    next : {s t : Pipeline} → Reach e s → Step s t → Reach e t
