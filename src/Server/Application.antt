-- ===== src/Server/Application.antt =====
-- src/server/src/application.cpp: the whole `start` and `stop`, with every branch of `start` that fails
-- and the std::bad_alloc that the construction of the engine may throw. What the system answers to a
-- start is a parameter of it. Other failures of memory are left out.
pub mod First
pub mod Held
pub mod Restart
use cpp_demo_build.Prelude.{Bool, true, false, Option, none, some, ℕ, ◌+◌, if◌then◌else◌}
use cpp_demo_build.Prelude.Steps.{◌>>◌}
use cpp_demo_build.Lab.ErrorCode.{ErrorCode, already_in_progress}
use cpp_demo_build.Lab.Network.{SocketAnswers}
use cpp_demo_build.Lab.EventLoop
use cpp_demo_build.Lab.EventLoop.{Loop, make_loop, join}
use cpp_demo_build.OrderEntry.Messages.{Request}
use cpp_demo_build.OrderEntry.Runtime
use cpp_demo_build.OrderEntry.Runtime.{
  ReceiverConfig, asio_udp, ef_vi_udp, SessionConfig, RuntimeSession, no_session,
}
use cpp_demo_build.MarketData.Messages.{Message}
use cpp_demo_build.MatchingEngine.Outcome.{Outcome, done, fault}
use cpp_demo_build.MatchingEngine.Engine.{Engine, is_some}

-- The contexts are numbered as they are made: `contexts` is how many were, and `io_context` the one
-- that `io_context_` holds. `engine` is the one that the runtime composer of the engine holds,
-- `publisher_set` whether the one of the publisher was set up, and `pollers` counts those of the input
-- loop.
pub record Application : Type 0 where
  pub config : SessionConfig
  pub io_context : Option ℕ
  pub contexts : ℕ
  pub input_loop : Loop ⊥
  pub processing_loop : Loop Request
  pub output_loop : Loop Message
  pub order_entry : RuntimeSession
  pub engine : Option Engine
  pub publisher_set : Bool
  pub pollers : ℕ
  pub started : Bool

-- How a call of `start` ends without success: by a `lab::result`, or by an exception.
pub data Failure : Type 0 where
  failed : ErrorCode → Failure
  threw_bad_alloc : Failure

-- What the system answers to the socket calls, how the construction of the engine ends (`make_engine`,
-- whose one fault is that the node pool is out of memory), and whether the three threads can be made.
pub record Answers : Type 0 where
  pub socket : SocketAnswers
  pub engine : Outcome Engine
  pub makes_output : Bool
  pub makes_processing : Bool
  pub makes_input : Bool

abbrev ApplicationCall : Type 0
ApplicationCall = Application → Option Failure × Application

unfoldable pub make_application : SessionConfig → Application
make_application config = record {
  config = config;
  io_context = none;
  contexts = 0;
  input_loop = make_loop;
  processing_loop = make_loop;
  output_loop = make_loop;
  order_entry = no_session;
  engine = none;
  publisher_set = false;
  pollers = 0;
  started = false;
}

-- `io_context_.emplace()` destroys the context that was there, and makes another.
unfoldable pub emplace_context : ReceiverConfig → Application → Application
emplace_context (asio_udp endpoint) a = record a {
  io_context = some a.contexts;
  contexts = a.contexts + 1;
}
emplace_context (ef_vi_udp endpoint) a = a

abbrev pub as_failure : Option ErrorCode → Option Failure
as_failure none = none
as_failure (some error) = some (failed error)

abbrev with_session : Application → Option ErrorCode × RuntimeSession → Option Failure × Application
with_session a (error, s) = (as_failure error, record a { order_entry = s })

unfoldable pub setup_session : ApplicationCall
setup_session a = with_session a (Runtime.setup a.config a.io_context a.order_entry)

-- `impl_.emplace` leaves `impl_` empty where the construction throws.
unfoldable pub setup_engine : Outcome Engine → ApplicationCall
setup_engine constructed a =
    if is_some a.engine then (some (failed already_in_progress), a) else elim constructed [
      | done e ↦ (none, record a { engine = some e })
      | fault x ↦ (some threw_bad_alloc, a)
    ]

unfoldable pub setup_publisher : ApplicationCall
setup_publisher a =
    if a.publisher_set
    then (some (failed already_in_progress), a)
    else (none, record a { publisher_set = true })

-- The callbacks are those of Server.Pipeline.
unfoldable pub wire_pipeline : Application → Application
wire_pipeline a = record a { pollers = a.pollers + 1 }

unfoldable pub start_session : SocketAnswers → ApplicationCall
start_session socket a = with_session a (Runtime.start socket a.order_entry)

abbrev with_output : Application → Option ErrorCode × Loop Message → Option Failure × Application
with_output a (error, l) = (as_failure error, record a { output_loop = l })

abbrev with_processing :
    Application → Option ErrorCode × Loop Request → Option Failure × Application
with_processing a (error, l) = (as_failure error, record a { processing_loop = l })

abbrev with_input : Application → Option ErrorCode × Loop ⊥ → Option Failure × Application
with_input a (error, l) = (as_failure error, record a { input_loop = l })

-- The calls of `start` after the setup of the session, if that one succeeds.
unfoldable pub after_session : Answers → Option Failure × Application → Option Failure × Application
after_session answers session =
    session
    >> setup_engine answers.engine
    >> setup_publisher
    >> (λ a. (none, wire_pipeline a))
    >> start_session answers.socket
    >> (λ a. with_output a (EventLoop.start answers.makes_output a.output_loop))
    >> (λ a. with_processing a (EventLoop.start answers.makes_processing a.processing_loop))
    >> (λ a. with_input a (EventLoop.start answers.makes_input a.input_loop))
    >> (λ a. (none, record a { started = true }))

unfoldable pub start : Answers → ApplicationCall
start answers a =
    if a.started
    then (some (failed already_in_progress), a)
    else after_session answers (setup_session (emplace_context a.config.receiver a))

-- `stop` after its test. What the threads do before they are joined, the handler of a canceled receive
-- included, is not part of it: see Server.Pipeline.
unfoldable pub tear_down : Application → Application
tear_down a = record a {
  order_entry = Runtime.stop a.order_entry;
  input_loop = join (EventLoop.stop a.input_loop);
  processing_loop = join (EventLoop.stop a.processing_loop);
  output_loop = join (EventLoop.stop a.output_loop);
  started = false;
}

unfoldable pub stop : Application → Application
unfolding tear_down
stop a = if a.started then tear_down a else a

-- `run`, once the threads have exited.
unfoldable pub run : Application → Application
run a = record a {
  input_loop = join a.input_loop;
  processing_loop = join a.processing_loop;
  output_loop = join a.output_loop;
  started = false;
}
