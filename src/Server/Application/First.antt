-- ===== src/Server/Application/First.antt =====
-- The first start of src/server/src/application.cpp.
use cpp_demo_build.Prelude.{◌⊎◌, inl, inr, ℕ, Bool, true, false, Option, none, some, ◌≡◌, ◌≢◌, refl}
use cpp_demo_build.Lab.Network
use cpp_demo_build.Lab.Network.{
  EndpointConfig, SocketAnswers, AsioUdpReceiver, make_receiver, parse_address, open_socket,
  enable_reuse_address, bind_socket, post_receive, open_backend, Receive, pending,
}
use cpp_demo_build.Lab.EventLoop
use cpp_demo_build.Lab.EventLoop.{assign_thread, Loop, looping, make_loop}
use cpp_demo_build.OrderEntry.Runtime
use cpp_demo_build.OrderEntry.Runtime.{
  ReceiverConfig, asio_udp, ef_vi_udp, SessionConfig, setup_receiver, setup_asio_receiver,
  setup_ef_vi_receiver, setup_decoder,
}
use cpp_demo_build.MatchingEngine.Outcome.{Outcome, done, fault}
use cpp_demo_build.MatchingEngine.Engine.{Engine, is_some}
use cpp_demo_build.Server.Application.{
  Failure, Application, Answers, make_application, emplace_context, setup_session, setup_engine,
  setup_publisher, wire_pipeline, start_session, after_session, start,
}

abbrev pub HasEngine : Outcome Engine → Type 0
HasEngine (done e) = Unit {0}
HasEngine (fault x) = ⊥

-- The system answers every call that the start needs; the ef_vi backend is a stub.
abbrev pub IsGranted : ReceiverConfig → Answers → Type 0
IsGranted (asio_udp endpoint) answers =
    (answers.socket.parses ≡ true)
    × (answers.socket.opens ≡ true)
    × (answers.socket.sets_option ≡ true)
    × (answers.socket.binds ≡ true)
    × HasEngine answers.engine
    × (answers.makes_output ≡ true)
    × (answers.makes_processing ≡ true)
    × (answers.makes_input ≡ true)
IsGranted (ef_vi_udp endpoint) answers = ⊥

abbrev pub IsRunning : {A : Type 0} → Loop A → Type 0
IsRunning l = (l.running ≡ true) × (l.phase ≡ looping)

-- The receiver is bound to a context that is alive, and waits for a datagram.
abbrev pub IsListening : Application → Type 0
IsListening a =
    (r : AsioUdpReceiver) × (a.order_entry.asio_receiver ≡ some r)
    × (a.io_context ≡ some r.context)
    × (a.order_entry.io_context ≡ some r.context)
    × (r.is_bound ≡ true)
    × (r.receive ≡ pending)

pub record IsUp (a : Application) : Type 0 where
  pub is_started : a.started ≡ true
  pub listens : IsListening a
  pub input : IsRunning a.input_loop
  pub processing : IsRunning a.processing_loop
  pub output : IsRunning a.output_loop
  pub one_poller : a.pollers ≡ 1
  pub has_engine : is_some a.engine ≡ true

-- The first start of a new application, with its result `ended`, goes wholly up or fails.
abbrev pub UpOrFailed : ReceiverConfig → Answers → Option Failure × Application → Type 0
UpOrFailed receiver answers ended =
    (IsGranted receiver answers × (ended.0 ≡ none) × IsUp ended.1)
    ⊎ ((¬ IsGranted receiver answers)
        × (ended.0 ≢ none)
        × (ended.1.started ≡ false)
        × (ended.1.input_loop ≡ make_loop))

abbrev pub answers_of : Outcome Engine → Bool → Bool → Bool → Bool → Bool → Bool → Bool → Answers
answers_of c p o s b x y z = record {
  socket = record { parses = p; opens = o; sets_option = s; binds = b };
  engine = c;
  makes_output = x;
  makes_processing = y;
  makes_input = z;
}

abbrev pub with_asio_udp : EndpointConfig → ℕ → SessionConfig
with_asio_udp endpoint limit = record { receiver = asio_udp endpoint; max_datagram_size = limit }

module _ (endpoint : EndpointConfig) (limit : ℕ) where
  asio_start :
      (c : Outcome Engine) (p o s b x y z : Bool)
      → UpOrFailed
          (asio_udp endpoint)
          (answers_of c p o s b x y z)
          (start (answers_of c p o s b x y z) (make_application (with_asio_udp endpoint limit)))
  unfolding start after_session make_application emplace_context setup_session Runtime.setup
      setup_receiver setup_asio_receiver setup_decoder make_receiver setup_engine setup_publisher
      wire_pipeline start_session Runtime.start Network.start parse_address open_socket
      enable_reuse_address bind_socket post_receive EventLoop.start assign_thread make_loop
  asio_start (fault w) p o s b x y z = inr ((λ g. g.4), (λ k. cc), refl, refl)
  asio_start (done e) false o s b x y z = inr ((λ g. cc), (λ k. cc), refl, refl)
  asio_start (done e) true false s b x y z = inr ((λ g. cc), (λ k. cc), refl, refl)
  asio_start (done e) true true false b x y z = inr ((λ g. cc), (λ k. cc), refl, refl)
  asio_start (done e) true true true false x y z = inr ((λ g. cc), (λ k. cc), refl, refl)
  asio_start (done e) true true true true false y z = inr ((λ g. cc), (λ k. cc), refl, refl)
  asio_start (done e) true true true true true false z = inr ((λ g. cc), (λ k. cc), refl, refl)
  asio_start (done e) true true true true true true false = inr ((λ g. cc), (λ k. cc), refl, refl)
  asio_start (done e) true true true true true true true = inl (
    (refl, refl, refl, refl, tt, refl, refl, refl),
    refl,
    record {
      is_started = refl;
      listens = (_, refl, refl, refl, refl, refl);
      input = (refl, refl);
      processing = (refl, refl);
      output = (refl, refl);
      one_poller = refl;
      has_engine = refl;
    },
  )

abbrev pub with_ef_vi_udp : EndpointConfig → ℕ → SessionConfig
with_ef_vi_udp endpoint limit = record { receiver = ef_vi_udp endpoint; max_datagram_size = limit }

ef_vi_start :
    (endpoint : EndpointConfig) (limit : ℕ) (c : Outcome Engine) (p o s b x y z : Bool)
    → UpOrFailed
        (ef_vi_udp endpoint)
        (answers_of c p o s b x y z)
        (start (answers_of c p o s b x y z) (make_application (with_ef_vi_udp endpoint limit)))
unfolding start after_session make_application emplace_context setup_session Runtime.setup
    setup_receiver setup_ef_vi_receiver setup_decoder setup_engine setup_publisher wire_pipeline
    start_session Runtime.start open_backend make_loop
ef_vi_start endpoint limit (done e) p o s b x y z = inr ((λ g. g), (λ k. cc), refl, refl)
ef_vi_start endpoint limit (fault w) p o s b x y z = inr ((λ g. g), (λ k. cc), refl, refl)

any_start :
    (receiver : ReceiverConfig) (limit : ℕ) (answers : Answers)
    → UpOrFailed receiver answers (
        start answers
          (make_application (record { receiver = receiver; max_datagram_size = limit })))
any_start (asio_udp endpoint) limit answers =
    asio_start endpoint limit answers.engine answers.socket.parses answers.socket.opens
      answers.socket.sets_option answers.socket.binds answers.makes_output answers.makes_processing
      answers.makes_input
any_start (ef_vi_udp endpoint) limit answers =
    ef_vi_start endpoint limit answers.engine answers.socket.parses answers.socket.opens
      answers.socket.sets_option answers.socket.binds answers.makes_output answers.makes_processing
      answers.makes_input

-- The first start of a new application either succeeds, which it does exactly when the receiver is the
-- one of asio, the construction of the engine returns and the system answers every call, and then the
-- three threads run, the engine is there, one poller is there and the receiver waits on a bound socket
-- of the living context; or it fails, by its result or by the exception of the engine, and the input
-- loop has no thread.
pub first_start :
    (config : SessionConfig) (answers : Answers)
    → UpOrFailed config.receiver answers (start answers (make_application config))
first_start config answers = any_start config.receiver config.max_datagram_size answers
