-- ===== src/Server/Application/Held.antt =====
-- What every start and stop of src/server/src/application.cpp keeps once there was a first start.
use cpp_demo_build.Prelude.{
  ap, sym, subst, ◌∙◌, ℕ, ◌<◌, Bool, true, false, some, ◌≡◌, refl, arith, if◌then◌else◌,
}
use cpp_demo_build.Lab.Network
use cpp_demo_build.Lab.Network.{
  EndpointConfig, AsioUdpReceiver, make_receiver, parse_address, open_socket, enable_reuse_address,
  bind_socket, post_receive, complete_receive, open_backend,
}
use cpp_demo_build.Lab.EventLoop
use cpp_demo_build.Lab.EventLoop.{assign_thread, make_loop, join}
use cpp_demo_build.OrderEntry.Runtime
use cpp_demo_build.OrderEntry.Runtime.{
  ReceiverConfig, asio_udp, ef_vi_udp, SessionConfig, RuntimeSession, setup_receiver,
  setup_asio_receiver, setup_ef_vi_receiver, setup_decoder,
}
use cpp_demo_build.MatchingEngine.Outcome.{Outcome, done, fault}
use cpp_demo_build.MatchingEngine.Engine.{Engine}
use cpp_demo_build.Server.Application.{
  Application, Answers, make_application, emplace_context, setup_session, setup_engine,
  setup_publisher, wire_pipeline, start_session, after_session, start, tear_down, stop,
}
use cpp_demo_build.Server.Application.First.{answers_of, with_asio_udp, with_ef_vi_udp}

-- The receiver of asio is that of the first context, and the next context is another.
abbrev pub HoldsFirst : ReceiverConfig → Application → Type 0
HoldsFirst (asio_udp endpoint) a =
    (r : AsioUdpReceiver) × (a.order_entry.asio_receiver ≡ some r)
    × (r.context ≡ 0)
    × (0 < a.contexts)
HoldsFirst (ef_vi_udp endpoint) a = Unit {0}

pub record Held (receiver : ReceiverConfig) (a : Application) : Type 0 where
  pub same : a.config.receiver ≡ receiver
  pub set : a.order_entry.session_set ≡ true
  pub holds : HoldsFirst receiver a

pub emplace_context-Held :
    (receiver other : ReceiverConfig) (a : Application)
    → Held receiver a
    → Held receiver (emplace_context other a)
unfolding emplace_context
emplace_context-Held (asio_udp endpoint) (asio_udp other) a h =
    let (r, at, first, more) = h.holds in
    record { same = h.same; set = h.set; holds = (r, at, first, omega arith) }
emplace_context-Held (ef_vi_udp endpoint) (asio_udp other) a h = record {
  same = h.same;
  set = h.set;
  holds = tt;
}
emplace_context-Held receiver (ef_vi_udp other) a h = h

stop-session_set : (s : RuntimeSession) → (Runtime.stop s).session_set ≡ s.session_set
unfolding Runtime.stop
stop-session_set s = ground arith

pub stop-asio_receiver :
    (s : RuntimeSession) (r : AsioUdpReceiver)
    → s.asio_receiver ≡ some r
    → (Runtime.stop s).asio_receiver ≡ some (Network.stop r)
unfolding Runtime.stop
stop-asio_receiver s r h = rw h

stop-context : (r : AsioUdpReceiver) → (Network.stop r).context ≡ r.context
unfolding Network.stop
stop-context r = refl

stopped-HoldsFirst :
    (receiver : ReceiverConfig) (a b : Application)
    → b.order_entry ≡ Runtime.stop a.order_entry
    → b.contexts ≡ a.contexts
    → HoldsFirst receiver a
    → HoldsFirst receiver b
stopped-HoldsFirst (asio_udp endpoint) a b s c (r, at, first, more) = (
  Network.stop r,
  ap (λ (x : RuntimeSession). x.asio_receiver) s ∙ stop-asio_receiver a.order_entry r at,
  stop-context r ∙ first,
  subst (λ n. 0 < n) (sym c) more,
)
stopped-HoldsFirst (ef_vi_udp endpoint) a b s c h = tt

pub stop-Held :
    (receiver : ReceiverConfig) (a : Application) → Held receiver a → Held receiver (stop a)
unfolding stop tear_down
stop-Held receiver a h = elim a.started as (λ b. Held receiver (if b then tear_down a else a)) [
  | true ↦ record {
    same = h.same;
    set = stop-session_set a.order_entry ∙ h.set;
    holds = stopped-HoldsFirst receiver a _ refl refl h.holds;
  }
  | false ↦ h
]

module _ (endpoint : EndpointConfig) (limit : ℕ) where
  of_parts :
      {a : Application}
      → (a.config.receiver ≡ asio_udp endpoint) × (a.order_entry.session_set ≡ true)
      → HoldsFirst (asio_udp endpoint) a
      → Held (asio_udp endpoint) a
  of_parts (same, set) holds = record { same = same; set = set; holds = holds }

  asio_start-Held :
      (c : Outcome Engine) (p o s b x y z : Bool)
      → Held
          (asio_udp endpoint)
          (start (answers_of c p o s b x y z) (make_application (with_asio_udp endpoint limit))).1
  unfolding start after_session make_application emplace_context setup_session Runtime.setup
      setup_receiver setup_asio_receiver setup_decoder make_receiver setup_engine setup_publisher
      wire_pipeline start_session Runtime.start Network.start parse_address open_socket
      enable_reuse_address bind_socket post_receive EventLoop.start assign_thread make_loop
  asio_start-Held (fault w) p o s b x y z = of_parts (refl, refl) (_, refl, refl, omega arith)
  asio_start-Held (done e) false o s b x y z = of_parts (refl, refl) (_, refl, refl, omega arith)
  asio_start-Held (done e) true false s b x y z = of_parts (refl, refl) (_, refl, refl, omega arith)
  asio_start-Held (done e) true true false b x y z =
      of_parts (refl, refl) (_, refl, refl, omega arith)
  asio_start-Held (done e) true true true false x y z =
      of_parts (refl, refl) (_, refl, refl, omega arith)
  asio_start-Held (done e) true true true true false y z =
      of_parts (refl, refl) (_, refl, refl, omega arith)
  asio_start-Held (done e) true true true true true false z =
      of_parts (refl, refl) (_, refl, refl, omega arith)
  asio_start-Held (done e) true true true true true true false =
      of_parts (refl, refl) (_, refl, refl, omega arith)
  asio_start-Held (done e) true true true true true true true =
      of_parts (refl, refl) (_, refl, refl, omega arith)

ef_vi_start-Held :
    (endpoint : EndpointConfig) (limit : ℕ) (c : Outcome Engine) (p o s b x y z : Bool)
    → Held
        (ef_vi_udp endpoint)
        (start (answers_of c p o s b x y z) (make_application (with_ef_vi_udp endpoint limit))).1
unfolding start after_session make_application emplace_context setup_session Runtime.setup
    setup_receiver setup_ef_vi_receiver setup_decoder setup_engine setup_publisher wire_pipeline
    start_session Runtime.start open_backend make_loop
ef_vi_start-Held endpoint limit (done e) p o s b x y z = record {
  same = refl;
  set = refl;
  holds = tt;
}
ef_vi_start-Held endpoint limit (fault w) p o s b x y z = record {
  same = refl;
  set = refl;
  holds = tt;
}

pub any_start-Held :
    (receiver : ReceiverConfig) (limit : ℕ) (answers : Answers)
    → Held receiver
        (start answers
          (make_application (record { receiver = receiver; max_datagram_size = limit }))).1
any_start-Held (asio_udp endpoint) limit answers =
    asio_start-Held endpoint limit answers.engine answers.socket.parses answers.socket.opens
      answers.socket.sets_option answers.socket.binds answers.makes_output answers.makes_processing
      answers.makes_input
any_start-Held (ef_vi_udp endpoint) limit answers =
    ef_vi_start-Held endpoint limit answers.engine answers.socket.parses answers.socket.opens
      answers.socket.sets_option answers.socket.binds answers.makes_output answers.makes_processing
      answers.makes_input
