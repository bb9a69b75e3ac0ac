-- ===== src/Server/Application/Restart.antt =====
-- The starts and stops of src/server/src/application.cpp that follow the first start.
use cpp_demo_build.Prelude.{
  ◌⊎◌, inl, inr, ap, sym, subst, ◌∙◌, ℕ, true, false, Option, some, List, [], ◌∷◌, ◌≡◌, ◌≢◌, refl,
  arith, Bool-cases,
}
use cpp_demo_build.Lab.ErrorCode.{ErrorCode, already_in_progress}
use cpp_demo_build.Lab.Network.{AsioUdpReceiver}
use cpp_demo_build.OrderEntry.Runtime
use cpp_demo_build.OrderEntry.Runtime.{
  ReceiverConfig, asio_udp, ef_vi_udp, SessionConfig, RuntimeSession, setup_receiver,
  setup_asio_receiver, setup_ef_vi_receiver, setup_decoder,
}
use cpp_demo_build.Server.Application.{
  Failure, failed, as_failure, Application, Answers, make_application, emplace_context,
  setup_session, after_session, start, stop,
}
use cpp_demo_build.Server.Application.Held.{
  HoldsFirst, Held, emplace_context-Held, stop-Held, any_start-Held,
}

pub data Call : Type 0 where
  starts : Answers → Call
  stops : Call

unfoldable pub after_calls : List Call → Application → Application
after_calls [] a = a
after_calls (starts answers ∷ cs) a = after_calls cs (start answers a).1
after_calls (stops ∷ cs) a = after_calls cs (stop a)

-- The receiver of asio belongs to a context that was destroyed.
abbrev pub IsOrphaned : ReceiverConfig → Application → Type 0
IsOrphaned (asio_udp endpoint) a =
    (r : AsioUdpReceiver) × (context : ℕ) × (a.order_entry.asio_receiver ≡ some r)
    × (a.io_context ≡ some context)
    × (r.context ≢ context)
IsOrphaned (ef_vi_udp endpoint) a = Unit {0}

-- What another start does.
abbrev pub Refused : ReceiverConfig → Application → Option Failure × Application → Type 0
Refused receiver a ended =
    ((a.started ≡ true) × (ended ≡ (some (failed already_in_progress), a)))
    ⊎ ((a.started ≡ false)
        × (ended ≡ (some (failed already_in_progress), emplace_context receiver a))
        × IsOrphaned receiver (emplace_context receiver a))

emplace_context-orphans :
    (receiver : ReceiverConfig) (a : Application)
    → HoldsFirst receiver a
    → IsOrphaned receiver (emplace_context receiver a)
unfolding emplace_context
emplace_context-orphans (asio_udp endpoint) a (r, at, first, more) =
    (r, a.contexts, at, refl, (λ e. omega arith))
emplace_context-orphans (ef_vi_udp endpoint) a h = tt

-- A session that is set up refuses another setup.
setup-set :
    (config : SessionConfig) (io_context : Option ℕ) (s : RuntimeSession)
    → s.session_set ≡ true
    → Runtime.setup config io_context s ≡ (some already_in_progress, s)
unfolding Runtime.setup
setup-set config io_context s h = rw h

setup_session-set :
    (a : Application)
    → a.order_entry.session_set ≡ true
    → setup_session a ≡ (some (failed already_in_progress), a)
unfolding setup_session
setup_session-set a h =
    ap (λ (p : Option ErrorCode × RuntimeSession). (as_failure p.0, record a { order_entry = p.1 }))
      (setup-set a.config a.io_context a.order_entry h)

start-set_up :
    (answers : Answers) (a : Application)
    → a.started ≡ false
    → start answers a ≡ after_session answers (setup_session (emplace_context a.config.receiver a))
unfolding start
start-set_up answers a off = rw off

start-stopped :
    (receiver : ReceiverConfig) (answers : Answers) (a : Application)
    → Held receiver a
    → a.started ≡ false
    → start answers a ≡ (some (failed already_in_progress), emplace_context receiver a)
unfolding after_session
start-stopped receiver answers a h off =
    start-set_up answers a off
    ∙ ap (after_session answers) (
        setup_session-set (emplace_context a.config.receiver a)
          (emplace_context-Held receiver a.config.receiver a h).set)
    ∙ ap (λ other. (some (failed already_in_progress), emplace_context other a)) h.same

start-Held :
    (receiver : ReceiverConfig) (answers : Answers) (a : Application)
    → Held receiver a
    → Refused receiver a (start answers a)
unfolding start
start-Held receiver answers a h = elim (Bool-cases a.started) [
  | inl on ↦ inl (on, rw on)
  | inr off ↦
      inr (off, start-stopped receiver answers a h off, emplace_context-orphans receiver a h.holds)
]

Refused-Held :
    (receiver : ReceiverConfig) (a : Application) (ended : Option Failure × Application)
    → Held receiver a
    → Refused receiver a ended
    → Held receiver ended.1
Refused-Held receiver a ended h (inl (on, e)) =
    subst (λ (p : Option Failure × Application). Held receiver p.1) (sym e) h
Refused-Held receiver a ended h (inr (off, e, orphaned)) =
    subst (λ (p : Option Failure × Application). Held receiver p.1) (sym e)
      (emplace_context-Held receiver receiver a h)

after_calls-Held :
    (receiver : ReceiverConfig) (cs : List Call) (a : Application)
    → Held receiver a
    → Held receiver (after_calls cs a)
unfolding after_calls
after_calls-Held receiver [] a h = h
after_calls-Held receiver (starts answers ∷ cs) a h =
    after_calls-Held receiver cs (start answers a).1
      (Refused-Held receiver a (start answers a) h (start-Held receiver answers a h))
after_calls-Held receiver (stops ∷ cs) a h =
    after_calls-Held receiver cs (stop a) (stop-Held receiver a h)

-- After the first start of an application, whether it succeeded or not, and any starts and stops,
-- another start is refused as already in progress. It starts nothing, but if the application is not
-- started and the receiver is the one of asio, it replaces the context, so that the receiver is left
-- with the one that was destroyed.
pub another_start :
    (config : SessionConfig) (answers answers' : Answers) (calls : List Call)
    → Refused config.receiver
        (after_calls (starts answers ∷ calls) (make_application config))
        (start answers' (after_calls (starts answers ∷ calls) (make_application config)))
unfolding after_calls
another_start config answers answers' calls = start-Held config.receiver answers' _ (
    after_calls-Held config.receiver calls _
      (any_start-Held config.receiver config.max_datagram_size answers))
