-- ===== src/OrderEntry/Runtime.antt =====
-- src/order_entry/src/runtime/session.cpp and its configuration in
-- order_entry/runtime/session_config.hpp: the composer of receiver, decoder and session.
pub mod Config
pub mod ConfigRoundTrip
use cpp_demo_build.Prelude.{
  ◌⊎◌, inl, inr, ap, subst, ℕ, Bool, true, false, Option, none, some, ◌≡◌, ◌≢◌, refl, if◌then◌else◌,
}
use cpp_demo_build.Lab.ErrorCode.{ErrorCode, already_in_progress, configuration_error}
use cpp_demo_build.Lab.Network
use cpp_demo_build.Lab.Network.{
  EndpointConfig, AsioUdpReceiver, EfViUdpReceiver, SocketAnswers, make_receiver, open_backend,
}

pub data ReceiverConfig : Type 0 where
  asio_udp ef_vi_udp : EndpointConfig → ReceiverConfig

-- `decoder_config` has one alternative, `json_decoder_config`.
pub record SessionConfig : Type 0 where
  pub receiver : ReceiverConfig
  pub max_datagram_size : ℕ

-- `decoder` is the limit of the decoder, `session_set` whether `session_` holds a session, and
-- `io_context` names the context that the pointer points to.
pub record RuntimeSession : Type 0 where
  pub io_context : Option ℕ
  pub asio_receiver : Option AsioUdpReceiver
  pub ef_vi_receiver : Option EfViUdpReceiver
  pub decoder : Option ℕ
  pub session_set : Bool

abbrev SessionCall : Type 0
SessionCall = RuntimeSession → Option ErrorCode × RuntimeSession

abbrev pub no_session : RuntimeSession
no_session = record {
  io_context = none;
  asio_receiver = none;
  ef_vi_receiver = none;
  decoder = none;
  session_set = false;
}

unfoldable pub setup_decoder : ℕ → RuntimeSession → RuntimeSession
setup_decoder max_datagram_size s = record s { decoder = some max_datagram_size }

unfoldable pub setup_asio_receiver : EndpointConfig → ℕ → SessionCall
setup_asio_receiver endpoint context s = (
  none,
  record s { io_context = some context; asio_receiver = some (make_receiver context endpoint) },
)

unfoldable pub setup_ef_vi_receiver : EndpointConfig → SessionCall
setup_ef_vi_receiver endpoint s =
    (none, record s { ef_vi_receiver = some (record { config = endpoint }) })

unfoldable pub setup_receiver : ReceiverConfig → Option ℕ → SessionCall
unfolding setup_asio_receiver setup_ef_vi_receiver
setup_receiver (asio_udp endpoint) none s = (some configuration_error, s)
setup_receiver (asio_udp endpoint) (some context) s = setup_asio_receiver endpoint context s
setup_receiver (ef_vi_udp endpoint) (some context) s = (some configuration_error, s)
setup_receiver (ef_vi_udp endpoint) none s = setup_ef_vi_receiver endpoint s

-- `setup`; `io_context` is none where the pointer is null.
unfoldable pub setup : SessionConfig → Option ℕ → SessionCall
unfolding setup_receiver setup_decoder
setup config io_context s =
    if s.session_set
    then (some already_in_progress, s)
    else setup_receiver config.receiver io_context
        (record (setup_decoder config.max_datagram_size s) { session_set = true })

-- What `poll` does: it asks the context, or the ef_vi receiver, or reads a null pointer or an empty
-- optional.
pub data Polled : Type 0 where
  polls_context : ℕ → Polled
  polls_ef_vi : EfViUdpReceiver → Polled
  reads_null_context reads_empty_receiver : Polled

unfoldable pub poll : RuntimeSession → Polled
poll s = elim s.asio_receiver [
  | some _ ↦ elim s.io_context [ some context ↦ polls_context context | none ↦ reads_null_context ]
  | none ↦ elim s.ef_vi_receiver [
    | some receiver ↦ polls_ef_vi receiver
    | none ↦ reads_empty_receiver
  ]
]

abbrev with_asio :
    RuntimeSession → Option ErrorCode × AsioUdpReceiver → Option ErrorCode × RuntimeSession
with_asio s (error, receiver) = (error, record s { asio_receiver = some receiver })

abbrev with_ef_vi :
    RuntimeSession → Option ErrorCode × EfViUdpReceiver → Option ErrorCode × RuntimeSession
with_ef_vi s (error, receiver) = (error, record s { ef_vi_receiver = some receiver })

unfoldable pub start : SocketAnswers → SessionCall
start answers s =
    if s.session_set
    then elim s.asio_receiver [
      | some receiver ↦ with_asio s (Network.start answers receiver)
      | none ↦ elim s.ef_vi_receiver [
        | some receiver ↦ with_ef_vi s (open_backend receiver)
        | none ↦ (none, s)
      ]
    ]
    else (some configuration_error, s)

-- To close the ef_vi receiver does nothing.
unfoldable pub stop : RuntimeSession → RuntimeSession
stop s = elim s.asio_receiver [
  | some receiver ↦ record s { asio_receiver = some (Network.stop receiver) }
  | none ↦ s
]

-- One of the receivers is there, and the context with the one that needs it.
abbrev pub HasReceiver : RuntimeSession → Type 0
HasReceiver s =
    (((s.asio_receiver ≢ none) × (s.ef_vi_receiver ≡ none)) × (s.io_context ≢ none))
    ⊎ ((s.asio_receiver ≡ none) × (s.ef_vi_receiver ≢ none))

abbrev pub IsSafe : Polled → Type 0
IsSafe (polls_context context) = Unit {0}
IsSafe (polls_ef_vi receiver) = Unit {0}
IsSafe reads_null_context = ⊥
IsSafe reads_empty_receiver = ⊥

-- The session after the decoder and the inner session are made.
abbrev made : ℕ → RuntimeSession
made n = record no_session { decoder = some n; session_set = true }

setup_receiver-poll :
    (r : ReceiverConfig) (io_context : Option ℕ) (n : ℕ) (s : RuntimeSession)
    → setup_receiver r io_context (made n) ≡ (none, s)
    → HasReceiver s × IsSafe (poll s)
unfolding setup_receiver poll
setup_receiver-poll (asio_udp endpoint) none n s h = cc
setup_receiver-poll (asio_udp endpoint) (some context) n s h =
    subst (λ (x : RuntimeSession). HasReceiver x × IsSafe (poll x)) (ap (λ p. p.1) h)
      (inl (((λ e. cc), refl), (λ e. cc)), tt)
setup_receiver-poll (ef_vi_udp endpoint) (some context) n s h = cc
setup_receiver-poll (ef_vi_udp endpoint) none n s h =
    subst (λ (x : RuntimeSession). HasReceiver x × IsSafe (poll x)) (ap (λ p. p.1) h)
      (inr (refl, (λ e. cc)), tt)

-- When `setup` of a new session succeeds, exactly one receiver is engaged, the context comes with the
-- receiver that needs it, and `poll` reads no empty receiver and no null context.
pub setup-poll :
    (config : SessionConfig) (io_context : Option ℕ) (s : RuntimeSession)
    → setup config io_context no_session ≡ (none, s)
    → HasReceiver s × IsSafe (poll s)
unfolding setup setup_decoder
setup-poll config io_context s h =
    setup_receiver-poll config.receiver io_context config.max_datagram_size s h

setup_receiver-failed :
    (r : ReceiverConfig) (io_context : Option ℕ) (n : ℕ) (s : RuntimeSession)
    → setup_receiver r io_context (made n) ≡ (some configuration_error, s)
    → made n ≡ s
unfolding setup_receiver
setup_receiver-failed (asio_udp endpoint) none n s h = ap (λ p. p.1) h
setup_receiver-failed (asio_udp endpoint) (some context) n s h = cc
setup_receiver-failed (ef_vi_udp endpoint) (some context) n s h = ap (λ p. p.1) h
setup_receiver-failed (ef_vi_udp endpoint) none n s h = cc

-- When `setup` of a new session fails for want of the right context, the session is half made: every
-- later `setup` fails, also one with the right context, `start` succeeds, and `poll` reads an empty
-- receiver.
pub failed_setup :
    (config : SessionConfig) (io_context : Option ℕ) (s : RuntimeSession) (config' : SessionConfig)
    (io_context' : Option ℕ) (answers : SocketAnswers)
    → setup config io_context no_session ≡ (some configuration_error, s)
    → (setup config' io_context' s ≡ (some already_in_progress, s))
      × (start answers s ≡ (none, s))
      × (poll s ≡ reads_empty_receiver)
unfolding setup setup_decoder start poll
failed_setup config io_context s config' io_context' answers h =
    subst
      (λ (x : RuntimeSession).
        (setup config' io_context' x ≡ (some already_in_progress, x))
        × (start answers x ≡ (none, x))
        × (poll x ≡ reads_empty_receiver))
      (setup_receiver-failed config.receiver io_context config.max_datagram_size s h)
      (refl, refl, refl)
