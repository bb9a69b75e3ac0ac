-- ===== src/Lab/Network.antt =====
-- src/lab/lab/network and src/lab/libs/network/src: the two UDP receivers. What Boost.Asio answers to
-- the calls of `asio_udp_receiver::start` is a parameter.
use cpp_demo_build.Prelude.{
  Bool, true, false, Option, none, some, List, [], ◌∷◌, ℕ, Bytes, if◌then◌else◌,
}
use cpp_demo_build.Prelude.Steps.{◌>>◌}
use cpp_demo_build.Lab.ErrorCode.{ErrorCode, generic_error, not_implemented, configuration_error}

pub record EndpointConfig : Type 0 where
  pub address : Bytes
  pub port : ℕ

-- The receive of the socket. A canceled one is pending still: its handler is yet to run, with an error
-- or, where a datagram had completed it before the cancel, with that datagram.
pub data Receive : Type 0 where
  no_receive pending canceled : Receive

-- `context` names the io_context that `socket_` was made with.
pub record AsioUdpReceiver : Type 0 where
  pub config : EndpointConfig
  pub context : ℕ
  pub is_open : Bool
  pub is_bound : Bool
  pub receive : Receive

-- Whether the address can be parsed, and the socket opened, set and bound.
pub record SocketAnswers : Type 0 where
  pub parses : Bool
  pub opens : Bool
  pub sets_option : Bool
  pub binds : Bool

abbrev SocketCall : Type 0
SocketCall = AsioUdpReceiver → Option ErrorCode × AsioUdpReceiver

unfoldable pub make_receiver : ℕ → EndpointConfig → AsioUdpReceiver
make_receiver context config = record {
  config = config;
  context = context;
  is_open = false;
  is_bound = false;
  receive = no_receive;
}

unfoldable pub parse_address : Bool → SocketCall
parse_address parses r = (if parses then none else some configuration_error, r)

-- A socket that is open cannot be opened again.
unfoldable pub open_socket : Bool → SocketCall
open_socket opens r =
    if r.is_open
    then (some generic_error, r)
    else if opens
    then (none, record r { is_open = true })
    else (some generic_error, r)

unfoldable pub enable_reuse_address : Bool → SocketCall
enable_reuse_address sets_option r = (if sets_option then none else some generic_error, r)

-- A socket that is bound cannot be bound again.
unfoldable pub bind_socket : Bool → SocketCall
bind_socket binds r =
    if r.is_bound
    then (some generic_error, r)
    else if binds
    then (none, record r { is_bound = true })
    else (some generic_error, r)

unfoldable pub post_receive : AsioUdpReceiver → AsioUdpReceiver
post_receive r = record r { receive = pending }

-- The handler of a receive, with the datagrams it hands to `on_datagram`; none is an error.
unfoldable pub complete_receive : Option Bytes → AsioUdpReceiver → List Bytes × AsioUdpReceiver
unfolding post_receive
complete_receive none r = ([], record r { receive = no_receive })
complete_receive (some datagram) r = (datagram ∷ [], post_receive r)

unfoldable pub start : SocketAnswers → SocketCall
start answers r =
    parse_address answers.parses r
    >> open_socket answers.opens
    >> enable_reuse_address answers.sets_option
    >> bind_socket answers.binds
    >> (λ bound. (none, post_receive bound))

-- `socket_.cancel`
unfoldable pub cancel_receive : Receive → Receive
cancel_receive no_receive = no_receive
cancel_receive pending = canceled
cancel_receive canceled = canceled

unfoldable pub stop : AsioUdpReceiver → AsioUdpReceiver
stop r = record r { receive = cancel_receive r.receive }

pub record EfViUdpReceiver : Type 0 where
  pub config : EndpointConfig

-- The backend is a stub: it can be made, not opened (`open`).
unfoldable pub open_backend : EfViUdpReceiver → Option ErrorCode × EfViUdpReceiver
open_backend r = (some not_implemented, r)

unfoldable pub poll : EfViUdpReceiver → ℕ
poll r = 0
