-- ===== src/OrderClient/UdpSender.antt =====
-- src/order_client/src/udp_sender.cpp. Boost.Asio is a parameter: what it answers in a call of the
-- sender is an argument of the call, and the datagrams handed to it are kept in their order.
use cpp_demo_build.Prelude.{
  ℕ, ◌≤◌, ◌≡◌, Bool, true, false, Option, none, some, List, [], ◌∷◌, ◌++◌, Bytes, ltb, length,
  if◌then◌else◌, arith, Bool-cases, inl, inr, ◌≢◌,
}

pub record SenderConfig : Type 0 where
  pub address : Bytes
  pub port : ℕ
  pub max_datagram_size : ℕ

pub record UdpSender : Type 0 where
  pub config : SenderConfig
  pub connected : Bool
  pub datagrams : List Bytes

-- The error texts of `make_address`, `socket.open` and `socket.send_to`, if they are called and fail.
pub record Answers : Type 0 where
  pub address_error : Option Bytes
  pub open_error : Option Bytes
  pub send_error : Option Bytes

-- The errors of a `lab::result<void>`, which is `none` where the call succeeds.
pub data SenderError : Type 0 where
  configuration_error generic_error : Bytes → SenderError
  invalid_argument : SenderError

unfoldable pub make_sender : SenderConfig → UdpSender
make_sender config = record { config = config; connected = false; datagrams = [] }

unfoldable pub open_socket : UdpSender → Answers → Option SenderError × UdpSender
open_socket s answers = elim answers.address_error [
  | some text ↦ (some (configuration_error text), s)
  | none ↦ elim answers.open_error [
    | some text ↦ (some (generic_error text), s)
    | none ↦ (none, record s { connected = true })
  ]
]

unfoldable pub connect : UdpSender → Answers → Option SenderError × UdpSender
unfolding open_socket
connect s answers = if s.connected then (none, s) else open_socket s answers

unfoldable pub send_to : UdpSender → Answers → Bytes → Option SenderError × UdpSender
send_to s answers payload = elim answers.send_error [
  | some text ↦ (some (generic_error text), s)
  | none ↦ (none, record s { datagrams = s.datagrams ++ payload ∷ [] })
]

-- `LAB_LEAF_CHECK(connect())`, then the datagram.
unfoldable pub after_connect :
    Option SenderError × UdpSender → Answers → Bytes → Option SenderError × UdpSender
unfolding send_to
after_connect (some error, s) answers payload = (some error, s)
after_connect (none, s) answers payload = send_to s answers payload

unfoldable pub send : UdpSender → Answers → Bytes → Option SenderError × UdpSender
unfolding connect after_connect
send s answers payload =
    if ltb s.config.max_datagram_size (length payload)
    then (some invalid_argument, s)
    else after_connect (connect s answers) answers payload

abbrev pub Accepts : UdpSender → Answers → Bytes → Type 0
Accepts s answers payload =
    (length payload ≤ s.config.max_datagram_size)
    × (s.connected ≡ false → (answers.address_error ≡ none) × (answers.open_error ≡ none))
    × (answers.send_error ≡ none)

-- A send of a datagram within the limit over a network that makes no trouble succeeds, hands over that
-- one datagram, and leaves the socket open.
pub send-Accepts :
    (s : UdpSender) (answers : Answers) (payload : Bytes)
    → Accepts s answers payload
    → send s answers payload
      ≡ (none, record s { connected = true; datagrams = s.datagrams ++ payload ∷ [] })
unfolding send
send-Accepts s answers payload (fits, open_works, sent) = elim (Bool-cases s.connected) [
  | inl c ↦ ground arith
  | inr c ↦ ground (arith, open_works c)
]

-- Any other send, over the limit or over a network that answers with an error to one of the calls that
-- the send makes, fails and hands over nothing.
pub send-not_Accepts :
    (s : UdpSender) (answers : Answers) (payload : Bytes)
    → ¬ Accepts s answers payload
    → ((send s answers payload).0 ≢ none) × ((send s answers payload).1.datagrams ≡ s.datagrams)
unfolding send
send-not_Accepts s answers payload refused = elim (Bool-cases s.connected) [
  | inl c ↦ ground (
    arith,
    λ (a : length payload ≤ s.config.max_datagram_size) (b : answers.send_error ≡ none).
        refused (a, λ (d : s.connected ≡ false). absurd (cc), b),
  )
  | inr c ↦ ground (
    arith,
    λ (a : length payload ≤ s.config.max_datagram_size) (x : answers.address_error ≡ none)
          (y : answers.open_error ≡ none) (b : answers.send_error ≡ none).
        refused (a, λ (d : s.connected ≡ false). (x, y), b),
  )
]
