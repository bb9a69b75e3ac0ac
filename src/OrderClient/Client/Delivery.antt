-- ===== src/OrderClient/Client/Delivery.antt =====
-- The client of src/order_client and the session of src/order_entry, end to end.
use cpp_demo_build.Prelude.{ℕ, ◌≤◌, ◌≡◌, none, [], ◌∷◌, ◌++◌, Bytes, true, arith, subst}
use cpp_demo_build.Lab.Json.{Json}
use cpp_demo_build.Lab.Algorithm.{IsBlank}
use cpp_demo_build.OrderEntry.Messages.{Request}
use cpp_demo_build.OrderEntry.Session.{on_request, send_packet, send_packet-request}
use cpp_demo_build.OrderEntry.JsonDecoder.{decode}
use cpp_demo_build.OrderEntry.JsonDecoder.WireTypes.{IsWireRequest}
use cpp_demo_build.OrderEntry.JsonDecoder.RoundTrip.{decode-encode_request}
use cpp_demo_build.OrderClient.JsonEncoder.{encode, payload}
use cpp_demo_build.OrderClient.UdpSender.{UdpSender, Answers, Accepts, send-Accepts}
use cpp_demo_build.OrderClient.Client.{send_request}

module _ (j : Json) where
  -- An encoded request is not all whitespace.
  encode-not_IsBlank : (r : Request) → ¬ IsBlank (encode j r)
  unfolding encode
  encode-not_IsBlank r h =
      let (rest, e) = j.dump_object (payload j r) in brace rest (subst IsBlank e h)
    where
      brace : (rest : Bytes) → ¬ IsBlank (b'{' ∷ rest)
      brace rest (k, _) = cc

  -- A request whose numbers are words of 64 bits and whose symbol and exchange are ASCII and fit their
  -- fixed strings is sent over a network that makes no trouble, by a client whose datagram limit it
  -- meets and which is at most that of the server: the client hands over one datagram, and the session
  -- that gets it calls `on_request` once, with that request.
  pub send_request-delivered :
      (sender : UdpSender) (answers : Answers) (max_datagram_size : ℕ) (r : Request)
      → IsWireRequest r
      → Accepts sender answers (encode j r)
      → sender.config.max_datagram_size ≤ max_datagram_size
      → (datagram : Bytes) × (send_request j sender answers r ≡ (
        none,
        record sender { connected = true; datagrams = sender.datagrams ++ datagram ∷ [] },
      ))
        × (send_packet (decode j max_datagram_size) datagram ≡ on_request r ∷ [])
  unfolding send_request
  send_request-delivered sender answers max_datagram_size r w a limit = (
    encode j r,
    send-Accepts sender answers (encode j r) a,
    (send_packet-request (decode j max_datagram_size) (encode j r) r (encode-not_IsBlank r)).1
        (decode-encode_request j max_datagram_size r w (omega (arith, a.0))),
  )
