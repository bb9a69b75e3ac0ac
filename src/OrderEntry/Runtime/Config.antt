-- ===== src/OrderEntry/Runtime/Config.antt =====
-- src/order_entry/order_entry/runtime/session_config.hpp and lab/network/types.hpp: the configuration of
-- the composer as JSON. A document that is not an object, or lacks what must be there, throws.
use cpp_demo_build.Prelude.{ℕ, ◌^◌, ◌%◌, List, [], ◌∷◌, ◌++◌, Bytes, codes, eqb, if◌then◌else◌}
use cpp_demo_build.Prelude.Throws.{Throws, value, threw, ◌>>=◌}
use cpp_demo_build.Lab.Json.{Json}
use cpp_demo_build.Lab.Json.Fields.{
  JsonItems, read_field, read_field_or, read_type, reject_unknown_fields,
}
use cpp_demo_build.Lab.Network.{EndpointConfig}
use cpp_demo_build.OrderEntry.Runtime.{ReceiverConfig, asio_udp, ef_vi_udp, SessionConfig}

abbrev pub endpoint_names : List Bytes
endpoint_names = codes "address" ∷ codes "port" ∷ []

-- The member initializer of `max_datagram_size`.
abbrev pub default_max_datagram_size : ℕ
default_max_datagram_size = 65535

module _ (j : Json) where
  -- `get<std::uint16_t>()` takes the low bits.
  unfoldable pub get_port : j.Value → Throws ℕ
  get_port v = do n ← j.get_number v; value (n % 2 ^ 16)

  abbrev pub endpoint_fields : EndpointConfig → List (Bytes × j.Value)
  endpoint_fields c =
      (codes "address", j.of_string c.address) ∷ (codes "port", j.of_number c.port) ∷ []

  unfoldable pub endpoint_to_json : EndpointConfig → j.Value
  endpoint_to_json c = j.object (endpoint_fields c)

  unfoldable pub receiver_to_json : ReceiverConfig → j.Value
  receiver_to_json (asio_udp endpoint) = j.object (
      (codes "endpoint", endpoint_to_json endpoint)
      ∷ (codes "type", j.of_string (codes "asio_udp"))
      ∷ [])
  receiver_to_json (ef_vi_udp endpoint) = j.object (
      (codes "endpoint", endpoint_to_json endpoint)
      ∷ (codes "type", j.of_string (codes "ef_vi_udp"))
      ∷ [])

  unfoldable pub decoder_to_json : ℕ → j.Value
  decoder_to_json max_datagram_size = j.object (
      (codes "max_datagram_size", j.of_number max_datagram_size)
      ∷ (codes "type", j.of_string (codes "json"))
      ∷ [])

  unfoldable pub to_json : SessionConfig → j.Value
  to_json c = j.object (
      (codes "receiver", receiver_to_json c.receiver)
      ∷ (codes "decoder", decoder_to_json c.max_datagram_size)
      ∷ [])

  unfoldable pub decoder_of_type : j.Value → Bytes → Throws ℕ
  unfolding eqb
  decoder_of_type json_object type =
      if eqb type (codes "json")
      then read_field_or j j.get_number json_object (codes "max_datagram_size")
          default_max_datagram_size
      else threw (codes "unknown order-entry decoder type '" ++ type ++ codes "'")

  unfoldable pub decoder_from_json : j.Value → Throws ℕ
  decoder_from_json json_object = read_type j json_object >>= decoder_of_type json_object

  module _ (i : JsonItems j) where
    unfoldable pub endpoint_from_json : j.Value → Throws EndpointConfig
    endpoint_from_json json_object = do
      described ← reject_unknown_fields j i endpoint_names json_object
      address ← read_field j j.get_string json_object (codes "address")
      port ← read_field j get_port json_object (codes "port")
      value (record { address = address; port = port })

    unfoldable pub receiver_of_type : j.Value → Bytes → Throws ReceiverConfig
    unfolding eqb
    receiver_of_type json_object type =
        if eqb type (codes "asio_udp")
        then (do
          endpoint ← read_field j endpoint_from_json json_object (codes "endpoint")
          value (asio_udp endpoint))
        else if eqb type (codes "ef_vi_udp")
        then (do
          endpoint ← read_field j endpoint_from_json json_object (codes "endpoint")
          value (ef_vi_udp endpoint))
        else threw (codes "unknown order-entry receiver type '" ++ type ++ codes "'")

    unfoldable pub receiver_from_json : j.Value → Throws ReceiverConfig
    receiver_from_json json_object = read_type j json_object >>= receiver_of_type json_object

    unfoldable pub from_json : j.Value → Throws SessionConfig
    from_json json_object = do
      receiver ← read_field j receiver_from_json json_object (codes "receiver")
      max_datagram_size ←
          read_field_or j decoder_from_json json_object (codes "decoder") default_max_datagram_size
      value (record { receiver = receiver; max_datagram_size = max_datagram_size })
