-- ===== src/OrderEntry/Runtime/ConfigRoundTrip.antt =====
-- The configuration of the order-entry composer, written as JSON and read again.
use cpp_demo_build.Prelude.{ℕ, ◌<◌, ◌≡◌, ◌^◌, ◌%◌, refl, codes, u64_mod, eqb, arith, ap}
use cpp_demo_build.Prelude.Throws.{value}
use cpp_demo_build.Lab.Json.{Json}
use cpp_demo_build.Lab.Json.Fields.{
  JsonItems, has_described_field, read_field-object, read_field_or-object, read_type-object,
  reject_unknown_fields-object,
}
use cpp_demo_build.Lab.Network.{EndpointConfig}
use cpp_demo_build.OrderEntry.Runtime.{ReceiverConfig, asio_udp, ef_vi_udp, SessionConfig}
use cpp_demo_build.OrderEntry.Runtime.Config.{
  endpoint_names, endpoint_fields, get_port, endpoint_to_json, receiver_to_json, decoder_to_json,
  to_json, decoder_of_type, decoder_from_json, endpoint_from_json, receiver_of_type,
  receiver_from_json, from_json,
}

abbrev pub endpoint_of : ReceiverConfig → EndpointConfig
endpoint_of (asio_udp endpoint) = endpoint
endpoint_of (ef_vi_udp endpoint) = endpoint

port_kept : (n : ℕ) → n < 2 ^ 16 → n % 2 ^ 16 ≡ n
port_kept n h = omega arith

module _ (j : Json) where
  get_port-of_number : (n : ℕ) → n < 2 ^ 16 → get_port j (j.of_number n) ≡ value n
  unfolding get_port
  get_port-of_number n h = rw (j.get_number-of_number n (omega arith)) (ap value (port_kept n h))

  decoder_from_json-decoder_to_json :
      (n : ℕ) → n < u64_mod → decoder_from_json j (decoder_to_json j n) ≡ value n
  unfolding decoder_from_json decoder_to_json decoder_of_type eqb
  decoder_from_json-decoder_to_json n h = rw (read_type-object j _ (codes "json") refl) (
      read_field_or-object j j.get_number _ (codes "max_datagram_size") (j.of_number n) n _ refl
        (j.get_number-of_number n h))

  module _ (i : JsonItems j) where
    endpoint_from_json-endpoint_to_json :
        (c : EndpointConfig)
        → c.port < 2 ^ 16
        → endpoint_from_json j i (endpoint_to_json j c) ≡ value c
    unfolding endpoint_from_json endpoint_to_json has_described_field eqb
    endpoint_from_json-endpoint_to_json c h =
        rw
          (
            reject_unknown_fields-object j i endpoint_names (endpoint_fields j c)
                (refl, (refl, tt)),
            read_field-object j j.get_string _ (codes "address") (j.of_string c.address) c.address
                refl (j.get_string-of_string c.address),
            read_field-object j (get_port j) _ (codes "port") (j.of_number c.port) c.port refl
                (get_port-of_number c.port h),
          )
          refl

    receiver_from_json-receiver_to_json :
        (c : ReceiverConfig)
        → (endpoint_of c).port < 2 ^ 16
        → receiver_from_json j i (receiver_to_json j c) ≡ value c
    unfolding receiver_from_json receiver_to_json receiver_of_type eqb
    receiver_from_json-receiver_to_json (asio_udp endpoint) h =
        rw
          (
            read_type-object j _ (codes "asio_udp") refl,
            read_field-object j (endpoint_from_json j i) _ (codes "endpoint")
                (endpoint_to_json j endpoint) endpoint refl
                (endpoint_from_json-endpoint_to_json endpoint h),
          )
          refl
    receiver_from_json-receiver_to_json (ef_vi_udp endpoint) h =
        rw
          (
            read_type-object j _ (codes "ef_vi_udp") refl,
            read_field-object j (endpoint_from_json j i) _ (codes "endpoint")
                (endpoint_to_json j endpoint) endpoint refl
                (endpoint_from_json-endpoint_to_json endpoint h),
          )
          refl

    -- A configuration whose port is a word of 16 bits and whose limit is one of 64 is read back from
    -- the JSON that is written of it.
    pub from_json-to_json :
        (c : SessionConfig)
        → (endpoint_of c.receiver).port < 2 ^ 16
        → c.max_datagram_size < u64_mod
        → from_json j i (to_json j c) ≡ value c
    unfolding from_json to_json eqb
    from_json-to_json c port limit =
        rw
          (
            read_field-object j (receiver_from_json j i) _ (codes "receiver")
                (receiver_to_json j c.receiver) c.receiver refl
                (receiver_from_json-receiver_to_json c.receiver port),
            read_field_or-object j (decoder_from_json j) _ (codes "decoder")
                (decoder_to_json j c.max_datagram_size) c.max_datagram_size _ refl
                (decoder_from_json-decoder_to_json c.max_datagram_size limit),
          )
          refl
