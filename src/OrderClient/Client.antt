-- ===== src/OrderClient/Client.antt =====
-- src/order_client/src/client.cpp: a request, encoded and sent as a datagram.
pub mod Delivery
use cpp_demo_build.Prelude.{Option, Bytes}
use cpp_demo_build.Lab.Json.{Json}
use cpp_demo_build.OrderEntry.Messages.{Request}
use cpp_demo_build.OrderClient.JsonEncoder.{encode}
use cpp_demo_build.OrderClient.UdpSender.{UdpSender, Answers, SenderError, send}

module _ (j : Json) where
  -- `client::send`, whose overloads differ in what they encode.
  unfoldable pub send_request : UdpSender → Answers → Request → Option SenderError × UdpSender
  send_request sender answers request = send sender answers (encode j request)
