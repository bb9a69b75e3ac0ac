-- ===== src/OrderClient.antt =====
-- src/order_client: the client of the order-entry wire protocol.
pub mod JsonEncoder
pub mod UdpSender
pub mod Client
