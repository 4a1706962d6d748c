-- ===== src/Gateway.antt =====
-- market_server/order_gateway: what a gateway knows of its clients and how it admits their orders.
pub mod Client
pub mod Risk
pub mod Buffer
pub mod Writer
pub mod Router
pub mod Server
pub mod Connections
mod Tests
