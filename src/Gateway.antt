-- ===== src/Gateway.antt =====
-- lib/gateway: the WebSocket client of the bot gateway.
pub mod Client
