-- ===== src/Gateway.antt =====
-- gateway/src: the gRPC front door, its circuit breaker and the WebSocket hubs.
pub mod Base64
pub mod Breaker
pub mod WsHub
pub mod Signaling
pub mod Frames
pub mod Http
