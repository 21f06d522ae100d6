-- ===== src/Connectivity.antt =====
-- okx/connectivity: the client of a WebSocket, its limits, the signing of requests and the instruments.
pub mod Auth
pub mod Instrument
pub mod RateLimiter
pub mod ResponseDemux
pub mod Heartbeat
pub mod ReadLoop
pub mod WsClient
mod Tests
mod ClientTests
