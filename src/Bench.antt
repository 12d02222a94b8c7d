-- ===== src/Bench.antt =====
-- apps/server/bench: the WebSocket client that the benchmarks talk to the server with.
pub mod Frame
pub mod Socket
pub mod Connect
