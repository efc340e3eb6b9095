-- ===== src/Wire.antt =====
-- server/adapters/wss: the runner's WebSocket channel, and the output that it brings.
pub mod TokenBucket
pub mod SendQueue
pub mod Registry
pub mod Protocol
pub mod LiveOutput
