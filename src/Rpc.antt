-- ===== src/Rpc.antt =====
-- src/adapters/pi-rpc: the client of a process that speaks JSON lines.
pub mod Model
pub mod Requests
pub mod Responses
pub mod Client
pub mod Count
pub mod Valid
mod Reading
mod Bytes
pub mod Once
pub mod Frames
mod Tests
