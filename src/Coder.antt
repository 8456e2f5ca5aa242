-- ===== src/Coder.antt =====
-- The package coder.
pub mod Keys
pub mod Protocol
pub mod KeySchedule
pub mod Stream
pub mod Packet
pub mod Loops
pub mod ByteMaps
pub mod Buffers
pub mod Stamp
pub mod InStep
pub mod Downstream
pub mod Upstream
pub mod RoundTrip
pub mod Session
pub mod Client
pub mod Server
