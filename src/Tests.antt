-- ===== src/Tests.antt =====
-- The theorems at concrete inputs, over a small arithmetic in place of the platform's.
pub mod Samples
mod Stores
mod Rules
mod Forms
mod Files
mod Brokers
mod Requests
mod Exports
mod Sampling
mod Processes
mod Streams
mod Mounted
mod Lines
mod Entities
mod Answers
mod Arrivals
mod Readings
mod Pages
