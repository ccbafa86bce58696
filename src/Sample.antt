-- ===== src/Sample.antt =====
-- A small platform that keeps the laws, and the theorems at concrete inputs of it. Its
-- cryptography is no cryptography: it shows that the assumptions can hold together.
pub mod Primitives
pub mod Machine
pub mod Lawful
mod Handshakes
mod Runs
mod Endpoints
mod Frames
mod Keys
mod Channels
mod Crossed
mod Streams
mod Returns
mod Servers
mod Refused
mod Attributed
mod Goroutines
