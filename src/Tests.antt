-- ===== src/Tests.antt =====
-- Runs of the model at concrete inputs, and the theorems at inputs where their hypotheses hold.
pub mod Cipher
pub mod RecordLayer
mod Handshakes
mod Queues
mod Proxies
pub mod Codecs
pub mod Publishers
pub mod Network
pub mod Programs
mod Endpoints
mod Adapters
mod Vehicles
