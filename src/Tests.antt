-- ===== src/Tests.antt =====
-- The theorems at concrete inputs.
pub mod Data
pub mod Services
pub mod Alone
pub mod Idempotency
pub mod Others
pub mod Qr
pub mod Api
pub mod Races
