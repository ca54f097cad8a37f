-- ===== src/Qr.antt =====
-- app/infra/qr/sgqr.py: payment QR codes. Text is a list of code points.
pub mod Python
pub mod Tlv
pub mod Checksum
pub mod Sgqr
mod Slices
mod RoundTrip
mod Fields
mod Xor
mod Detection
pub mod Corruption
pub mod Rounds
pub mod Guarantees
pub mod Errors
