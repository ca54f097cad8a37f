-- ===== src/Payments/Services.antt =====
-- app/domain/payments/services.py, in three parts.
pub mod Initiate
pub mod Transition
pub mod Lines
