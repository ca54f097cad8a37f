-- ===== src/Payments.antt =====
-- app/domain/payments: the lifecycle and the services.
pub mod StateMachine
pub mod Services
pub mod Conservation
pub mod Atomicity
pub mod Alone
pub mod Guarantees
pub mod Raises
pub mod Races
