-- ===== src/Signal.antt =====
-- Signals: `Types` for kernel/src/signal/types.rs, `Delivery` for kernel/src/signal/delivery.rs.
pub mod Types
pub mod Delivery
