-- ===== src/Core/Plan/Final.antt =====
-- What a finalized receipt guarantees.
pub mod Parts
pub mod Binding
pub mod Status
pub mod Total
