-- ===== src/Examples.antt =====
-- Concrete runs of the models, at which the theorems are applied.
pub mod Data
pub mod Dispatch
pub mod Admission
pub mod Reconciling
pub mod Passing
pub mod Answers
pub mod Metering
pub mod Streams
pub mod Holding
pub mod Listings
pub mod Registering
pub mod Tagging
