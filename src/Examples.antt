-- ===== src/Examples.antt =====
-- Concrete inputs for the theorems.
mod Breaker
mod Tenants
mod Models
mod Stores
mod Batches
mod Intake
mod Gateway
mod Upkeep
