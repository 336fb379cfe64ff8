-- ===== src/Gateway.antt =====
-- ai_inference/gateway: who may submit what, and when.
pub mod Admission
pub mod Tenant
pub mod Auth
pub mod Api
