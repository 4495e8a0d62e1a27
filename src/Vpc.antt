-- ===== src/Vpc.antt =====
-- pkg/vpc: what the client of the VPC interface adds to the calls of the SDK.
pub mod Limiter
