-- ===== src/Gateway.antt =====
-- pkg/controller/gateway: what a gateway's pod is configured with, and the deletion of a gateway.
pub mod Nat
pub mod Deletion
