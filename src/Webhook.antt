-- ===== src/Webhook.antt =====
-- pkg/webhook/vm_mutating.go: the admission webhook that gives a new virtual machine its VPC
-- resources and writes them into the machine.
pub mod Json
pub mod Networks
pub mod CloudInit
pub mod Admission
