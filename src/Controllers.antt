-- ===== src/Controllers.antt =====
-- The controllers of pkg/controller that keep one VPC resource for each custom resource. `Effects`
-- has what they share: the calls that they make and the answers that they get.
pub mod Logged
pub mod Effects
pub mod Trace
pub mod History
pub mod Lifecycle
pub mod Vni
pub mod VlanAttachments
pub mod FloatingIps
pub mod VpcSubnets
pub mod Nodes
pub mod Machines
pub mod Definitions
