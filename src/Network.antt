-- ===== src/Network.antt =====
-- pkg/controller/network: what the controllers of the two kinds of network share.
pub mod Attachments
pub mod Servers
pub mod Cidr
pub mod Names
pub mod Objects
pub mod Subnets
pub mod Vlans
pub mod Samples
