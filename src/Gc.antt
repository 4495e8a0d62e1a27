-- ===== src/Gc.antt =====
-- pkg/gc/orphan_collector.go: the collector that deletes VPC resources which no Kubernetes object
-- refers to. `Names` reads the names of VNIs, `World` is what a run sees and what it does,
-- `References` builds the sets of resources in use, `Collector` is a run.
pub mod World
pub mod Names
pub mod References
pub mod Collector
