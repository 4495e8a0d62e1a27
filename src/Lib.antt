-- ===== src/Lib.antt =====
-- The VPC network operator for ROKS (roks-vpc-network-operator): a verification library for its
-- controllers and helpers, which are written in Go.
--
-- The operator keeps IBM Cloud VPC resources (subnets, VLAN attachments, virtual network
-- interfaces, floating IPs, routes) in step with Kubernetes objects. Each controller reads one
-- object, calls the VPC interface, and writes annotations or a status; a finalizer keeps an
-- object until its resources are deleted; the orphan collector deletes what no object refers to.
-- The Kubernetes and VPC interfaces are not modelled: their answers are parameters, and may be
-- any.
--
-- Files and the code that they model, paths below roks-vpc-network-operator:
-- - Base, Text, Dict: numbers, lists, Go strings as sequences of bytes with the functions of
--   package strings that are used, and Go maps as association lists. White space is that of
--   ASCII.
-- - Gc: pkg/gc/orphan_collector.go. World holds the lists that a run sees and the log of its
--   deletions; Names, References and Collector have one definition for each function and loop of
--   the file; FloatingIpObjects is the status type of api/v1alpha1/floatingip_types.go as the
--   collector reads it.
-- - Controllers: Effects has the calls of a reconciler as a trace in which each answer may depend
--   on all calls before; Trace reads a trace back; History is any sequence of runs with edits
--   between them. Lifecycle is what the reconcilers of single VPC resources have in common, with
--   a definition for each function and for the parts between its early returns, over a record of
--   what differs between them; Vni (pkg/controller/vni/reconciler.go), VlanAttachments
--   (pkg/controller/vlanattachment/reconciler.go) and FloatingIps
--   (pkg/controller/floatingip/reconciler.go) are its instances, and VpcSubnets
--   (pkg/controller/vpcsubnet/reconciler.go) uses its parts around a read of the subnet.
-- - Network: pkg/controller/network/helpers.go. Attachments is the annotation of the VLAN
--   attachments, Names the limits on names, Cidr the test of a CIDR against the prefixes of a
--   VPC, Servers the bare metal server of a node. Objects has the network objects, the calls that
--   the file makes and the answers; Subnets is EnsureVPCSubnet with SubnetHasActiveVNIs and
--   DeleteVPCSubnet, and Vlans is EnsureVLANAttachments with DeleteVLANAttachments, each with a
--   definition for every part between two answers.
-- - Controllers/Nodes: pkg/controller/node/reconciler.go, over the definitions of Network for the
--   helpers that it copies.
-- - Controllers/Definitions: pkg/controller/cudn/reconciler.go and
--   pkg/controller/udn/reconciler.go over the definitions of Network, with
--   pkg/controller/network/nncp.go.
-- - Controllers/Machines: pkg/controller/vm/reconciler.go, the deletion of a machine's resources
--   (Released) and the drift check (Renames).
-- - Webhook: pkg/webhook/vm_mutating.go. Json is a decoded document with the functions of the
--   file on it, Networks finds the networks of a machine and what is known of them, CloudInit
--   writes the network configuration, and Admission is Handle with what it calls;
--   Admission/Cleanup joins it to the VM controller.
-- - Vpc/Limiter: pkg/vpc/ratelimiter.go with the methods of the client as its callers, as a step
--   relation; pkg/vpc/vni.go, where CreateVNI calls UpdateVNI, for the nested calls.
-- - Gateway/Deletion: reconcileDelete and deletePAR of pkg/controller/gateway/reconciler.go;
--   Clears says of each part what it settles.
-- - Gateway/Nat: pkg/controller/gateway/nat.go. The rules are values that rule_text and dnat_text
--   print; Verdicts says what a chain of such rules does to a packet, where whether an address in
--   a rule covers one of a packet is a parameter, as it is decided by nftables.
--
-- Loops over lists are structural recursions, so no fuel is needed, but in the printing of
-- numbers, where n + 1 rounds are more than n has digits.
--
-- Not modelled: logging, the messages of events, resource versions and conflicts of the API
-- server other than as failed updates, time but for the stamps of a status; SHA-256,
-- encoding/json and net.ParseCIDR, which are parameters, as is sort.Slice; CIDRs of IPv4
-- addresses in the notation of IPv6, which net.IPNet.Contains reads as IPv4. A JSON document of
-- the webhook comes decoded, and the messages of its responses are left out.
pub mod Base
pub mod Text
pub mod Dict
pub mod Network
pub mod Gc
pub mod Controllers
pub mod Gateway
pub mod Webhook
pub mod Vpc
