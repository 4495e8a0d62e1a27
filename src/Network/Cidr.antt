-- ===== src/Network/Cidr.antt =====
-- cidrFitsPrefix of pkg/controller/network/helpers.go: whether a network's CIDR lies within one of
-- the address prefixes of its VPC. `net.ParseCIDR` is a parameter.
pub mod Powers
pub mod Containment
mod Tests
use roks_vpc_cni.Base.{
  ℕ, ◌-◌, ◌/◌, ◌^◌, Bool, true, false, ◌&&◌, ◌||◌, Option, none, some, List, [], ◌∷◌, ◌==◌, leb,
}
use roks_vpc_cni.Text.{Str}

-- net.IPNet: the width of its addresses (32 or 128), the network address as a number, and the
-- length of the mask. An IPv4 address in the notation of IPv6, as in ::ffff:10.0.0.0/120, which
-- net.IPNet.Contains reads as one of 32 bits, is left out: it stays one of 128 bits here.
pub record IpNet : Type 0 where
  pub bits : ℕ
  pub ip : ℕ
  pub ones : ℕ

-- vpc.AddressPrefix, as far as it is read here.
pub record AddressPrefix : Type 0 where
  pub cidr : Str
  pub zone : Str

-- What is left of an address under a mask of this length.
abbrev pub network_part : ℕ → ℕ → ℕ → ℕ
network_part bits ones ip = ip / 2 ^ (bits - ones)

-- net.IPNet.Contains of an address of this width
unfoldable pub net_contains : IpNet → ℕ → ℕ → Bool
net_contains n bits ip =
    n.bits == bits && network_part bits n.ones ip == network_part bits n.ones n.ip

-- the condition of the loop, for one prefix
unfoldable pub prefix_fits : IpNet → IpNet → Bool
prefix_fits subnet p = net_contains p subnet.bits subnet.ip && leb p.ones subnet.ones

module _ (parse_cidr : Str → Option IpNet) where
  -- the loop over the prefixes
  unfoldable pub some_prefix_fits : IpNet → List AddressPrefix → Bool
  some_prefix_fits subnet [] = false
  some_prefix_fits subnet (p ∷ ps) = elim (parse_cidr p.cidr) [
    | none ↦ some_prefix_fits subnet ps
    | some n ↦ prefix_fits subnet n || some_prefix_fits subnet ps
  ]

  unfoldable pub cidr_fits_prefix : Str → List AddressPrefix → Bool
  cidr_fits_prefix cidr prefixes = elim (parse_cidr cidr) [
    | none ↦ false
    | some subnet ↦ some_prefix_fits subnet prefixes
  ]
