-- ===== src/Network/Cidr/Tests.antt =====
-- Prefix tests on IPv4 networks.
use roks_vpc_cni.Base.{◌≡◌, refl, ◌↔◌, true, Option, none, some, [], ◌∷◌, arith, if◌then◌else◌}
use roks_vpc_cni.Text.{Str, codes, str_eq}
use roks_vpc_cni.Network.Cidr.{
  IpNet, AddressPrefix, net_contains, prefix_fits, some_prefix_fits, cidr_fits_prefix,
}
use roks_vpc_cni.Network.Cidr.Containment.{CidrHolds, ParsesNets, cidr_fits_iff_contained}

-- A parser that knows two networks.
abbrev sample_parser : Str → Option IpNet
sample_parser c =
    if str_eq c (codes "10.240.1.0/24")
    then some (record { bits = 32; ip = 0x0af00100; ones = 24 })
    else if str_eq c (codes "10.240.0.0/16")
    then some (record { bits = 32; ip = 0x0af00000; ones = 16 })
    else none

abbrev wide : AddressPrefix
wide = record { cidr = codes "10.240.0.0/16"; zone = codes "us-south-1" }

narrow_fits : cidr_fits_prefix sample_parser (codes "10.240.1.0/24") (wide ∷ []) ≡ true
unfolding cidr_fits_prefix some_prefix_fits prefix_fits net_contains str_eq
narrow_fits = refl

sample_parser-ParsesNets : ParsesNets sample_parser
sample_parser-ParsesNets c n e = ground (arith, e)

cidr_fits_iff_contained_example :
    (cidr_fits_prefix sample_parser (codes "10.240.1.0/24") (wide ∷ []) ≡ true)
    ↔ CidrHolds sample_parser (sample_parser (codes "10.240.1.0/24")) (wide ∷ [])
cidr_fits_iff_contained_example =
    cidr_fits_iff_contained sample_parser (codes "10.240.1.0/24") (wide ∷ [])
      sample_parser-ParsesNets
