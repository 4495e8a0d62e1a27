-- ===== src/Network/Cidr/Containment.antt =====
-- `cidr_fits_prefix` says exactly that every address of the network is one of a prefix.
use roks_vpc_cni.Base.{
  ℕ, ◌-◌, ◌*◌, ◌/◌, ◌^◌, ◌≤◌, ◌<◌, ◌≡◌, ◌↔◌, ◌⊎◌, refl, sym, ap, ◌∙◌, Bool, true, false, Option,
  none, some, List, [], ◌∷◌, arith, Any, ◌||◌,
}
use native.Mathlib.Decide.{dec_le}
use mathlib.Core.Path.{subst}
use roks_vpc_cni.Text.{Str}
use roks_vpc_cni.Network.Cidr.{
  IpNet, AddressPrefix, net_contains, prefix_fits, some_prefix_fits, cidr_fits_prefix,
}
use roks_vpc_cni.Network.Cidr.Powers.{pow_pos, pow_split, two-le-pow, coarser, finer_splits}

-- The numbers that have the network's leading bits.
abbrev pub InNet : IpNet → ℕ → Type 0
InNet n a = a / 2 ^ (n.bits - n.ones) ≡ n.ip / 2 ^ (n.bits - n.ones)

-- Every address of the network is one of the prefix, of the same family.
abbrev pub IsWithin : IpNet → IpNet → Type 0
IsWithin s p = (p.bits ≡ s.bits) × ((a : ℕ) → InNet s a → InNet p a)

-- The length of the mask is at most the width of the address, and the address is masked.
abbrev pub IsNet : IpNet → Type 0
IsNet n = n.ones ≤ n.bits

module _ (b : ℕ) where
  -- a block with a longer mask in the block of its first address with a shorter one
  shorter_mask :
      (s p a i j : ℕ)
      → p ≤ s
      → s ≤ b
      → i / 2 ^ (b - p) ≡ j / 2 ^ (b - p)
      → a / 2 ^ (b - s) ≡ i / 2 ^ (b - s)
      → a / 2 ^ (b - p) ≡ j / 2 ^ (b - p)
  shorter_mask s p a i j le fits same h =
      let split : 2 ^ (b - p) ≡ 2 ^ (b - s) * 2 ^ (b - p - (b - s)) =
        pow_split (b - s) (b - p) (omega arith) in
      (ap (λ n. a / n) split
        ∙ coarser (2 ^ (b - s)) (2 ^ (b - p - (b - s))) a i h
        ∙ ap (λ n. i / n) (sym split))
      ∙ same

  -- a block is in no block with a longer mask
  longer_mask :
      (s p i j : ℕ)
      → s < p
      → p ≤ b
      → ((a : ℕ) → a / 2 ^ (b - s) ≡ i / 2 ^ (b - s) → a / 2 ^ (b - p) ≡ j / 2 ^ (b - p))
      → ⊥
  longer_mask s p i j lt fits all =
      let d = 2 ^ (b - p) in
      let k = 2 ^ (b - s - (b - p)) in
      let split : 2 ^ (b - s) ≡ d * k = pow_split (b - p) (b - s) (omega arith) in
      finer_splits d k i j (pow_pos (b - p)) (two-le-pow (b - s - (b - p)) (omega arith))
        (λ a h. all a (ap (λ n. a / n) split ∙ h ∙ ap (λ n. i / n) (sym split)))

-- The test as a statement about the two blocks, at the width of the network.
abbrev Fits : IpNet → IpNet → Type 0
Fits s p =
    (p.bits ≡ s.bits)
    × (p.ones ≤ s.ones)
    × (s.ip / 2 ^ (s.bits - p.ones) ≡ p.ip / 2 ^ (s.bits - p.ones))

prefix_fits-Fits : (s p : IpNet) → (prefix_fits s p ≡ true) ↔ Fits s p
unfolding prefix_fits net_contains
prefix_fits-Fits s p = ground arith

Fits-IsWithin : (s p : IpNet) → IsNet s → Fits s p → IsWithin s p
Fits-IsWithin s p hs f = (
  f.0,
  λ a h.
      subst (λ b. a / 2 ^ (b - p.ones) ≡ p.ip / 2 ^ (b - p.ones)) (sym f.0)
        (shorter_mask s.bits s.ones p.ones a s.ip p.ip f.1 hs f.2 h),
)

IsWithin-Fits : (s p : IpNet) → IsNet p → IsWithin s p → Fits s p
IsWithin-Fits s p hp w = (w.0, shorter, at_width s.ip refl)
  where
    at_width : (a : ℕ) → InNet s a → a / 2 ^ (s.bits - p.ones) ≡ p.ip / 2 ^ (s.bits - p.ones)
    at_width a h = subst (λ b. a / 2 ^ (b - p.ones) ≡ p.ip / 2 ^ (b - p.ones)) w.0 (w.1 a h)

    shorter : p.ones ≤ s.ones
    shorter = elim (dec_le p.ones s.ones) [
      | yes le ↦ le
      | no more ↦
          absurd
            (longer_mask s.bits s.ones p.ones s.ip p.ip (omega arith) (omega (arith, w.0)) at_width)
    ]

prefix_fits_iff : (s p : IpNet) → IsNet s → IsNet p → (prefix_fits s p ≡ true) ↔ IsWithin s p
prefix_fits_iff s p hs hp =
    let e = prefix_fits-Fits s p in
    (λ h. Fits-IsWithin s p hs (e.0 h), λ w. e.1 (IsWithin-Fits s p hp w))

module _ (parse_cidr : Str → Option IpNet) where
  -- What is parsed has a mask that is no longer than an address.
  abbrev pub ParsesNets : Type 0
  ParsesNets = (c : Str) (n : IpNet) → parse_cidr c ≡ some n → IsNet n

  -- The text parses to a network that the prefix contains.
  abbrev pub PrefixHolds : IpNet → Option IpNet → Type 0
  PrefixHolds s none = ⊥
  PrefixHolds s (some p) = IsWithin s p

  some_prefix_fits_iff :
      ParsesNets
      → (s : IpNet) (ps : List AddressPrefix) → IsNet s
      → (some_prefix_fits parse_cidr s ps ≡ true) ↔ Any (λ p. PrefixHolds s (parse_cidr p.cidr)) ps
  unfolding some_prefix_fits
  some_prefix_fits_iff nets s [] hs = ground arith
  some_prefix_fits_iff nets s (p ∷ ps) hs =
      step (parse_cidr p.cidr) (nets p.cidr) (some_prefix_fits_iff nets s ps hs)
    where
      step :
          {P : Type 0} {rest : Bool} (o : Option IpNet)
          → ((n : IpNet) → o ≡ some n → IsNet n)
          → ((rest ≡ true) ↔ P)
          → ((elim o [ none ↦ rest | some n ↦ prefix_fits s n || rest ]) ≡ true)
            ↔ (PrefixHolds s o ⊎ P)
      step none h iff = ground (arith, iff)
      step (some n) h iff = ground (arith, iff, prefix_fits_iff s n hs (h n refl))

  -- The text parses to a network that one of the prefixes contains.
  abbrev pub CidrHolds : Option IpNet → List AddressPrefix → Type 0
  CidrHolds none prefixes = ⊥
  CidrHolds (some s) prefixes = Any (λ p. PrefixHolds s (parse_cidr p.cidr)) prefixes

  -- A CIDR fits exactly if it parses to a network, and one of the prefixes parses to a network of
  -- the same family that has every address of the first. The parser gives no mask that is longer
  -- than an address.
  pub cidr_fits_iff_contained :
      (cidr : Str) (prefixes : List AddressPrefix)
      → ParsesNets
      → (cidr_fits_prefix parse_cidr cidr prefixes ≡ true) ↔ CidrHolds (parse_cidr cidr) prefixes
  unfolding cidr_fits_prefix
  cidr_fits_iff_contained cidr prefixes nets = by_parse (parse_cidr cidr) (nets cidr)
    where
      by_parse :
          (o : Option IpNet)
          → ((n : IpNet) → o ≡ some n → IsNet n)
          → ((elim o [ none ↦ false | some s ↦ some_prefix_fits parse_cidr s prefixes ]) ≡ true)
            ↔ CidrHolds o prefixes
      by_parse none h = ground arith
      by_parse (some s) h = some_prefix_fits_iff nets s prefixes (h s refl)
