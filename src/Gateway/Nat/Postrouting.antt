-- ===== src/Gateway/Nat/Postrouting.antt =====
-- What the postrouting chain of a specification does to a packet.
use roks_vpc_cni.Base.{◌≡◌, refl, ◌&&◌, Bool, true, List, [], ◌∷◌, ◌++◌}
use roks_vpc_cni.Text.{Str}
use roks_vpc_cni.Text.Integers.{ℤ}
use roks_vpc_cni.Gateway.Nat.{
  SnatRule, NoNatRule, GatewayNat, Rule, no_nat_rules, snat_rules, postrouting_rules,
}
use roks_vpc_cni.Gateway.Nat.Verdicts.{
  In, Sorts, accepted, verdict, Exempts, accepts_first, none_apply, Decides, translates_first,
}

module _ (sort : (A : Type 0) → (A → ℤ) → List A → List A) (law : Sorts sort)
    (covers : Str → Str → Bool) (source destination : Str) (nat : GatewayNat) (address : Str) where
  abbrev chain : List Rule
  chain = postrouting_rules sort nat address

  no_nat_accepts :
      (rs : List NoNatRule) (tail : List Rule) (r : NoNatRule)
      → In r rs
      → Exempts covers source destination r
      → verdict covers source destination (no_nat_rules sort rs ++ tail) ≡ accepted
  unfolding no_nat_rules
  no_nat_accepts [] tail r i e = elim i [ ]
  no_nat_accepts (s ∷ rs) tail r i e =
      accepts_first covers source destination r (sort NoNatRule (λ r. r.priority) (s ∷ rs)) tail
        (law.keeps NoNatRule (λ r. r.priority) r (s ∷ rs) i) e

  no_nat_passes :
      (rs : List NoNatRule) (tail : List Rule)
      → ((r : NoNatRule) → In r rs → Exempts covers source destination r → ⊥)
      → verdict covers source destination (no_nat_rules sort rs ++ tail)
        ≡ verdict covers source destination tail
  unfolding no_nat_rules
  no_nat_passes [] tail h = refl
  no_nat_passes (s ∷ rs) tail h =
      none_apply covers source destination (sort NoNatRule (λ r. r.priority) (s ∷ rs)) tail
        (λ r i. h r (law.adds_none NoNatRule (λ r. r.priority) r (s ∷ rs) i))

  -- The rules of the listing that decide are those of its sorted form.
  snat-Decides :
      (rules : List SnatRule) (r : SnatRule)
      → In r rules
      → covers r.source source ≡ true
      → (s : SnatRule) × Decides covers source destination address rules
          (verdict covers source destination (snat_rules sort address rules))
          s
  unfolding snat_rules
  snat-Decides [] r i e = elim i [ ]
  snat-Decides (q ∷ rules) r i e =
      let key : SnatRule → ℤ = λ r. r.priority in
      let (s, d) =
        translates_first covers source destination address (sort SnatRule key (q ∷ rules)) r
          (law.sorted SnatRule key (q ∷ rules)) (law.keeps SnatRule key r (q ∷ rules) i) e in
      (
        s,
        record {
          listed = law.adds_none SnatRule key s (q ∷ rules) d.listed;
          covered = d.covered;
          decided = d.decided;
          least = λ s' j c. d.least s' (law.keeps SnatRule key s' (q ∷ rules) j) c;
        },
      )

-- A packet whose source and destination some exemption of the specification covers is accepted as it
-- is by the postrouting chain, whatever rules translate its source. The rules are sorted as sort.Slice documents.
pub exempt_accepted :
    (sort : (A : Type 0) → (A → ℤ) → List A → List A)
    → Sorts sort
    → (covers : Str → Str → Bool) (source destination : Str) (nat : GatewayNat) (address : Str)
      (r : NoNatRule)
    → In r nat.no_nat
    → (covers r.source source && covers r.destination destination) ≡ true
    → verdict covers source destination (postrouting_rules sort nat address) ≡ accepted
unfolding postrouting_rules
exempt_accepted sort law covers source destination nat address r i e =
    no_nat_accepts sort law covers source destination nat address nat.no_nat
      (snat_rules sort address nat.snat) r i e

-- A packet that no exemption covers and some translation rule does is translated by a rule of the
-- specification that covers its source and has the least priority number of those that do, to the
-- address of that rule, or to the default address if the rule has none. The rules are sorted as
-- sort.Slice documents.
pub translated_by_least :
    (sort : (A : Type 0) → (A → ℤ) → List A → List A)
    → Sorts sort
    → (covers : Str → Str → Bool) (source destination : Str) (nat : GatewayNat) (address : Str)
      (r : SnatRule)
    → ((q : NoNatRule)
        → In q nat.no_nat
        → (covers q.source source && covers q.destination destination) ≡ true
        → ⊥)
    → In r nat.snat
    → covers r.source source ≡ true
    → (s : SnatRule) × Decides covers source destination address nat.snat
        (verdict covers source destination (postrouting_rules sort nat address))
        s
unfolding postrouting_rules
translated_by_least sort law covers source destination nat address r none_exempts i e =
    rw
      (no_nat_passes sort law covers source destination nat address nat.no_nat
        (snat_rules sort address nat.snat) none_exempts)
      (snat-Decides sort law covers source destination nat address nat.snat r i e)
