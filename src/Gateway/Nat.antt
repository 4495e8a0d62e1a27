-- ===== src/Gateway/Nat.antt =====
-- pkg/controller/gateway/nat.go: the nftables configuration of a gateway. The rules are values
-- before they are printed. `sort.Slice` is a parameter, since it leaves the order of rules of one
-- priority open.
pub mod Verdicts
pub mod Postrouting
mod Tests
use roks_vpc_cni.Base.{
  ◌||◌, ◌&&◌, not, ltb, Bool, true, false, Option, none, some, List, [], ◌∷◌, ◌++◌, map,
  if◌then◌else◌,
}
use roks_vpc_cni.Text.{Str, codes, str_eq, split2}
use roks_vpc_cni.Text.Integers.{ℤ, pos, negsuc, decimal_int}

pub record SnatRule : Type 0 where
  pub source : Str
  pub translated_address : Str
  pub priority : ℤ

pub record DnatRule : Type 0 where
  pub external_address : Str
  pub external_port : ℤ
  pub internal_address : Str
  pub internal_port : ℤ
  pub protocol : Str
  pub priority : ℤ

pub record NoNatRule : Type 0 where
  pub source : Str
  pub destination : Str
  pub priority : ℤ

pub record GatewayNat : Type 0 where
  pub snat : List SnatRule
  pub dnat : List DnatRule
  pub no_nat : List NoNatRule

-- A rule of the postrouting chain: a source and a destination that are accepted as they are, or a
-- source that is translated to an address.
pub data Rule : Type 0 where
  accept : Str → Str → Rule
  translate : Str → Str → Rule

unfoldable pub rule_text : Rule → Str
rule_text (accept source destination) =
    codes "    ip saddr "
    ++ (source ++ (codes " ip daddr " ++ (destination ++ (codes " counter accept" ++ 10 ∷ []))))
rule_text (translate source address) =
    codes "    ip saddr " ++ (source ++ (codes " counter snat to " ++ (address ++ 10 ∷ [])))

-- `rule.Protocol`, or tcp where it is empty
unfoldable pub protocol_of : DnatRule → Str
protocol_of r = if str_eq r.protocol [] then codes "tcp" else r.protocol

unfoldable pub dnat_text : DnatRule → Str
dnat_text r =
    codes "    "
    ++ ((if str_eq r.external_address []
          then []
          else codes "ip daddr " ++ (r.external_address ++ codes " "))
        ++ (protocol_of r
            ++ (codes " dport "
                ++ (decimal_int r.external_port
                    ++ (codes " counter dnat to "
                        ++ (r.internal_address
                            ++ (b':' ∷ decimal_int r.internal_port ++ 10 ∷ [])))))))

unfoldable pub concat : List Str → Str
concat [] = []
concat (s ∷ ss) = s ++ concat ss

-- The first part of strings.SplitN(cidr, "/", 2).
unfoldable pub first_ip_from_cidr : Str → Str
first_ip_from_cidr cidr = elim (split2 b'/' cidr) [ none ↦ cidr | some (ip, rest) ↦ ip ]

-- The variadic argument: its first element counts, if it is there.
unfoldable pub default_address : Str → List Str → Str
default_address vni_ip [] = vni_ip
default_address vni_ip (par_cidr ∷ rest) =
    if not (str_eq par_cidr []) && not (str_eq (first_ip_from_cidr par_cidr) [])
    then first_ip_from_cidr par_cidr
    else vni_ip

unfoldable pub accept_rule : NoNatRule → Rule
accept_rule r = accept r.source r.destination

unfoldable pub translate_rule : Str → SnatRule → Rule
translate_rule address r =
    translate r.source (if str_eq r.translated_address [] then address else r.translated_address)

abbrev pub is_empty : {A : Type 0} → List A → Bool
is_empty [] = true
is_empty (x ∷ xs) = false

module _ (sort : (A : Type 0) → (A → ℤ) → List A → List A) where
  unfoldable pub no_nat_rules : List NoNatRule → List Rule
  no_nat_rules [] = []
  no_nat_rules (r ∷ rs) = map accept_rule (sort NoNatRule (λ r. r.priority) (r ∷ rs))

  unfoldable pub snat_rules : Str → List SnatRule → List Rule
  snat_rules address [] = []
  snat_rules address (r ∷ rs) =
      map (translate_rule address) (sort SnatRule (λ r. r.priority) (r ∷ rs))

  -- The rules of the postrouting chain, in their order.
  unfoldable pub postrouting_rules : GatewayNat → Str → List Rule
  postrouting_rules nat address = no_nat_rules nat.no_nat ++ snat_rules address nat.snat

  unfoldable pub prerouting_chain : GatewayNat → Str
  prerouting_chain nat =
      if is_empty nat.dnat
      then []
      else codes "  chain prerouting {"
        ++ (10
            ∷ (codes "    type nat hook prerouting priority -100; policy accept;"
                ++ (10
                    ∷ (concat (map dnat_text (sort DnatRule (λ r. r.priority) nat.dnat))
                        ++ (codes "  }" ++ 10 ∷ [])))))

  unfoldable pub postrouting_chain : GatewayNat → Str → Str
  postrouting_chain nat address =
      if is_empty nat.snat && is_empty nat.no_nat
      then []
      else codes "  chain postrouting {"
        ++ (10
            ∷ (codes "    type nat hook postrouting priority 100; policy accept;"
                ++ (10
                    ∷ (concat (map rule_text (postrouting_rules nat address))
                        ++ (codes "  }" ++ 10 ∷ [])))))

  -- `none` is a nil specification.
  unfoldable pub generate_nftables_config : Option GatewayNat → Str → List Str → Str
  generate_nftables_config none vni_ip par_cidr = []
  generate_nftables_config (some nat) vni_ip par_cidr =
      if is_empty nat.dnat && is_empty nat.snat && is_empty nat.no_nat
      then []
      else codes "table ip nat {"
        ++ (10
            ∷ (prerouting_chain nat
                ++ (postrouting_chain nat (default_address vni_ip par_cidr)
                    ++ (codes "}" ++ 10 ∷ []))))
