-- ===== src/Webhook/CloudInit.antt =====
-- pkg/webhook/vm_mutating.go: the network configuration that is written into the cloud-init volume.
use roks_vpc_cni.Base.{ℕ, suc, ◌==◌, ◌||◌, Option, none, some, List, [], ◌∷◌, ◌++◌, if◌then◌else◌}
use roks_vpc_cni.Text.{Str, codes, str_eq, split, to_lower, decimal}
use roks_vpc_cni.Webhook.Json.{
  Json, text, array, object, Fields, empty, get_key, put_key, as_object, array_of, get_nested_slice,
  put_nested,
}

-- localNetIPEntry
pub record LocalNetIp : Type 0 where
  pub ip : Str
  pub mac : Str
  pub name : Str

-- The first three numbers of an IPv4 address, where it has four parts.
unfoldable pub three_parts : List Str → Option (Str × (Str × Str))
three_parts (a ∷ b ∷ c ∷ d ∷ []) = some (a, (b, c))
three_parts (a ∷ b ∷ c ∷ d ∷ e ∷ ps) = none
three_parts (a ∷ b ∷ c ∷ []) = none
three_parts (a ∷ b ∷ []) = none
three_parts (a ∷ []) = none
three_parts [] = none

-- The address of the gateway.
unfoldable pub gateway_of : Str → Option Str
gateway_of ip = elim (three_parts (split b'.' ip)) [
  | none ↦ none
  | some (a, (b, c)) ↦ some (a ++ (b'.' ∷ b ++ (b'.' ∷ c ++ codes ".1")))
]

abbrev line : Str → Str
line s = s ++ b'\n' ∷ []

unfoldable pub default_route : ℕ → Str → Str
default_route i gateway =
    if i == 0
    then line (codes "    routes:")
      ++ (line (codes "      - to: 0.0.0.0/0") ++ line (codes "        via: " ++ gateway))
    else []

-- The lines of one interface, the one with index `i`.
unfoldable pub ethernet : ℕ → LocalNetIp → Str
ethernet i e = if str_eq e.ip [] || str_eq e.mac [] then [] else elim (gateway_of e.ip) [
  | none ↦ []
  | some gateway ↦
      let id = if str_eq e.name [] then codes "localnet" ++ decimal i else e.name in
      line (codes "  " ++ (id ++ codes ":"))
      ++ (line (codes "    match:")
          ++ (line (codes "      macaddress: \"" ++ (to_lower e.mac ++ codes "\""))
              ++ (line (codes "    addresses:")
                  ++ (line (codes "      - " ++ (e.ip ++ codes "/24"))
                      ++ default_route i gateway))))
]

unfoldable pub ethernets : ℕ → List LocalNetIp → Str
ethernets i [] = []
ethernets i (e ∷ es) = ethernet i e ++ ethernets (suc i) es

-- The volume with the configuration, where it is one of cloud-init.
unfoldable pub with_network_data : Str → Fields → Option Json
with_network_data config vol = elim (get_key (codes "cloudInitNoCloud") vol) [
  | none ↦ none
  | some v ↦
      let cloud_init : Fields = elim (as_object (some v)) [ none ↦ empty | some fs ↦ fs ] in
      some (
        object (
          put_key (codes "cloudInitNoCloud")
            (object (put_key (codes "networkData") (text config) cloud_init)) vol))
]

-- The first volume of cloud-init is changed; nothing where there is none.
unfoldable pub change_volume : Str → List Json → Option (List Json)
change_volume config [] = none
change_volume config (v ∷ vs) =
    let rest : Option (List Json) = elim (change_volume config vs) [
      | none ↦ none
      | some ws ↦ some (v ∷ ws)
    ] in
    elim (as_object (some v)) [
      | none ↦ rest
      | some vol ↦ elim (with_network_data config vol) [ none ↦ rest | some w ↦ some (w ∷ vs) ]
    ]

abbrev pub template_path : List Str
template_path = codes "spec" ∷ codes "template" ∷ codes "spec" ∷ []

-- The volumes are stored, where one was changed.
unfoldable pub with_volumes : Option (List Json) → Fields → Fields
with_volumes none vm = vm
with_volumes (some vs) vm = put_nested template_path (codes "volumes") (array (array_of vs)) vm

unfoldable pub inject_volumes : Str → Fields → Fields
inject_volumes config vm =
    with_volumes (change_volume config (get_nested_slice template_path (codes "volumes") vm)) vm

unfoldable pub inject_cloud_init_network_config : List LocalNetIp → Fields → Fields
inject_cloud_init_network_config es vm =
    if str_eq (ethernets 0 es) []
    then vm
    else inject_volumes (line (codes "version: 2") ++ (line (codes "ethernets:") ++ ethernets 0 es))
        vm
