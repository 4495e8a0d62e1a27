-- ===== src/Controllers/Machines/Renames.antt =====
-- Which VNIs the drift check renames.
use roks_vpc_cni.Base.{
  ◌≡◌, Bool, true, false, Option, none, some, List, [], ◌∷◌, ◌++◌, if◌then◌else◌,
}
use roks_vpc_cni.Text.{Str, str_eq}
use roks_vpc_cni.Controllers.Effects.{Result, ok, err}
use roks_vpc_cni.Network.Names.{truncate_vpc_name}
use roks_vpc_cni.Controllers.Machines.{
  VmInterface, Machine, NamedVni, update, delete_fip, delete_attachment, delete_vni, rename_vni,
  metric, Calls, MachineEnv, owned, machine_name, expected_name,
}

-- The renames asked for, in their order, and the calls that delete or write something.
unfoldable pub renames : Calls → List (Str × Str)
renames [] = []
renames (rename_vni id name e ∷ t) = renames t ++ (id, name) ∷ []
renames (update o e ∷ t) = renames t
renames (delete_fip id e ∷ t) = renames t
renames (delete_attachment s id e ∷ t) = renames t
renames (delete_vni id e ∷ t) = renames t
renames (metric op r ∷ t) = renames t

unfoldable pub destroys : Calls → Bool
destroys [] = false
destroys (rename_vni id name e ∷ t) = destroys t
destroys (metric op r ∷ t) = destroys t
destroys (update o e ∷ t) = true
destroys (delete_fip id e ∷ t) = true
destroys (delete_attachment s id e ∷ t) = true
destroys (delete_vni id e ∷ t) = true

-- The rename due for a VNI, by what GetVNI says of it.
unfoldable pub due : Str → Result NamedVni → List (Str × Str)
due name (err e) = []
due name (ok v) = if str_eq v.name name then [] else (v.id, name) ∷ []

module _ (env : MachineEnv) (look : Str → Result NamedVni) where
  unfoldable pub due_of : Machine → List VmInterface → List (Str × Str)
  due_of o [] = []
  due_of o (i ∷ is) =
      let rest = due_of o is in
      if owned i then due (expected_name env o i) (look i.vni_id) ++ rest else rest

  unfoldable pub due_by : Machine → Option (List VmInterface) → List (Str × Str)
  due_by o (some is) = due_of o is
  due_by o none =
      if str_eq o.annotations.vni_id []
      then []
      else due (truncate_vpc_name env.sha256 (machine_name env o)) (look o.annotations.vni_id)

-- These are the renames made from `t` on, and nothing else.
abbrev Makes : List (Str × Str) → Calls → Calls → Type 0
Makes rs t t' = (renames t' ≡ renames t ++ rs) × (destroys t' ≡ destroys t)
