-- ===== src/Controllers/Vni/Conservation.antt =====
-- When the status of an object accounts for a VNI.
use roks_vpc_cni.Base.{ℕ, ◌≡◌, ◌≢◌, []}
use roks_vpc_cni.Controllers.Effects.{ok, Trace}
use roks_vpc_cni.Controllers.Lifecycle.Conservation
use roks_vpc_cni.Controllers.Vni.{
  VirtualNetworkInterface, CreateVniOptions, VpcVni, VniEnv, vni_kind,
}
use roks_vpc_cni.Text.{Str}

-- 1 where the object holds the id of a VNI, and the finalizer that keeps the object until the VNI
-- is deleted.
unfoldable pub recorded : VirtualNetworkInterface → ℕ
recorded o = Conservation.recorded vni_kind o

-- The VPC interface gives every VNI that it creates an id.
abbrev pub GivesIds : VniEnv → Type 0
GivesIds env =
    (q : CreateVniOptions) (t : Trace VirtualNetworkInterface CreateVniOptions VpcVni Str)
    (v : VpcVni)
    → env.on_create q t ≡ ok v
    → v.id ≢ []

abbrev pub VniTrace : Type 0
VniTrace = Trace VirtualNetworkInterface CreateVniOptions VpcVni Str
