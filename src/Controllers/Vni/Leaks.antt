-- ===== src/Controllers/Vni/Leaks.antt =====
-- No run of the reconciler loses a VNI, however often and under whatever failures it runs.
use roks_vpc_cni.Base.{◌+◌, ◌≤◌}
use roks_vpc_cni.Controllers.Lifecycle.Leaks
use roks_vpc_cni.Controllers.Vni.{VirtualNetworkInterface, vni_kind, vni_kind-IsLawful}
use roks_vpc_cni.Controllers.Vni.Conservation.{recorded}

abbrev pub Tally : Type 0
Tally = Leaks.Tally vni_kind

abbrev pub VniHistory : VirtualNetworkInterface → Tally → Type 0
VniHistory = Leaks.RunHistory vni_kind

-- Over any number of runs on one object, in any modes and with any answers of the interfaces, and
-- with edits by others that leave the recorded id and the finalizer alone: the VNIs created are at
-- most those deleted, the status updates that failed, and the one that the object records, less
-- the one that it recorded at first. The VPC interface gives every VNI an id.
pub no_vni_lost :
    {first : VirtualNetworkInterface} {s : Tally}
    → VniHistory first s
    → s.created + recorded first ≤ s.deleted + recorded s.object + s.lost
unfolding recorded
no_vni_lost h = Leaks.none_lost vni_kind vni_kind-IsLawful h
