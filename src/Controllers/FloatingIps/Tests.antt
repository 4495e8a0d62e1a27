-- ===== src/Controllers/FloatingIps/Tests.antt =====
-- Runs of the FloatingIP reconciler at concrete inputs.
use roks_vpc_cni.Base.{◌+◌, ◌≤◌, ◌≡◌, refl, true, false, none, [], arith}
use roks_vpc_cni.Text.{codes, str_eq}
use roks_vpc_cni.Controllers.Effects.{ok, unset}
use roks_vpc_cni.Controllers.Trace.{stored}
use roks_vpc_cni.Controllers.History
use roks_vpc_cni.Controllers.Lifecycle.{object, unmanaged}
use roks_vpc_cni.Controllers.Lifecycle.Conservation.{GivesIds}
use roks_vpc_cni.Controllers.Lifecycle.Leaks
use roks_vpc_cni.Controllers.Lifecycle.Leaks.{run}
use roks_vpc_cni.Controllers.Lifecycle.Progress.{Faultless}
use roks_vpc_cni.Controllers.FloatingIps.{
  FloatingIpObject, FipEnv, create_options, fip_kind, reconcile,
}
use roks_vpc_cni.Controllers.FloatingIps.Progress.{
  recorded, FipHistory, IsDone, no_floating_ip_lost, run-IsDone,
}

abbrev fresh : FloatingIpObject
fresh = record {
  name = codes "web";
  finalizers = [];
  deleting = false;
  spec = record { zone = codes "z"; vni_ref = codes "v"; vni_id = []; name = [] };
  status = record {
    sync_status = unset;
    fip_id = [];
    address = [];
    target_vni_id = [];
    last_sync_time = none;
    message = [];
    ready = none;
  };
}

abbrev healthy : FipEnv
healthy = record {
  on_update = λ o t. none;
  on_status_update = λ o t. none;
  on_create =
      λ q t. ok (record { id = codes "f1"; address = codes "150.1.1.1"; target = q.vni_id });
  on_delete = λ d t. none;
  now = λ t. 7;
  has_recorder = true;
}

generated_name :
    create_options (codes "c") fresh
    ≡ record { name = codes "roks-c-web"; zone = codes "z"; vni_id = codes "v" }
unfolding create_options str_eq
generated_name = refl

healthy-GivesIds : GivesIds (fip_kind (codes "c")) healthy
healthy-GivesIds q t v e = ground (arith, e)

healthy-Faultless : Faultless healthy
healthy-Faultless = record {
  updates = λ o t. refl;
  status_updates = λ o t. refl;
  creates = λ q t. (_, refl);
  deletes = λ d t. refl;
}

run-IsDone_example :
    IsDone (codes "c") false (stored fresh (reconcile (codes "c") healthy (object fresh) []).1)
run-IsDone_example = run-IsDone (codes "c") healthy fresh healthy-Faultless healthy-GivesIds

abbrev one_run : (s : Leaks.Tally (fip_kind (codes "c"))) × FipHistory (codes "c") fresh s
one_run = (_, History.ran _ (run unmanaged healthy healthy-GivesIds) History.start)

no_floating_ip_lost_example :
    one_run.0.created + recorded (codes "c") fresh
    ≤ one_run.0.deleted + recorded (codes "c") one_run.0.object + one_run.0.lost
no_floating_ip_lost_example = no_floating_ip_lost (codes "c") {first = fresh} one_run.1
